-- ===== src/Storage/Writer.antt =====
-- storage/writer.go: the writer's row-group state machine. Each operation returns the new writer, or
-- an error that leaves the writer as it was. The temporary file and its flush, close and rename are
-- not modelled: the file is the bytes written so far.
pub mod Sections
pub mod Invariant
pub mod History
use vexq.Storage.Bitmap.{full_bitmap, index}
use vexq.Storage.Footer.{marshal_footer}
use vexq.Storage.Schema.{
  type_string, type_bool, type_date, magic, type_float64, RowGroupMeta, FileMeta, Field, ZoneMap,
  ColumnSectionMeta, type_int64,
}
use vexq.Storage.Blocks.{
  write_string_blocks, write_bool_blocks, write_date_blocks, write_float64_blocks,
  write_int64_blocks, no_stats, Floats,
}
use vexq.Prelude.{
  ◌>>=◌, ltb, ◌==◌, if◌then◌else◌, length, set, replicate, Bytes, u32, type_mismatch,
  column_complete, row_group_open, missing_columns, index_out_of_range, canceled, unsupported_type,
  Result, ok, reject_if, ℕ, ◌+◌, ◌-◌, ◌%◌, Bool, true, false, not, ◌&&◌, ◌||◌, Option, none, some,
  List, [], ◌∷◌, ◌++◌,
}

-- The `any` that `AppendColumn` is given; the numbers are bit patterns.
pub data Values : Type 0 where
  int64_values float64_values date_values : List ℕ → Values
  bool_values : List Bool → Values
  string_values : List Bytes → Values

is_int64 : Values → Bool
is_int64 (int64_values vs) = true
is_int64 (float64_values vs) = false
is_int64 (date_values vs) = false
is_int64 (bool_values vs) = false
is_int64 (string_values vs) = false

is_float64 : Values → Bool
is_float64 (int64_values vs) = false
is_float64 (float64_values vs) = true
is_float64 (date_values vs) = false
is_float64 (bool_values vs) = false
is_float64 (string_values vs) = false

is_date : Values → Bool
is_date (int64_values vs) = false
is_date (float64_values vs) = false
is_date (date_values vs) = true
is_date (bool_values vs) = false
is_date (string_values vs) = false

is_bool : Values → Bool
is_bool (int64_values vs) = false
is_bool (float64_values vs) = false
is_bool (date_values vs) = false
is_bool (bool_values vs) = true
is_bool (string_values vs) = false

is_string : Values → Bool
is_string (int64_values vs) = false
is_string (float64_values vs) = false
is_string (date_values vs) = false
is_string (bool_values vs) = false
is_string (string_values vs) = true

pub record Writer : Type 0 where
  pub fields : List Field
  pub out : Bytes
  pub offset : ℕ
  pub row_groups : List RowGroupMeta
  pub rg_num_rows : ℕ
  pub rg_col_written : List Bool
  pub rg_col_meta : List ColumnSectionMeta
  pub rg_start_off : ℕ

unfoldable pub must_write : Writer → Bytes → Writer
must_write w b = record w { out = w.out ++ b; offset = w.offset + length b }

unfoldable pub new_writer : List Field → Writer
new_writer fields = record {
  fields = fields;
  out = magic;
  offset = length magic;
  row_groups = [];
  rg_num_rows = 0;
  rg_col_written = [];
  rg_col_meta = [];
  rg_start_off = 0;
}

abbrev pub no_section : ColumnSectionMeta
no_section = record {
  section_offset = 0;
  section_length = 0;
  stats = no_stats;
  dict_offset = 0;
  dict_length = 0;
}

-- A group of no rows counts as none.
unfoldable pub begin_row_group : Writer → ℕ → Result Writer
begin_row_group w num_rows = reject_if (not (w.rg_num_rows == 0)) row_group_open (
    ok (record w {
      rg_num_rows = num_rows;
      rg_col_written = replicate (length w.fields) false;
      rg_col_meta = replicate (length w.fields) no_section;
      rg_start_off = w.offset;
    }))

-- Any value passes for a type that is none of the five.
unfoldable pub check_value_type : ℕ → Values → Bool
unfolding is_int64 is_float64 is_date is_bool is_string
check_value_type t values =
    if t == type_int64
    then is_int64 values
    else if t == type_float64
    then is_float64 values
    else if t == type_date
    then is_date values
    else if t == type_bool
    then is_bool values
    else if t == type_string
    then is_string values
    else true

unfoldable pub known_type : ℕ → Bool
known_type t =
    t == type_int64 || t == type_float64 || t == type_date || t == type_bool || t == type_string

-- The bytes of a section, its statistics, and the place of the dictionary in it.
pub record Section : Type 0 where
  pub bytes : Bytes
  pub stats : ZoneMap
  pub dict_offset : ℕ
  pub dict_length : ℕ

plain_section : Bytes × ZoneMap → Result Section
plain_section (bytes, stats) =
    ok (record { bytes = bytes; stats = stats; dict_offset = 0; dict_length = 0 })

abbrev pub column_done : Writer → ℕ → Section → Writer
column_done w idx s =
    let w' = must_write w s.bytes in
    record w' {
      rg_col_meta = set w.rg_col_meta idx (record {
        section_offset = w.offset;
        section_length = w'.offset - w.offset;
        stats = s.stats;
        dict_offset = s.dict_offset;
        dict_length = s.dict_length;
      });
      rg_col_written = set w.rg_col_written idx true;
    }

module _ (fl : Floats) where
  unfoldable pub write_section : Bytes → Values → Result Section
  unfolding plain_section
  write_section nulls (int64_values vs) = write_int64_blocks nulls vs [] >>= plain_section
  write_section nulls (float64_values vs) = write_float64_blocks fl nulls vs [] >>= plain_section
  write_section nulls (date_values vs) = write_date_blocks nulls vs [] >>= plain_section
  write_section nulls (bool_values vs) = write_bool_blocks nulls vs [] >>= plain_section
  write_section nulls (string_values vs) = do
    (bytes, stats, dict) ← write_string_blocks nulls vs []
    ok (record {
      bytes = bytes ++ dict;
      stats = stats;
      dict_offset = length bytes % u32;
      dict_length = length dict % u32;
    })

  -- `canceled` is what the context says; `none` for a nil bitmap. A negative index is out of range
  -- like one that is too large.
  unfoldable pub append_column :
      Writer → (canceled : Bool) → ℕ → Option Bytes → Values → Result Writer
  unfolding must_write check_value_type known_type write_section
  append_column w cancel idx nulls values = reject_if cancel canceled (
      reject_if (w.rg_num_rows == 0) row_group_open (
        reject_if (not (ltb idx (length w.fields))) index_out_of_range (do
          done ← index w.rg_col_written idx
          reject_if done column_complete (do
            field ← index w.fields idx
            reject_if (not (check_value_type field.data_type values)) type_mismatch (
                reject_if (not (known_type field.data_type)) unsupported_type (do
                  s ←
                      write_section (elim nulls [ none ↦ full_bitmap w.rg_num_rows | some b ↦ b ])
                        values
                  ok (column_done w idx s)))))))

all_done : List Bool → Bool
all_done [] = true
all_done (done ∷ rest) = done && all_done rest

unfoldable pub end_row_group : Writer → Result Writer
unfolding all_done
end_row_group w = reject_if (w.rg_num_rows == 0) row_group_open (
    reject_if (not (all_done w.rg_col_written)) missing_columns (
      ok (record w {
        row_groups =
            w.row_groups
            ++ record {
              file_offset = w.rg_start_off;
              num_rows = w.rg_num_rows;
              columns = w.rg_col_meta;
            }
              ∷ [];
        rg_num_rows = 0;
        rg_col_written = [];
        rg_col_meta = [];
      })))

abbrev pub meta_of : Writer → FileMeta
meta_of w = record { fields = w.fields; row_groups = w.row_groups }

-- The bytes of the finished file.
unfoldable pub finish : Writer → Result Bytes
unfolding must_write marshal_footer
finish w =
    reject_if (not (w.rg_num_rows == 0)) row_group_open
      (ok (must_write w (marshal_footer (meta_of w))).out)

unfoldable pub bytes_written : Writer → ℕ
bytes_written w = w.offset
