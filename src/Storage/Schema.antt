-- ===== src/Storage/Schema.antt =====
-- storage/format.go and storage/schema.go: the constants of the format, and a file's metadata.
use vexq.Prelude.{
  ◌==◌, if◌then◌else◌, codes, bytes_eq, Bytes, ℕ, suc, ◌+◌, ◌/◌, Bool, ◌||◌, Option, none, some,
  List, [], ◌∷◌,
}

abbrev pub magic : Bytes
magic = codes "VXQ1"

abbrev pub block_rows : ℕ
block_rows = 1024

abbrev pub null_bitmap_bytes : ℕ
null_bitmap_bytes = (block_rows + 7) / 8

abbrev pub footer_trailer_size : ℕ
footer_trailer_size = 16

-- A `DataType` and an `Encoding` are bytes; a footer may hold any.
abbrev pub type_int64 : ℕ
type_int64 = 1

abbrev pub type_float64 : ℕ
type_float64 = 2

abbrev pub type_bool : ℕ
type_bool = 3

abbrev pub type_string : ℕ
type_string = 4

abbrev pub type_date : ℕ
type_date = 5

unfoldable pub value_size : ℕ → ℕ
value_size t =
    if t == type_int64 || t == type_float64
    then 8
    else if t == type_date || t == type_string
    then 4
    else 0

pub record Field : Type 0 where
  pub name : Bytes
  pub data_type : ℕ
  pub encoding : ℕ
  pub nullable : Bool

one_later : Option ℕ → Option ℕ
one_later none = none
one_later (some i) = some (suc i)

-- The column of a name; -1 is `none`.
unfoldable pub index_of : List Field → Bytes → Option ℕ
unfolding one_later
index_of [] name = none
index_of (f ∷ fields) name =
    let later = one_later (index_of fields name) in if bytes_eq f.name name then some 0 else later

-- The integers are bit patterns of 64 bits.
pub record ZoneMap : Type 0 where
  pub null_count : ℕ
  pub sum : ℕ
  pub minimum : ℕ
  pub maximum : ℕ
  pub has_min_max : Bool

pub record ColumnSectionMeta : Type 0 where
  pub section_offset : ℕ
  pub section_length : ℕ
  pub stats : ZoneMap
  pub dict_offset : ℕ
  pub dict_length : ℕ

pub record RowGroupMeta : Type 0 where
  pub file_offset : ℕ
  pub num_rows : ℕ
  pub columns : List ColumnSectionMeta

pub record FileMeta : Type 0 where
  pub fields : List Field
  pub row_groups : List RowGroupMeta
