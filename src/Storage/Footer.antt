-- ===== src/Storage/Footer.antt =====
-- storage/writer.go (`marshalFooter`) and storage/reader.go (`readFooter`, `parseFooter`).
pub mod Bounds
pub mod Entries
pub mod RoundTrip
use vexq.Prelude.{
  ltb, leb, ◌==◌, if◌then◌else◌, ltb→lt, lt→ltb, leb→le, ==_iff, tests, Bool-cases, Option-cases,
  codes, bytes_eq, bytes_eq→eq, bytes_eq_refl, bytes_eq_iff, length, get_elem?, set, length-append,
  length-set, get_elem?-set_self, get_elem?-set_ne, get_or, take, drop, replicate, take-append-drop,
  length-take, length-drop, length-replicate, length-map, append_cancel, take_append, All,
  All-append, drop_all, drop_some, take_all, take_some, map-drop, map-take, take_full, Bytes,
  IsByte, u16, u32, u64, ltb_i64, ltb_i32, Error, checksum, corrupt_footer, bad_magic,
  type_mismatch, column_complete, row_group_open, missing_columns, index_out_of_range,
  unexpected_eof, eof, Result, ok, err, panic, reject_if, Safe, Safe-bind, ℕ, zero, suc, ◌+◌, ◌-◌,
  ◌*◌, ◌/◌, ◌%◌, ◌^◌, ◌≤◌, ◌<◌, min, ◌≡◌, refl, sym, ap, ap₂, ◌∙◌, subst, fun_ext, ◌≢◌, ◌↔◌, ◌⊎◌,
  inl, inr, Bool, true, false, not, ◌&&◌, ◌||◌, Option, none, some, List, [], ◌∷◌, ◌++◌, map,
  append-nil, append_assoc, foldl, arith,
}
use vexq.Prelude.{◌>>=◌}
use vexq.Encoding.{
  append_uint16, append_uint32, append_uint64, append_int64, read_uint16, read_uint32, read_uint64,
  read_int64, checksum_ieee,
}
use vexq.Storage.Bitmap.{index}
use vexq.Storage.Schema.{
  Field, ZoneMap, ColumnSectionMeta, RowGroupMeta, FileMeta, magic, footer_trailer_size,
}

unfoldable pub append_field : Bytes → Field → Bytes
append_field b f =
    append_uint16 b (length f.name % u16)
    ++ f.name
    ++ f.data_type ∷ f.encoding ∷ (if f.nullable then 1 else 0) ∷ []

unfoldable pub append_fields : Bytes → List Field → Bytes
unfolding append_field
append_fields b [] = b
append_fields b (f ∷ fields) = append_fields (append_field b f) fields

unfoldable pub append_column_meta : Bytes → ColumnSectionMeta → Bytes
append_column_meta b col =
    let b = append_int64 b col.section_offset in
    let b = append_int64 b col.section_length in
    let b = append_int64 b col.stats.null_count in
    let b = append_int64 b col.stats.sum in
    let b = append_uint64 b col.stats.minimum in
    let b = append_uint64 b col.stats.maximum in
    let b = b ++ (if col.stats.has_min_max then 1 else 0) ∷ [] in
    append_uint32 (append_uint32 b col.dict_offset) col.dict_length

unfoldable pub append_columns : Bytes → List ColumnSectionMeta → Bytes
unfolding append_column_meta
append_columns b [] = b
append_columns b (col ∷ columns) = append_columns (append_column_meta b col) columns

unfoldable pub append_row_groups : Bytes → List RowGroupMeta → Bytes
unfolding append_columns
append_row_groups b [] = b
append_row_groups b (rg ∷ rgs) =
    append_row_groups
      (append_columns (append_uint32 (append_int64 b rg.file_offset) (rg.num_rows % u32))
        rg.columns)
      rgs

-- The schema and the row group directory.
unfoldable pub footer_body : FileMeta → Bytes
unfolding append_fields append_row_groups
footer_body meta =
    let b = append_fields (append_uint32 [] (length meta.fields % u32)) meta.fields in
    append_row_groups (append_uint32 b (length meta.row_groups % u32)) meta.row_groups

unfoldable pub marshal_footer : FileMeta → Bytes
unfolding footer_body
marshal_footer meta =
    let body = footer_body meta in
    let trailer = append_int64 (append_uint32 [] (checksum_ieee body)) (length body) ++ magic in
    body ++ trailer

-- `b[:n]` and `b[n:]`, which panic out of range.
unfoldable pub split_at : ℕ → Bytes → Result (Bytes × Bytes)
split_at n b = if ltb (length b) n then panic else ok (take n b, drop n b)

-- One byte, and the rest.
unfoldable pub read_byte : Bytes → Result (ℕ × Bytes)
read_byte [] = panic
read_byte (c ∷ b) = ok (c, b)

unfoldable pub read_field : Bytes → Result (Field × Bytes)
unfolding split_at read_byte
read_field b = reject_if (ltb (length b) 2) corrupt_footer (do
  (name_len, b) ← read_uint16 b
  reject_if (ltb (length b) (name_len + 3)) corrupt_footer (do
    (name, b) ← split_at name_len b
    (t, b) ← read_byte b
    (e, b) ← read_byte b
    (flags, b) ← read_byte b
    ok (record { name = name; data_type = t; encoding = e; nullable = flags % 2 == 1 }, b)))

unfoldable pub read_fields : ℕ → Bytes → Result (List Field × Bytes)
unfolding read_field
read_fields zero b = ok ([], b)
read_fields (suc n) b = do (f, b) ← read_field b; (fields, b) ← read_fields n b; ok (f ∷ fields, b)

abbrev pub col_meta_size : ℕ
col_meta_size = 57

unfoldable pub read_column : Bytes → Result (ColumnSectionMeta × Bytes)
unfolding read_byte
read_column b = reject_if (ltb (length b) col_meta_size) corrupt_footer (do
  (section_offset, b) ← read_int64 b
  (section_length, b) ← read_int64 b
  (null_count, b) ← read_int64 b
  (sum, b) ← read_int64 b
  (minimum, b) ← read_uint64 b
  (maximum, b) ← read_uint64 b
  (flag, b) ← read_byte b
  (dict_offset, b) ← read_uint32 b
  (dict_length, b) ← read_uint32 b
  let stats : ZoneMap = record {
    null_count = null_count;
    sum = sum;
    minimum = minimum;
    maximum = maximum;
    has_min_max = not (flag == 0);
  }
  ok (
    record {
      section_offset = section_offset;
      section_length = section_length;
      stats = stats;
      dict_offset = dict_offset;
      dict_length = dict_length;
    },
    b,
  ))

unfoldable pub read_columns : ℕ → Bytes → Result (List ColumnSectionMeta × Bytes)
unfolding read_column
read_columns zero b = ok ([], b)
read_columns (suc n) b = do
  (col, b) ← read_column b
  (columns, b) ← read_columns n b
  ok (col ∷ columns, b)

-- `n` row groups of `num_cols` columns.
unfoldable pub read_row_groups : ℕ → ℕ → Bytes → Result (List RowGroupMeta × Bytes)
unfolding read_columns
read_row_groups num_cols zero b = ok ([], b)
read_row_groups num_cols (suc n) b = reject_if (ltb (length b) 12) corrupt_footer (do
  (file_offset, b) ← read_int64 b
  (num_rows, b) ← read_uint32 b
  (columns, b) ← read_columns num_cols b
  (rgs, b) ← read_row_groups num_cols n b
  ok (record { file_offset = file_offset; num_rows = num_rows; columns = columns } ∷ rgs, b))

-- What follows the directory is ignored. The slices that are made for the counts, of 32 bits, have
-- lengths that `make` takes.
unfoldable pub parse_footer : Bytes → Result FileMeta
unfolding read_fields read_row_groups
parse_footer body = reject_if (ltb (length body) 4) corrupt_footer (do
  (num_cols, b) ← read_uint32 body
  (fields, b) ← read_fields num_cols b
  reject_if (ltb (length b) 4) corrupt_footer (do
    (num_rgs, b) ← read_uint32 b
    (row_groups, b) ← read_row_groups num_cols num_rgs b
    ok (record { fields = fields; row_groups = row_groups })))

-- `n` bytes of a file from an offset on; a short read is an error.
unfoldable pub read_at : Bytes → ℕ → ℕ → Result Bytes
read_at file off n =
    if ltb (length file) (off + n) then err unexpected_eof else ok (take n (drop off file))

-- The length of `make([]byte, n)` for an int64, which panics on a negative length and from `limit` on,
-- where the run time makes no slice.
unfoldable pub made_length : ℕ → ℕ → Result ℕ
made_length limit n = if leb (2 ^ 63) n || leb limit n then panic else ok n

-- `a > b` for an int64 and one that is not negative; a pattern from 2^63 on is negative.
unfoldable pub gt_i64 : ℕ → ℕ → Bool
gt_i64 a b = ltb a (2 ^ 63) && ltb b a

-- `readFooter`, where slices are shorter than `limit`; a length from 2^63 on is negative.
unfoldable pub read_footer_within : ℕ → Bytes → Result FileMeta
unfolding made_length gt_i64
read_footer_within limit file =
    let size = length file in
    reject_if (ltb size (footer_trailer_size + length magic)) bad_magic (do
      trailer ← read_at file (size - footer_trailer_size) footer_trailer_size
      reject_if (not (bytes_eq (drop 12 trailer) magic)) bad_magic (do
        (footer_crc, b) ← read_uint32 trailer
        (footer_len, b) ← read_int64 b
        let room = size - footer_trailer_size - length magic
        reject_if (leb (2 ^ 63) footer_len || gt_i64 footer_len room) corrupt_footer (do
          n ← made_length limit footer_len
          body ← read_at file (size - footer_trailer_size - footer_len) n
          reject_if (not (checksum_ieee body == footer_crc)) checksum (parse_footer body))))

-- With every length that an int64 has.
unfoldable pub read_footer : Bytes → Result FileMeta
unfolding read_footer_within
read_footer file = read_footer_within (2 ^ 63) file
