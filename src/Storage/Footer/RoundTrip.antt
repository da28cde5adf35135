-- ===== src/Storage/Footer/RoundTrip.antt =====
-- A footer that is written and parsed again is the same metadata.
use vexq.Prelude.{
  ltb, leb, ◌==◌, bytes_eq, bytes_eq_refl, length, length-append, drop, append_cancel, take_append,
  All, Bytes, u32, u64, ok, ℕ, ◌+◌, ◌-◌, ◌%◌, ◌^◌, ◌≤◌, ◌<◌, ◌≡◌, refl, sym, ap, ◌∙◌, subst, true,
  false, ◌||◌, List, [], ◌∷◌, ◌++◌, append-nil, append_assoc, arith,
}
use vexq.Encoding.{read_le, checksum_ieee, to_le, append_uint32, append_int64}
use vexq.Encoding.RoundTrip.{checksum_ieee-lt, read_back, length-to_le}
use vexq.Storage.Schema.{RowGroupMeta, FileMeta}
use vexq.Storage.Footer.Entries.{
  FieldFits, ColumnFits, field_list_bytes, append_fields-bytes, read_fields-bytes,
  column_list_bytes, append_columns-bytes, read_columns-bytes, long_append,
}
use vexq.Storage.Footer.{
  read_at, magic, marshal_footer, append_fields, made_length, gt_i64, read_footer_within,
  read_footer, read_columns, append_row_groups, footer_body, read_row_groups, parse_footer,
}

-- A row group of `n` columns that the footer can hold.
pub record RowGroupFits (n : ℕ) (rg : RowGroupMeta) : Type 0 where
  pub file_offset : rg.file_offset < u64
  pub num_rows : rg.num_rows < u32
  pub width : length rg.columns ≡ n
  pub columns : All ColumnFits rg.columns

row_group_onto : RowGroupMeta → Bytes → Bytes
row_group_onto rg rest =
    to_le 8 rg.file_offset ++ (to_le 4 rg.num_rows ++ (column_list_bytes rg.columns ++ rest))

row_groups_bytes : List RowGroupMeta → Bytes
row_groups_bytes [] = []
row_groups_bytes (rg ∷ rgs) = row_group_onto rg (row_groups_bytes rgs)

append_row_groups-bytes :
    (n : ℕ) (rgs : List RowGroupMeta)
    → All (RowGroupFits n) rgs
    → (b : Bytes) → append_row_groups b rgs ≡ b ++ row_groups_bytes rgs
unfolding append_row_groups row_groups_bytes row_group_onto
append_row_groups-bytes n [] h b = sym (append-nil b)
append_row_groups-bytes n (rg ∷ rgs) (h, hs) b =
    let small : rg.num_rows % u32 ≡ rg.num_rows = omega (arith, h.num_rows) in
    append_row_groups-bytes n rgs hs _
    ∙ rw
        (
          small,
          append_columns-bytes rg.columns
              (append_uint32 (append_int64 b rg.file_offset) rg.num_rows),
        )
        (simp append_assoc)

read_row_groups-bytes :
    (n : ℕ) (rgs : List RowGroupMeta) (rest : Bytes)
    → All (RowGroupFits n) rgs
    → read_row_groups n (length rgs) (row_groups_bytes rgs ++ rest) ≡ ok (rgs, rest)
unfolding read_row_groups row_groups_bytes
read_row_groups-bytes n [] rest h = refl
read_row_groups-bytes n (rg ∷ rgs) rest (h, hs) =
    let tail : Bytes = column_list_bytes rg.columns ++ (row_groups_bytes rgs ++ rest) in
    let whole : row_group_onto rg (row_groups_bytes rgs) ++ rest
        ≡ to_le 8 rg.file_offset ++ (to_le 4 rg.num_rows ++ tail) =
      unfold row_group_onto in simp append_assoc in
    let long : ltb (length (to_le 8 rg.file_offset ++ (to_le 4 rg.num_rows ++ tail))) 12 ≡ false =
      ground (
        arith,
        length-append (to_le 8 rg.file_offset) (to_le 4 rg.num_rows ++ tail),
        length-append (to_le 4 rg.num_rows) tail,
        length-to_le 8 rg.file_offset,
        length-to_le 4 rg.num_rows,
      ) in
    let columns : read_columns n tail ≡ ok (rg.columns, row_groups_bytes rgs ++ rest) =
      subst (λ k. read_columns k tail ≡ ok (rg.columns, row_groups_bytes rgs ++ rest)) h.width
        (read_columns-bytes rg.columns (row_groups_bytes rgs ++ rest) h.columns) in
    rw (
      whole,
      long,
      read_back 8 rg.file_offset h.file_offset,
      read_back 4 rg.num_rows h.num_rows,
      columns,
      read_row_groups-bytes n rgs rest hs,
    )

-- Metadata that the footer can hold.
pub record MetaFits (meta : FileMeta) : Type 0 where
  pub few_fields : length meta.fields < u32
  pub few_groups : length meta.row_groups < u32
  pub fields : All FieldFits meta.fields
  pub row_groups : All (RowGroupFits (length meta.fields)) meta.row_groups

footer_body-bytes :
    (meta : FileMeta)
    → MetaFits meta
    → footer_body meta
      ≡ to_le 4 (length meta.fields)
        ++ (field_list_bytes meta.fields
            ++ (to_le 4 (length meta.row_groups) ++ row_groups_bytes meta.row_groups))
unfolding footer_body
footer_body-bytes meta h =
    let n : ℕ = length meta.fields in
    let m : ℕ = length meta.row_groups in
    let few : n % u32 ≡ n = omega (arith, h.few_fields) in
    let few' : m % u32 ≡ m = omega (arith, h.few_groups) in
    let b : Bytes = append_fields (to_le 4 n) meta.fields in
    rw (few, few')
      (append_row_groups-bytes n meta.row_groups h.row_groups (b ++ to_le 4 m)
        ∙ rw (append_fields-bytes meta.fields h.fields (to_le 4 n)) (simp append_assoc))

-- The directory parses to what was written.
pub parse_footer-body :
    (meta : FileMeta) → MetaFits meta → parse_footer (footer_body meta) ≡ ok meta
unfolding parse_footer
parse_footer-body meta h =
    let n : ℕ = length meta.fields in
    let m : ℕ = length meta.row_groups in
    let rgs : Bytes = row_groups_bytes meta.row_groups in
    let tail : Bytes = to_le 4 m ++ rgs in
    let whole : footer_body meta ≡ to_le 4 n ++ (field_list_bytes meta.fields ++ tail) =
      footer_body-bytes meta h in
    let long : ltb (length (to_le 4 n ++ (field_list_bytes meta.fields ++ tail))) 4 ≡ false =
      long_append 4 (to_le 4 n) (field_list_bytes meta.fields ++ tail)
        (omega (arith, length-to_le 4 n)) in
    let long' : ltb (length tail) 4 ≡ false =
      long_append 4 (to_le 4 m) rgs (omega (arith, length-to_le 4 m)) in
    let groups : read_row_groups n m rgs ≡ ok (meta.row_groups, []) =
      rw append-nil at (read_row_groups-bytes n meta.row_groups [] h.row_groups) in
    rw (
      whole,
      long,
      read_back 4 n h.few_fields,
      read_fields-bytes meta.fields tail h.fields,
      long',
      read_back 4 m h.few_groups,
      groups,
    )

trailer : ℕ → ℕ → Bytes
trailer crc n = to_le 4 crc ++ (to_le 8 n ++ magic)

length-trailer : (crc n : ℕ) → length (trailer crc n) ≡ 16
unfolding trailer to_le
length-trailer crc n = refl

drop-trailer : (crc n : ℕ) → bytes_eq (drop 12 (trailer crc n)) magic ≡ true
unfolding trailer to_le
drop-trailer crc n = bytes_eq_refl magic

read-trailer_crc :
    (crc n : ℕ) → crc < u32 → read_le 4 (trailer crc n) ≡ ok (crc, to_le 8 n ++ magic)
unfolding trailer
read-trailer_crc crc n h = read_back 4 crc h (to_le 8 n ++ magic)

marshal_footer-trailer :
    (meta : FileMeta)
    → marshal_footer meta
      ≡ footer_body meta ++ trailer (checksum_ieee (footer_body meta)) (length (footer_body meta))
unfolding marshal_footer trailer to_le
marshal_footer-trailer meta = refl

read_at_lem :
    (a b c : Bytes) (off n : ℕ)
    → off ≡ length a
    → n ≡ length b
    → read_at (a ++ (b ++ c)) off n ≡ ok b
unfolding read_at
read_at_lem a b c off n e e' =
    let short : ltb (length (a ++ (b ++ c))) (off + n) ≡ false =
      ground (arith, length-append a (b ++ c), length-append b c) in
    rw short (rw (e, e', append_cancel, take_append) refl)

-- The body is found behind any content, and its checksum holds.
read_footer-trailer :
    (content body : Bytes)
    → 4 ≤ length content
    → length (content ++ (body ++ trailer (checksum_ieee body) (length body))) < 2 ^ 63
    → read_footer (content ++ (body ++ trailer (checksum_ieee body) (length body)))
      ≡ parse_footer body
unfolding read_footer read_footer_within made_length gt_i64
read_footer-trailer content body long small =
    let crc : ℕ = checksum_ieee body in
    let n : ℕ = length body in
    let t : Bytes = trailer crc n in
    let file : Bytes = content ++ (body ++ t) in
    let size : length file ≡ length content + (n + 16) =
      length-append content (body ++ t)
      ∙ ap (λ k. length content + k)
          (length-append body t ∙ ap (λ k. n + k) (length-trailer crc n)) in
    let joined : (content ++ body) ++ (t ++ []) ≡ file = simp (append_assoc, append-nil) in
    let end : read_at file (length file - 16) 16 ≡ ok t =
      subst (λ f. read_at f (length file - 16) 16 ≡ ok t) joined
        (read_at_lem (content ++ body) t [] (length file - 16) 16
          (omega (arith, size, length-append content body)) (sym (length-trailer crc n))) in
    let middle : read_at file (length file - 16 - n) n ≡ ok body =
      read_at_lem content body t (length file - 16 - n) n (omega (arith, size)) refl in
    let big : ltb (length file) 20 ≡ false = ground (arith, size) in
    let room : (leb (2 ^ 63) n || gt_i64 n (length file - 16 - 4)) ≡ false = ground (arith, size) in
    let made : (leb (2 ^ 63) n || leb (2 ^ 63) n) ≡ false = ground (arith, size) in
    let same : (crc == crc) ≡ true = ground arith in
    rw (
      big,
      end,
      drop-trailer crc n,
      read-trailer_crc crc n (checksum_ieee-lt body),
      read_back 8 n (omega (arith, size)) magic,
      room,
      made,
      middle,
      same,
    )

-- Behind at least four bytes of content, a footer is read back as the metadata that was written,
-- where names are below 2^16 bytes, counts and 32-bit fields below 2^32, other words below 2^64,
-- each row group has a column for every field, and the file has fewer than 2^63 bytes.
pub read_footer-marshal_footer :
    (content : Bytes) (meta : FileMeta)
    → MetaFits meta
    → 4 ≤ length content
    → length (content ++ marshal_footer meta) < 2 ^ 63
    → read_footer (content ++ marshal_footer meta) ≡ ok meta
read_footer-marshal_footer content meta h long small =
    let e : marshal_footer meta
        ≡ footer_body meta
          ++ trailer (checksum_ieee (footer_body meta)) (length (footer_body meta)) =
      marshal_footer-trailer meta in
    rw e (
      read_footer-trailer content (footer_body meta) long (rw e at small)
      ∙ parse_footer-body meta h)
