-- ===== src/Storage/Footer/Bounds.antt =====
-- The footer parser on arbitrary bytes.
use vexq.Prelude.{
  not, bytes_eq, ◌||◌, leb, ◌>>=◌, ltb, leb, ◌==◌, Bool-cases, bytes_eq, length, take, drop,
  length-take, length-drop, All, Bytes, Result, Safe, Safe-bind, Safe-reject_if, ℕ, zero, suc, ◌+◌,
  ◌-◌, ◌^◌, ◌≤◌, ◌<◌, ◌≡◌, refl, ap, inl, inr, false, not, ◌||◌, [], ◌∷◌, arith,
}
use vexq.Encoding.{read_le, checksum_ieee}
use vexq.Encoding.RoundTrip.{read_le-Safe}
use vexq.Storage.Schema.{RowGroupMeta, FileMeta, magic}
use vexq.Storage.Footer.{
  split_at, read_byte, read_field, read_fields, read_column, read_columns, read_row_groups,
  parse_footer, read_at, made_length, gt_i64, read_footer_within,
}

read_byte-Safe :
    (b : Bytes) → 0 < length b → Safe (λ (v, rest). length rest + 1 ≡ length b) (read_byte b)
unfolding read_byte
read_byte-Safe [] h = omega arith
read_byte-Safe (c ∷ b) h = omega arith

-- What follows a read of a word, a byte or a slice that is there.
module _ {κ} {B : Type κ} (Q : B → Type 0) (b : Bytes) where
  word-Safe :
      (k : ℕ) (f : ℕ × Bytes → Result B)
      → k ≤ length b
      → ((v : ℕ) (rest : Bytes) → length rest + k ≡ length b → Safe Q (f (v, rest)))
      → Safe Q (read_le k b >>= f)
  word-Safe k f h next =
      Safe-bind _ _ (read_le k b) f (read_le-Safe k b h) (λ (v, rest) e. next v rest e)

  byte-Safe :
      (f : ℕ × Bytes → Result B)
      → 0 < length b
      → ((v : ℕ) (rest : Bytes) → length rest + 1 ≡ length b → Safe Q (f (v, rest)))
      → Safe Q (read_byte b >>= f)
  byte-Safe f h next =
      Safe-bind _ _ (read_byte b) f (read_byte-Safe b h) (λ (v, rest) e. next v rest e)

  split_at-Safe :
      (k : ℕ) (f : Bytes × Bytes → Result B)
      → k ≤ length b
      → ((a rest : Bytes) → length rest + k ≡ length b → Safe Q (f (a, rest)))
      → Safe Q (split_at k b >>= f)
  unfolding split_at
  split_at-Safe k f h next =
      let inside : ltb (length b) k ≡ false = ground arith in
      rw inside (next (take k b) (drop k b) (omega (arith, length-drop k b)))

read_field-Safe : (b : Bytes) → Safe (λ (f, rest). length rest ≤ length b) (read_field b)
unfolding read_field
read_field-Safe b = Safe-reject_if _ (ltb (length b) 2) _ _ (λ two.
    word-Safe _ b 2 _ (ground arith) (λ name_len b1 e1.
      Safe-reject_if _ (ltb (length b1) (name_len + 3)) _ _ (λ room.
        let fits : name_len + 3 ≤ length b1 = ground arith in
        split_at-Safe _ b1 name_len _ (omega (arith, fits)) (λ name b2 e2.
          byte-Safe _ b2 _ (omega (arith, fits, e2)) (λ t b3 e3.
            byte-Safe _ b3 _ (omega (arith, fits, e2, e3)) (λ e b4 e4.
              byte-Safe _ b4 _ (omega (arith, fits, e2, e3, e4))
                (λ flags b5 e5. omega (arith, e1, e2, e3, e4, e5))))))))

read_fields-Safe :
    (n : ℕ) (b : Bytes) → Safe (λ (fields, rest). length fields ≡ n) (read_fields n b)
unfolding read_fields
read_fields-Safe zero b = refl
read_fields-Safe (suc n) b = Safe-bind _ _ (read_field b) _ (read_field-Safe b) (λ (f, b1) _.
    Safe-bind _ _ (read_fields n b1) _ (read_fields-Safe n b1) (λ (fields, b2) count. ap suc count))

read_column-Safe : (b : Bytes) → Safe (λ (c, rest). length rest + 57 ≡ length b) (read_column b)
unfolding read_column
read_column-Safe b = Safe-reject_if _ (ltb (length b) 57) _ _ (λ room.
    let fits : 57 ≤ length b = ground arith in
    word-Safe _ b 8 _ (omega (arith, fits)) (λ v1 b1 e1.
      word-Safe _ b1 8 _ (omega (arith, fits, e1)) (λ v2 b2 e2.
        word-Safe _ b2 8 _ (omega (arith, fits, e1, e2)) (λ v3 b3 e3.
          word-Safe _ b3 8 _ (omega (arith, fits, e1, e2, e3)) (λ v4 b4 e4.
            word-Safe _ b4 8 _ (omega (arith, fits, e1, e2, e3, e4)) (λ v5 b5 e5.
              word-Safe _ b5 8 _ (omega (arith, fits, e1, e2, e3, e4, e5)) (λ v6 b6 e6.
                byte-Safe _ b6 _ (omega (arith, fits, e1, e2, e3, e4, e5, e6)) (λ v7 b7 e7.
                  word-Safe _ b7 4 _ (omega (arith, fits, e1, e2, e3, e4, e5, e6, e7)) (λ v8 b8 e8.
                    word-Safe _ b8 4 _ (omega (arith, fits, e1, e2, e3, e4, e5, e6, e7, e8))
                      (λ v9 b9 e9. omega (arith, e1, e2, e3, e4, e5, e6, e7, e8, e9)))))))))))

read_columns-Safe :
    (n : ℕ) (b : Bytes) → Safe (λ (columns, rest). length columns ≡ n) (read_columns n b)
unfolding read_columns
read_columns-Safe zero b = refl
read_columns-Safe (suc n) b = Safe-bind _ _ (read_column b) _ (read_column-Safe b) (λ (c, b1) _.
    Safe-bind _ _ (read_columns n b1) _ (read_columns-Safe n b1) (λ (cs, b2) count. ap suc count))

-- A row group with a column's metadata for each of `n` columns.
abbrev pub HasColumns : ℕ → RowGroupMeta → Type 0
HasColumns n rg = length rg.columns ≡ n

read_row_groups-Safe :
    (num_cols n : ℕ) (b : Bytes)
    → Safe
        (λ (rgs, rest). (length rgs ≡ n) × All (HasColumns num_cols) rgs)
        (read_row_groups num_cols n b)
unfolding read_row_groups
read_row_groups-Safe num_cols zero b = (refl, tt)
read_row_groups-Safe num_cols (suc n) b = Safe-reject_if _ (ltb (length b) 12) _ _ (λ room.
    word-Safe _ b 8 _ (ground arith) (λ file_offset b1 e1.
      word-Safe _ b1 4 _ (ground arith) (λ num_rows b2 e2.
        Safe-bind _ _ (read_columns num_cols b2) _ (read_columns-Safe num_cols b2)
          (λ (cs, b3) count.
            Safe-bind _ _ (read_row_groups num_cols n b3) _ (read_row_groups-Safe num_cols n b3)
              (λ (rgs, b4) (number, all). (ap suc number, (count, all)))))))

-- Metadata in which each row group has as many columns as the schema has fields.
abbrev pub IsRectangular : FileMeta → Type 0
IsRectangular meta = All (HasColumns (length meta.fields)) meta.row_groups

parse_footer-Safe : (body : Bytes) → Safe IsRectangular (parse_footer body)
unfolding parse_footer
parse_footer-Safe body = Safe-reject_if _ (ltb (length body) 4) _ _ (λ four.
    word-Safe _ body 4 _ (ground arith) (λ num_cols b1 e1.
      Safe-bind _ _ (read_fields num_cols b1) _ (read_fields-Safe num_cols b1)
        (λ (fields, b2) count. Safe-reject_if _ (ltb (length b2) 4) _ _ (λ room.
          word-Safe _ b2 4 _ (ground arith) (λ num_rgs b3 e3.
            Safe-bind _ _ (read_row_groups num_cols num_rgs b3) _
              (read_row_groups-Safe num_cols num_rgs b3)
              (λ (rgs, b4) (number, all). rw count all))))))

read_at-Safe : (file : Bytes) (off n : ℕ) → Safe (λ b. length b ≡ n) (read_at file off n)
unfolding read_at
read_at-Safe file off n = elim (Bool-cases (ltb (length file) (off + n))) [
  | inl t ↦ rw t tt
  | inr t ↦ rw t (ground (arith, length-take n (drop off file), length-drop off file))
]

made_length-Safe : (limit n : ℕ) → n < 2 ^ 63 → n < limit → Safe (λ m. m ≡ n) (made_length limit n)
unfolding made_length
made_length-Safe limit n h h' =
    let fits : (leb (2 ^ 63) n || leb limit n) ≡ false = ground arith in rw fits refl

-- readFooter panics on no file, where a slice of a negative length, or of any length at or above a
-- limit above the size of the file, cannot be made for the body; and in metadata that it returns
-- each row group has as many columns as the schema has fields. The slices for the 32-bit counts of
-- the directory are taken to be made.
pub read_footer-Safe :
    (limit : ℕ) (file : Bytes)
    → length file < limit
    → Safe IsRectangular (read_footer_within limit file)
unfolding read_footer_within gt_i64
read_footer-Safe limit file grants =
    let size : ℕ = length file in
    Safe-reject_if _ (ltb size 20) _ _ (λ big.
      Safe-bind _ _ (read_at file (size - 16) 16) _ (read_at-Safe file (size - 16) 16)
        (λ trailer sixteen. Safe-reject_if _ (not (bytes_eq (drop 12 trailer) magic)) _ _ (λ m.
          word-Safe _ trailer 4 _ (omega (arith, sixteen)) (λ crc b1 e1.
            word-Safe _ b1 8 _ (omega (arith, sixteen, e1)) (λ footer_len b2 e2.
              Safe-reject_if _ (leb (2 ^ 63) footer_len || gt_i64 footer_len (size - 16 - 4)) _ _
                (λ room.
                  Safe-bind _ _ (made_length limit footer_len) _
                    (made_length-Safe limit footer_len (ground arith) (ground arith))
                    (λ n same.
                      Safe-bind _ _ (read_at file (size - 16 - footer_len) n) _
                        (read_at-Safe file (size - 16 - footer_len) n)
                        (λ body count.
                          Safe-reject_if _ (not (checksum_ieee body == crc)) _ _
                            (λ good. parse_footer-Safe body)))))))))
