-- ===== src/Exec/Predicates/NullTests.antt =====
-- IS NULL and IS NOT NULL, row by row.
use vexq.Storage.Bitmap.{full_bitmap}
use vexq.Storage.Bitmap.Laws.{null_at-zeros, All-zeros, is_null_bit-null_at, null_at, Covers}
use vexq.Prelude.{
  ltb, ◌==◌, if◌then◌else◌, ==_iff, Bool-cases, length, replicate, length-replicate, All, Bytes,
  IsByte, ok, ℕ, zero, suc, ◌+◌, ◌/◌, ◌<◌, ◌≡◌, refl, ap, ◌∙◌, inl, inr, Bool, true, not, some,
  arith,
}
use vexq.Exec.Logic.Trees.{full-HasRows, truth-full}
use vexq.Exec.Vector.{
  acquire_bool_vector, truth, HasRows, HasRows-bits, set_flag-Writes, set_value, Yields,
  set_all_valid-zeros,
}
use vexq.Exec.Predicates.{BoolVector, null_rows, eval_is_null}

module _ (negate : Bool) (nulls : Bytes) (n : ℕ) (c : Covers nulls n) where
  -- The bit of row `j`.
  abbrev flag : ℕ → Bool
  flag j = if negate then not (null_at nulls j) else null_at nulls j

  null_rows_lem :
      (left i : ℕ) (out : BoolVector)
      → i + left ≡ n
      → HasRows n out
      → ((j : ℕ) → j < n → null_at out.bits j ≡ (if ltb j i then not (flag j) else true))
      → (bits : Bytes) × (null_rows negate nulls left i out ≡ ok (record out { bits = bits }))
        × All IsByte bits
        × (length bits ≡ (n + 7) / 8)
        × ((j : ℕ) → j < n → null_at bits j ≡ not (flag j))
  unfolding null_rows set_value
  null_rows_lem zero i out e h at =
      (out.bits, refl, h.bit_bytes, h.bit_size, λ j hj. at j hj ∙ ground arith)
  null_rows_lem (suc left) i out e h at =
      let (bits1, r1, c1, s1, at1) =
        set_flag-Writes out.bits n i (flag i) (HasRows-bits n out h) (omega arith) in
      let (bits, r, b, s, at') =
        null_rows_lem left (i + 1) (record out { bits = bits1 }) (omega arith)
          (record {
            count = h.count;
            bit_bytes = c1.bytes;
            bit_size = s1 ∙ h.bit_size;
            null_bytes = h.null_bytes;
            null_size = h.null_size;
          })
          (λ j hj. at1 j ∙ next_row j (at j hj)) in
      (bits, rw (is_null_bit-null_at i c (omega arith), r1) r, b, s, at')
    where
      next_row :
          (j : ℕ)
          → null_at out.bits j ≡ (if ltb j i then not (flag j) else true)
          → (if i == j then not (flag i) else null_at out.bits j)
            ≡ (if ltb j (i + 1) then not (flag j) else true)
      next_row j old = elim (Bool-cases (i == j)) [
        | inl t ↦ ground (arith, ap (null_at nulls) ((==_iff i j).0 t))
        | inr t ↦ ground arith
      ]

  -- IS NULL and IS NOT NULL succeed for a bitmap that covers the rows, and no row of theirs is
  -- NULL: each says whether the row of the operand is.
  pub eval_is_null-truth : Yields n (eval_is_null negate nulls n) (λ j. some (flag j))
  unfolding eval_is_null acquire_bool_vector
  eval_is_null-truth =
      let zeros : Bytes = replicate ((n + 7) / 8) 0 in
      let (bits, r, b, s, at) =
        null_rows_lem n 0 (record { bits = zeros; null_bitmap = full_bitmap n; rows = n })
          (omega arith)
          (full-HasRows n zeros (All-zeros ((n + 7) / 8)) (length-replicate ((n + 7) / 8) 0))
          (λ j hj. null_at-zeros ((n + 7) / 8) j ∙ ground arith) in
      (
        record { bits = bits; null_bitmap = full_bitmap n; rows = n },
        rw (set_all_valid-zeros n) r,
        full-HasRows n bits b s,
        λ j hj. unfold truth in rw (truth-full n j hj, at j hj) (ground arith),
      )
