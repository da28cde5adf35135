-- ===== src/Storage/Rle/Encode.antt =====
-- The runs that `encode_rle_bool` finds describe the column's rows.
use vexq.Prelude.{
  ltb, ◌==◌, if◌then◌else◌, ltb→lt, Bool-cases, length, get_or, Bytes, u32, ok, ℕ, zero, suc, ◌+◌,
  ◌-◌, ◌%◌, ◌≤◌, ◌<◌, ◌≡◌, refl, inl, inr, Bool, true, false, List, [], ◌∷◌, arith,
}
use vexq.Storage.Bitmap.Laws.{null_at, Covers, is_null_bit-null_at, index-get_or}
use vexq.Storage.Rle.{Run, cell, run_length, runs_from}

-- The byte that stands for row `i`.
unfoldable pub cell_of : List Bool → Bytes → ℕ → ℕ
cell_of values nulls i = if null_at nulls i then 0xFF else (if get_or values i false then 1 else 0)

pub cell_of-IsByte : (values : List Bool) (nulls : Bytes) (i : ℕ) → cell_of values nulls i < 256
unfolding cell_of
cell_of-IsByte values nulls i = ground arith

-- The runs `rs` give each row from `i` on its byte, and end at row `n`.
abbrev pub Describes : (ℕ → ℕ) → List Run → ℕ → ℕ → Type 0
Describes f [] i n = i ≡ n
Describes f (r ∷ rs) i n =
    (0 < r.len)
    × (r.len < u32)
    × (r.val < 256)
    × ((j : ℕ) → j < r.len → f (i + j) ≡ r.val)
    × Describes f rs (i + r.len) n

module _ (values : List Bool) (nulls : Bytes) (covers : Covers nulls (length values)) where
  cell_lem : (i : ℕ) → i < length values → cell values nulls i ≡ ok (cell_of values nulls i)
  unfolding cell cell_of
  cell_lem i h = rw (is_null_bit-null_at i covers h, index-get_or values i false h) (ground arith)

  -- A run that starts at `i` with `len` rows ends within the `left` rows that follow.
  run_length_lem :
      (left i cur len : ℕ)
      → i + len + left ≡ length values
      → length values < u32
      → 0 < len
      → ((j : ℕ) → j < len → cell_of values nulls (i + j) ≡ cur)
      → (k : ℕ) × (run_length left values nulls i cur len ≡ ok k)
        × (len ≤ k)
        × (i + k ≤ length values)
        × ((j : ℕ) → j < k → cell_of values nulls (i + j) ≡ cur)
  unfolding run_length
  run_length_lem zero i cur len e b p h = (len, refl, omega arith, omega arith, h)
  run_length_lem (suc left) i cur len e b p h =
      rw (cell_lem (i + len) (omega arith))
        (elim (Bool-cases (cell_of values nulls (i + len) == cur)) [
          | inl t ↦
              rw (t, small)
                (let (k, r, le, fits, same) =
                    run_length_lem left i cur (len + 1) (omega arith) b (omega arith) (more t) in
                  (k, r, omega arith, fits, same))
          | inr t ↦ rw t (len, refl, omega arith, omega arith, h)
        ])
    where
      small : (len + 1) % u32 ≡ len + 1
      small = omega arith

      more :
          (cell_of values nulls (i + len) == cur) ≡ true
          → (j : ℕ) → j < len + 1
          → cell_of values nulls (i + j) ≡ cur
      more t j hj = ground (arith, h j)

  pub runs_from-Describes :
      (fuel i : ℕ)
      → length values < u32
      → i ≤ length values
      → length values ≤ i + fuel
      → (rs : List Run) × (runs_from fuel values nulls i ≡ ok rs)
        × Describes (cell_of values nulls) rs i (length values)
        × (length rs + i ≤ length values)
  unfolding runs_from
  runs_from-Describes zero i b h k = ([], refl, omega arith, omega arith)
  runs_from-Describes (suc fuel) i b h k = elim (Bool-cases (ltb i (length values))) [
    | inr e ↦ rw e ([], refl, ground arith, omega arith)
    | inl e ↦
        let here : i < length values = ltb→lt i (length values) e in
        let (len, r, le, fits, same) =
          run_length_lem (length values - (i + 1)) i (cell_of values nulls i) 1 (omega arith) b
            (omega arith) one in
        let (rs, q, d, few) = runs_from-Describes fuel (i + len) b fits (omega arith) in
        rw (e, cell_lem i here, r, q)
          (
            record { len = len; val = cell_of values nulls i } ∷ rs,
            refl,
            (omega arith, omega arith, cell_of-IsByte values nulls i, same, d),
            omega arith,
          )
  ]
    where
      one : (j : ℕ) → j < 1 → cell_of values nulls (i + j) ≡ cell_of values nulls i
      one j hj = ground arith
