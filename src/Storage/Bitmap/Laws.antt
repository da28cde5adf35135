-- ===== src/Storage/Bitmap/Laws.antt =====
-- The null bitmap as a map from rows to flags.
use vexq.Prelude.{
  ◌-◌, ◌+◌, inr, length-replicate, inl, Bool-cases, not, ltb, ℕ, zero, suc, ◌*◌, ◌/◌, ◌%◌, ◌<◌, ◌≤◌,
  ◌≡◌, refl, ◌∙◌, List, [], ◌∷◌, Bool, true, false, ◌&&◌, ◌==◌, arith, Bytes, IsByte, All, Result,
  ok, if◌then◌else◌, set, get_or, replicate, length, length-set,
}
use vexq.Storage.Bitmap.Bits.{
  low_ones-IsByte, bit_is_zero-low_ones, clear_bit, set_bit, bit_is_zero, bit_is_zero-clear_bit,
  bit_is_zero-set_bit, set_bit-IsByte, clear_bit-IsByte,
}
use vexq.Storage.Bitmap.{full_bitmap, index, set_null_bit, set_valid_bit, is_null_bit}

-- The flag of row `i`, where the bitmap has one.
unfoldable pub null_at : Bytes → ℕ → Bool
null_at bm i = bit_is_zero (get_or bm (i / 8) 0) (i % 8)

-- A bitmap of bytes with a bit for each of the first `rows` rows.
pub record Covers (bm : Bytes) (rows : ℕ) : Type 0 where
  pub bytes : All IsByte bm
  pub enough : rows ≤ 8 * length bm

pub index-get_or {ℓ} :
    {A : Type ℓ} (xs : List A) (i : ℕ) (d : A) → i < length xs → index xs i ≡ ok (get_or xs i d)
unfolding index
index-get_or [] i d h = absurd (omega arith)
index-get_or (x ∷ xs) zero d h = refl
index-get_or (x ∷ xs) (suc i) d h = index-get_or xs i d (omega arith)

pub get_or-set {ℓ} :
    {A : Type ℓ} (xs : List A) (i j : ℕ) (v d : A)
    → i < length xs
    → get_or (set xs i v) j d ≡ (if i == j then v else get_or xs j d)
get_or-set [] i j v d h = absurd (omega arith)
get_or-set (x ∷ xs) zero zero v d h = refl
get_or-set (x ∷ xs) zero (suc j) v d h = ground arith
get_or-set (x ∷ xs) (suc i) zero v d h = ground arith
get_or-set (x ∷ xs) (suc i) (suc j) v d h = get_or-set xs i j v d (omega arith) ∙ ground arith

pub All-get_or : (xs : Bytes) (i : ℕ) → All IsByte xs → get_or xs i 0 < 256
All-get_or [] i h = omega arith
All-get_or (x ∷ xs) zero h = h.0
All-get_or (x ∷ xs) (suc i) h = All-get_or xs i h.1

pub All-set : (xs : Bytes) (i v : ℕ) → All IsByte xs → v < 256 → All IsByte (set xs i v)
All-set [] i v h k = tt
All-set (x ∷ xs) zero v h k = (k, h.1)
All-set (x ∷ xs) (suc i) v h k = (h.0, All-set xs i v h.1 k)

-- Reading a row's flag does not panic within the bitmap.
pub is_null_bit-null_at :
    {bm : Bytes} {rows : ℕ} (i : ℕ)
    → Covers bm rows
    → i < rows
    → is_null_bit bm i ≡ ok (null_at bm i)
unfolding is_null_bit null_at
is_null_bit-null_at {bm} i c h = rw (index-get_or bm (i / 8) 0 (omega arith))

-- The same byte and the same bit are the same row.
same_row : (i j : ℕ) → (i == j) ≡ ((i / 8 == j / 8) && (i % 8 == j % 8))
same_row i j = ground arith

null_at-clear :
    {bm : Bytes} {rows : ℕ} (i j : ℕ)
    → Covers bm rows
    → i < rows
    → null_at (set bm (i / 8) (clear_bit (get_or bm (i / 8) 0) (i % 8))) j
      ≡ (if i == j then true else null_at bm j)
unfolding null_at
null_at-clear {bm} i j c h =
    rw (get_or-set bm (i / 8) (j / 8) _ 0 (omega arith), same_row i j)
      (ground (
        arith,
        bit_is_zero-clear_bit (get_or bm (i / 8) 0) (i % 8) (j % 8) (All-get_or bm (i / 8) c.bytes)
            (omega arith) (omega arith),
      ))

null_at-set :
    {bm : Bytes} {rows : ℕ} (i j : ℕ)
    → Covers bm rows
    → i < rows
    → null_at (set bm (i / 8) (set_bit (get_or bm (i / 8) 0) (i % 8))) j
      ≡ (if i == j then false else null_at bm j)
unfolding null_at
null_at-set {bm} i j c h =
    rw (get_or-set bm (i / 8) (j / 8) _ 0 (omega arith), same_row i j)
      (ground (
        arith,
        bit_is_zero-set_bit (get_or bm (i / 8) 0) (i % 8) (j % 8) (All-get_or bm (i / 8) c.bytes)
            (omega arith) (omega arith),
      ))

-- What a write of row `i`'s flag yields: the flag of `i` is `flag`, all others are as before.
abbrev pub Writes : Bytes → ℕ → ℕ → Bool → Result Bytes → Type 0
Writes bm rows i flag r =
    (bm' : Bytes) × (r ≡ ok bm')
    × Covers bm' rows
    × (length bm' ≡ length bm)
    × ((j : ℕ) → null_at bm' j ≡ (if i == j then flag else null_at bm j))

-- SetNullBit of a row that a bitmap of bytes covers does not panic, makes exactly that row null
-- and leaves every other row's flag and the size as they were.
pub set_null_bit-Writes :
    {bm : Bytes} {rows : ℕ} (i : ℕ)
    → Covers bm rows
    → i < rows
    → Writes bm rows i true (set_null_bit bm i)
unfolding set_null_bit
set_null_bit-Writes {bm} i c h = (
  set bm (i / 8) (clear_bit (get_or bm (i / 8) 0) (i % 8)),
  rw (index-get_or bm (i / 8) 0 (omega arith)),
  record {
    bytes = All-set bm _ _ c.bytes (clear_bit-IsByte _ _ (All-get_or bm _ c.bytes) (omega arith));
    enough = rw length-set c.enough;
  },
  length-set bm _ _,
  λ j. null_at-clear i j c h,
)

-- SetValidBit of a row that a bitmap of bytes covers does not panic, makes exactly that row valid
-- and leaves every other row's flag and the size as they were.
pub set_valid_bit-Writes :
    {bm : Bytes} {rows : ℕ} (i : ℕ)
    → Covers bm rows
    → i < rows
    → Writes bm rows i false (set_valid_bit bm i)
unfolding set_valid_bit
set_valid_bit-Writes {bm} i c h = (
  set bm (i / 8) (set_bit (get_or bm (i / 8) 0) (i % 8)),
  rw (index-get_or bm (i / 8) 0 (omega arith)),
  record {
    bytes = All-set bm _ _ c.bytes (set_bit-IsByte _ _ (All-get_or bm _ c.bytes) (omega arith));
    enough = rw length-set c.enough;
  },
  length-set bm _ _,
  λ j. null_at-set i j c h,
)

All-replicate : (n : ℕ) → All IsByte (replicate n 0xFF)
All-replicate zero = tt
All-replicate (suc n) = (omega arith, All-replicate n)

get_or-replicate : (n i v : ℕ) → get_or (replicate n v) i 0 ≡ (if ltb i n then v else 0)
get_or-replicate zero i v = ground arith
get_or-replicate (suc n) zero v = ground arith
get_or-replicate (suc n) (suc i) v = get_or-replicate n i v ∙ ground arith

bit_is_zero-full : (k : ℕ) → k < 8 → bit_is_zero 0xFF k ≡ false
bit_is_zero-full k h = bit_is_zero-low_ones 8 k (omega arith) h ∙ ground arith

bit_is_zero-zero : (k : ℕ) → k < 8 → bit_is_zero 0 k ≡ true
bit_is_zero-zero k h = bit_is_zero-low_ones 0 k (omega arith) h ∙ ground arith

pub full_bitmap-Covers : (rows : ℕ) → Covers (full_bitmap rows) rows
unfolding full_bitmap
full_bitmap-Covers rows = elim (Bool-cases (rows % 8 == 0)) [
  | inl e ↦ rw e (record { bytes = All-replicate _; enough = rw length-replicate (ground arith) })
  | inr e ↦ rw e (record {
    bytes = All-set _ _ _ (All-replicate _) (low_ones-IsByte (rows % 8) (omega arith));
    enough = rw (length-set, length-replicate) (ground arith);
  })
]

-- Of FullBitmap(rows) exactly the rows below `rows` are valid; the bits behind them are null.
pub null_at-full_bitmap : (rows i : ℕ) → null_at (full_bitmap rows) i ≡ not (ltb i rows)
unfolding full_bitmap null_at
null_at-full_bitmap rows i = elim (Bool-cases (rows % 8 == 0)) [
  | inl e ↦
      rw (e, get_or-replicate)
        (ground
          (arith, bit_is_zero-full (i % 8) (omega arith), bit_is_zero-zero (i % 8) (omega arith)))
  | inr e ↦ rw e (
      rw
        (
          get_or-set {A = ℕ} (replicate ((rows + 7) / 8) 0xFF) ((rows + 7) / 8 - 1) (i / 8) _ 0
              (rw length-replicate (ground arith)),
          get_or-replicate,
        )
        (ground (
          arith,
          bit_is_zero-full (i % 8) (omega arith),
          bit_is_zero-zero (i % 8) (omega arith),
          bit_is_zero-low_ones (rows % 8) (i % 8) (omega arith) (omega arith),
        )))
]

pub All-zeros : (n : ℕ) → All IsByte (replicate n 0)
All-zeros zero = tt
All-zeros (suc n) = (omega arith, All-zeros n)

-- Of a bitmap of zeros every row is null.
pub null_at-zeros : (n i : ℕ) → null_at (replicate n 0) i ≡ true
unfolding null_at
null_at-zeros n i = rw get_or-replicate (ground (arith, bit_is_zero-zero (i % 8) (omega arith)))
