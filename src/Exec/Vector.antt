-- ===== src/Exec/Vector.antt =====
-- exec/batch.go (`BoolVector`) and exec/scratch.go (the buffers of the expressions): BOOL columns.
use vexq.Storage.Bitmap.{full_bitmap, set_null_bit, is_null_bit, set_valid_bit}
use vexq.Storage.Bitmap.Laws.{
  null_at-zeros, set_null_bit-Writes, set_valid_bit-Writes, Writes, All-zeros, Covers, null_at,
}
use vexq.Prelude.{
  ◌>>=◌, ltb, leb, ◌==◌, if◌then◌else◌, Bool-cases, length, set, length-set, take, drop, replicate,
  length-replicate, append_cancel, All, take_full, Bytes, IsByte, Result, ok, ℕ, zero, suc, ◌+◌,
  ◌-◌, ◌/◌, ◌%◌, ◌^◌, ◌<◌, ◌≡◌, refl, sym, ap, ◌∙◌, inl, inr, Bool, true, false, not, ◌&&◌, Option,
  none, some, [], ◌∷◌, ◌++◌, append-nil, arith,
}

pub record BoolVector : Type 0 where
  pub bits : Bytes
  pub null_bitmap : Bytes
  pub rows : ℕ

-- `v.Bits[i/8]>>(i%8)&1 == 1`.
unfoldable pub get_value : BoolVector → ℕ → Result Bool
get_value v i = do zero_bit ← is_null_bit v.bits i; ok (not zero_bit)

unfoldable pub set_flag : Bytes → ℕ → Bool → Result Bytes
set_flag bits i true = set_valid_bit bits i
set_flag bits i false = set_null_bit bits i

unfoldable pub set_value : BoolVector → ℕ → Bool → Result BoolVector
unfolding set_flag
set_value v i val = do bits ← set_flag v.bits i val; ok (record v { bits = bits })

-- A reused buffer is cleared, so the vector is as a fresh one: no bit and no row is set.
unfoldable pub acquire_bool_vector : ℕ → BoolVector
acquire_bool_vector n = record {
  bits = replicate ((n + 7) / 8) 0;
  null_bitmap = replicate ((n + 7) / 8) 0;
  rows = n;
}

fill_ff : ℕ → Bytes → Bytes
fill_ff zero bmp = bmp
fill_ff (suc k) [] = []
fill_ff (suc k) (b ∷ bmp) = 0xFF ∷ fill_ff k bmp

unfoldable pub set_all_valid : Bytes → ℕ → Bytes
unfolding fill_ff
set_all_valid bmp n =
    let size = (n + 7) / 8 in
    let filled = fill_ff size bmp in
    if not (n % 8 == 0) && ltb 0 size && leb size (length bmp)
    then set filled (size - 1) (2 ^ (n % 8) - 1)
    else filled

-- Go's `copy`.
unfoldable pub copy_bytes : Bytes → Bytes → Bytes
copy_bytes dst src = take (length dst) src ++ drop (length src) dst

-- What a row of a BOOL column says: `none` is NULL.
unfoldable pub truth : BoolVector → ℕ → Option Bool
truth v i = if null_at v.null_bitmap i then none else some (not (null_at v.bits i))

-- A vector of `n` rows, its bitmaps of the size for `n` rows.
pub record HasRows (n : ℕ) (v : BoolVector) : Type 0 where
  pub count : v.rows ≡ n
  pub bit_bytes : All IsByte v.bits
  pub bit_size : length v.bits ≡ (n + 7) / 8
  pub null_bytes : All IsByte v.null_bitmap
  pub null_size : length v.null_bitmap ≡ (n + 7) / 8

pub HasRows-bits : (n : ℕ) (v : BoolVector) → HasRows n v → Covers v.bits n
HasRows-bits n v h = record { bytes = h.bit_bytes; enough = omega (arith, h.bit_size) }

pub HasRows-nulls : (n : ℕ) (v : BoolVector) → HasRows n v → Covers v.null_bitmap n
HasRows-nulls n v h = record { bytes = h.null_bytes; enough = omega (arith, h.null_size) }

pub acquire_bool_vector-HasRows : (n : ℕ) → HasRows n (acquire_bool_vector n)
unfolding acquire_bool_vector
acquire_bool_vector-HasRows n = record {
  count = refl;
  bit_bytes = All-zeros ((n + 7) / 8);
  bit_size = length-replicate ((n + 7) / 8) 0;
  null_bytes = All-zeros ((n + 7) / 8);
  null_size = length-replicate ((n + 7) / 8) 0;
}

fill_ff-zeros : (k : ℕ) → fill_ff k (replicate k 0) ≡ replicate k 0xFF
unfolding fill_ff
fill_ff-zeros zero = refl
fill_ff-zeros (suc k) = ap (◌∷◌ 0xFF) (fill_ff-zeros k)

-- A cleared buffer becomes the bitmap of `FullBitmap`.
pub set_all_valid-zeros : (n : ℕ) → set_all_valid (replicate ((n + 7) / 8) 0) n ≡ full_bitmap n
unfolding set_all_valid full_bitmap
set_all_valid-zeros n =
    rw (fill_ff-zeros ((n + 7) / 8), length-replicate {A = ℕ} ((n + 7) / 8) 0) (ground arith)

pub length-full_bitmap : (n : ℕ) → length (full_bitmap n) ≡ (n + 7) / 8
unfolding full_bitmap
length-full_bitmap n = elim (Bool-cases (n % 8 == 0)) [
  | inl e ↦ rw e (length-replicate ((n + 7) / 8) 0xFF)
  | inr e ↦
      rw e (length-set (replicate ((n + 7) / 8) 0xFF) _ _ ∙ length-replicate ((n + 7) / 8) 0xFF)
]

-- A source of the same size replaces the buffer.
pub copy_bytes-same : (dst src : Bytes) → length src ≡ length dst → copy_bytes dst src ≡ src
unfolding copy_bytes
copy_bytes-same dst src h =
    let whole : take (length dst) src ≡ src = take_full (length dst) src (omega (arith, h)) in
    let nothing : drop (length src) dst ≡ [] =
      ap (λ k. drop k dst) h
      ∙ ap (drop (length dst)) (sym (append-nil dst))
      ∙ append_cancel dst [] in
    rw (whole, nothing) (append-nil src)

-- A write of row `i`'s flag within the rows.
pub set_flag-Writes :
    (bits : Bytes) (n i : ℕ) (val : Bool)
    → Covers bits n
    → i < n
    → Writes bits n i (not val) (set_flag bits i val)
unfolding set_flag
set_flag-Writes bits n i true c h = set_valid_bit-Writes i c h
set_flag-Writes bits n i false c h = set_null_bit-Writes i c h

-- What an expression node yields: a vector of `n` rows that say what `f` says.
abbrev pub Yields : ℕ → Result BoolVector → (ℕ → Option Bool) → Type 0
Yields n r f =
    (out : BoolVector) × (r ≡ ok out) × HasRows n out × ((j : ℕ) → j < n → truth out j ≡ f j)

-- A fresh vector is NULL throughout.
pub truth-fresh : (n j : ℕ) → truth (acquire_bool_vector n) j ≡ none
unfolding truth acquire_bool_vector
truth-fresh n j = rw (null_at-zeros ((n + 7) / 8) j) refl
