-- ===== src/Storage/Bitmap.antt =====
-- storage/codec.go: null bitmaps, 1 = valid and 0 = null, lowest bit first.
pub mod Bits
pub mod Laws
use Bits.{clear_bit, set_bit, bit_is_zero}
use vexq.Prelude.{
  ℕ, zero, suc, ◌+◌, ◌-◌, ◌*◌, ◌/◌, ◌%◌, ◌^◌, List, [], ◌∷◌, Bool, Bytes, Result, ok, panic, ◌>>=◌,
  ◌==◌, if◌then◌else◌, set, replicate, length,
}

-- `bitmap[i]`, which panics out of range.
unfoldable pub index {ℓ} : {A : Type ℓ} → List A → ℕ → Result A
index [] i = panic
index (x ∷ xs) zero = ok x
index (x ∷ xs) (suc i) = index xs i

unfoldable pub set_null_bit : Bytes → ℕ → Result Bytes
unfolding index
set_null_bit bitmap i = do b ← index bitmap (i / 8); ok (set bitmap (i / 8) (clear_bit b (i % 8)))

unfoldable pub set_valid_bit : Bytes → ℕ → Result Bytes
unfolding index
set_valid_bit bitmap i = do b ← index bitmap (i / 8); ok (set bitmap (i / 8) (set_bit b (i % 8)))

unfoldable pub is_null_bit : Bytes → ℕ → Result Bool
unfolding index
is_null_bit bitmap i = do b ← index bitmap (i / 8); ok (bit_is_zero b (i % 8))

-- All rows valid, the bits beyond `rows` zero.
unfoldable pub full_bitmap : ℕ → Bytes
full_bitmap rows =
    let size = (rows + 7) / 8 in
    let b = replicate size 0xFF in
    if rows % 8 == 0 then b else set b (size - 1) (2 ^ (rows % 8) - 1)
