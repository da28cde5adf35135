-- ===== src/Storage/Bitmap/Bits.antt =====
-- The bit operations of storage/codec.go on one byte, by a table of all bytes and positions.
use Prim.Native.Nat.{bit_and, bit_or, bit_xor}
use vexq.Prelude.Digits.{digit, digit-lt, digit-bit_and, digit-bit_or, bit_and-lt, bit_or-lt}
use vexq.Prelude.{
  ℕ, zero, suc, ◌-◌, ◌/◌, ◌^◌, ◌<◌, ◌≡◌, refl, Bool, true, false, not, ◌&&◌, ◌||◌, ◌==◌, arith, ltb,
  ltb→lt, Bool-cases, ==_iff, inl, inr,
}

-- `b &^ (1 << j)`, `b | (1 << j)` and `b >> j & 1 == 0` on one byte.
unfoldable pub clear_bit : ℕ → ℕ → ℕ
clear_bit b j = bit_and b (bit_xor 0xFF (2 ^ j))

unfoldable pub set_bit : ℕ → ℕ → ℕ
set_bit b j = bit_or b (2 ^ j)

unfoldable pub bit_is_zero : ℕ → ℕ → Bool
bit_is_zero b j = bit_and (b / 2 ^ j) 1 == 0

same : Bool → Bool → Bool
same true b = b
same false b = not b

same→eq : (a b : Bool) → same a b ≡ true → a ≡ b
unfolding same
same→eq a b h = ground arith

-- Whether a test holds of every number below a bound.
module _ (test : ℕ → Bool) where
  holds_below : ℕ → Bool
  holds_below zero = true
  holds_below (suc bound) = holds_below bound && test bound

  holds_below_at : (bound i : ℕ) → i < bound → holds_below bound ≡ true → test i ≡ true
  unfolding holds_below
  holds_below_at zero i small all = absurd (omega arith)
  holds_below_at (suc bound) i small all = elim (Bool-cases (i == bound)) [
    | inl e ↦ ground (arith, ==_iff i bound)
    | inr e ↦ ground (arith, holds_below_at bound i)
  ]

-- Every byte, every position written and every position read.
module _ (p : ℕ → ℕ → ℕ → Bool) where
  all_bits : Bool
  all_bits = holds_below (λ b. holds_below (λ j. holds_below (p b j) 8) 8) 256

  all_bits_sound : all_bits ≡ true → (b j k : ℕ) → b < 256 → j < 8 → k < 8 → p b j k ≡ true
  unfolding all_bits
  all_bits_sound h b j k hb hj hk =
      holds_below_at (p b j) 8 k hk (holds_below_at _ 8 j hj (holds_below_at _ 256 b hb h))

pub bit_is_zero-clear_bit :
    (b j k : ℕ)
    → b < 256
    → j < 8
    → k < 8
    → bit_is_zero (clear_bit b j) k ≡ ((j == k) || bit_is_zero b k)
unfolding all_bits holds_below same bit_is_zero clear_bit
bit_is_zero-clear_bit b j k hb hj hk = same→eq _ _ (
    all_bits_sound (λ b j k. same (bit_is_zero (clear_bit b j) k) ((j == k) || bit_is_zero b k))
      refl b j k hb hj hk)

pub bit_is_zero-set_bit :
    (b j k : ℕ)
    → b < 256
    → j < 8
    → k < 8
    → bit_is_zero (set_bit b j) k ≡ (not (j == k) && bit_is_zero b k)
unfolding all_bits holds_below same bit_is_zero set_bit
bit_is_zero-set_bit b j k hb hj hk = same→eq _ _ (
    all_bits_sound (λ b j k. same (bit_is_zero (set_bit b j) k) (not (j == k) && bit_is_zero b k))
      refl b j k hb hj hk)

pub set_bit-IsByte : (b j : ℕ) → b < 256 → j < 8 → set_bit b j < 256
unfolding all_bits holds_below set_bit
set_bit-IsByte b j hb hj =
    ltb→lt _ _ (all_bits_sound (λ b j k. ltb (set_bit b j) 256) refl b j 0 hb hj (omega arith))

pub clear_bit-IsByte : (b j : ℕ) → b < 256 → j < 8 → clear_bit b j < 256
unfolding all_bits holds_below clear_bit
clear_bit-IsByte b j hb hj =
    ltb→lt _ _ (all_bits_sound (λ b j k. ltb (clear_bit b j) 256) refl b j 0 hb hj (omega arith))

-- The byte with the lowest `r` bits set.
pub bit_is_zero-low_ones : (r k : ℕ) → r < 9 → k < 8 → bit_is_zero (2 ^ r - 1) k ≡ not (ltb k r)
unfolding holds_below same bit_is_zero
bit_is_zero-low_ones r k hr hk = same→eq _ _ (
    holds_below_at (λ k. same (bit_is_zero (2 ^ r - 1) k) (not (ltb k r))) 8 k hk
      (holds_below_at (λ r. holds_below (λ k. same (bit_is_zero (2 ^ r - 1) k) (not (ltb k r))) 8) 9
        r hr refl))

pub low_ones-IsByte : (r : ℕ) → r < 9 → 2 ^ r - 1 < 256
unfolding holds_below
low_ones-IsByte r h = ltb→lt _ _ (holds_below_at (λ r. ltb (2 ^ r - 1) 256) 9 r h refl)

pub bit_is_zero-digit : (b k : ℕ) → b < 256 → k < 8 → bit_is_zero b k ≡ (digit b k == 0)
unfolding all_bits holds_below same bit_is_zero digit
bit_is_zero-digit b k hb hk = same→eq _ _ (
    all_bits_sound (λ b j k. same (bit_is_zero b k) (digit b k == 0)) refl b 0 k hb (omega arith)
      hk)

pub bit_is_zero-bit_and :
    (a b k : ℕ)
    → a < 256
    → b < 256
    → k < 8
    → bit_is_zero (bit_and a b) k ≡ (bit_is_zero a k || bit_is_zero b k)
bit_is_zero-bit_and a b k ha hb hk =
    rw
      (
        bit_is_zero-digit a k ha hk,
        bit_is_zero-digit b k hb hk,
        bit_is_zero-digit (bit_and a b) k (bit_and-lt 8 a b ha hb) hk,
        digit-bit_and a b k,
      )
      (ground (arith, digit-lt a k, digit-lt b k))

pub bit_is_zero-bit_or :
    (a b k : ℕ)
    → a < 256
    → b < 256
    → k < 8
    → bit_is_zero (bit_or a b) k ≡ (bit_is_zero a k && bit_is_zero b k)
bit_is_zero-bit_or a b k ha hb hk =
    rw
      (
        bit_is_zero-digit a k ha hk,
        bit_is_zero-digit b k hb hk,
        bit_is_zero-digit (bit_or a b) k (bit_or-lt 8 a b ha hb) hk,
        digit-bit_or a b k,
      )
      (ground (arith, digit-lt a k, digit-lt b k))

-- `^b` on one byte.
abbrev pub bit_not : ℕ → ℕ
bit_not b = 255 - b

pub bit_is_zero-bit_not :
    (b k : ℕ) → b < 256 → k < 8 → bit_is_zero (bit_not b) k ≡ not (bit_is_zero b k)
unfolding all_bits holds_below same bit_is_zero
bit_is_zero-bit_not b k hb hk = same→eq _ _ (
    all_bits_sound (λ b j k. same (bit_is_zero (bit_not b) k) (not (bit_is_zero b k))) refl b 0 k hb
      (omega arith) hk)
