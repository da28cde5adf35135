-- ===== src/Prelude/Digits.antt =====
-- The binary digits of `bit_and`, `bit_or` and `bit_xor`, from the digit recursion that they stand for.
use Prim.Native.Nat.{
  ℕ, zero, suc, ◌/◌, ◌%◌, ◌^◌, ◌≤◌, ◌<◌, min, max, bit_and, bit_or, bit_xor, digits, differ,
  bit_and-bitwise, bit_or-bitwise, bit_xor-bitwise,
}
use mathlib.Core.Path.{◌≡◌, refl, ap, subst, sym, ◌∙◌}
use native.Mathlib.Nat.{pow-suc}
use native.Mathlib.Omega.{arith}

-- The digit of `a` at place `k`.
unfoldable pub digit : ℕ → ℕ → ℕ
digit a zero = a % 2
digit a (suc k) = digit (a / 2) k

pub digit-lt : (a k : ℕ) → digit a k < 2
unfolding digit
digit-lt a zero = omega arith
digit-lt a (suc k) = digit-lt (a / 2) k

-- Zero has no digit but zero.
pub digit-zero : (k : ℕ) → digit 0 k ≡ 0
unfolding digit
digit-zero zero = refl
digit-zero (suc k) = digit-zero k

-- An operation of digits that answers with a digit, and the rest of the second number where the first
-- has run out.
record Digitwise (rest : ℕ → ℕ) (op : ℕ → ℕ → ℕ) : Type 0 where
  rest_digit : (b k : ℕ) → digit (rest b) k ≡ op 0 (digit b k)
  rest_lt : (b top : ℕ) → 0 < top → b < top → rest b < top
  op_lt : (x y : ℕ) → x < 2 → y < 2 → op x y < 2

module _ (rest : ℕ → ℕ) (op : ℕ → ℕ → ℕ) (w : Digitwise rest op) where
  -- With any count of digits to go, nothing is left of zero.
  digits-zero : (count b : ℕ) → digits rest op count zero b ≡ rest b
  digits-zero zero b = refl
  digits-zero (suc count) b = refl

  digit-digits :
      (count k a b : ℕ)
      → a ≤ count
      → digit (digits rest op count a b) k ≡ op (digit a k) (digit b k)
  unfolding digit
  digit-digits count k zero b h =
      ap (λ t. digit t k) (digits-zero count b)
      ∙ w.rest_digit b k
      ∙ ap (λ t. op t (digit b k)) (sym (digit-zero k))
  digit-digits zero k (suc a) b h = absurd (omega arith)
  digit-digits (suc count) zero (suc a) b h =
      omega (arith, w.op_lt (suc a % 2) (b % 2) (omega arith) (omega arith))
  digit-digits (suc count) (suc k) (suc a) b h =
      ap (λ t. digit t k) (omega (arith, w.op_lt (suc a % 2) (b % 2) (omega arith) (omega arith)))
      ∙ digit-digits count k (suc a / 2) (b / 2) (omega arith)

  digits-lt :
      (count k a b : ℕ) → a ≤ count → a < 2 ^ k → b < 2 ^ k → digits rest op count a b < 2 ^ k
  digits-lt count k zero b h p q =
      subst (λ t. t < 2 ^ k) (sym (digits-zero count b)) (w.rest_lt b (2 ^ k) p q)
  digits-lt zero k (suc a) b h p q = absurd (omega arith)
  digits-lt (suc count) zero (suc a) b h p q = absurd (omega arith)
  digits-lt (suc count) (suc k) (suc a) b h p q =
      let shorter : digits rest op count (suc a / 2) (b / 2) < 2 ^ k =
        digits-lt count k (suc a / 2) (b / 2) (omega arith) (omega (arith, pow-suc 2 k))
          (omega (arith, pow-suc 2 k)) in
      omega (arith, shorter, pow-suc 2 k, w.op_lt (suc a % 2) (b % 2) (omega arith) (omega arith))

and-Digitwise : Digitwise (λ b. 0) min
and-Digitwise = record {
  rest_digit = λ b k. digit-zero k ∙ omega arith;
  rest_lt = λ b top p q. p;
  op_lt = λ x y p q. omega arith;
}

or-Digitwise : Digitwise (λ b. b) max
or-Digitwise = record {
  rest_digit = λ b k. omega arith;
  rest_lt = λ b top p q. q;
  op_lt = λ x y p q. omega arith;
}

pub digit-bit_and : (a b k : ℕ) → digit (bit_and a b) k ≡ min (digit a k) (digit b k)
digit-bit_and a b k =
    ap (λ t. digit t k) (bit_and-bitwise a b)
    ∙ digit-digits (λ b. 0) min and-Digitwise a k a b (omega arith)

pub digit-bit_or : (a b k : ℕ) → digit (bit_or a b) k ≡ max (digit a k) (digit b k)
digit-bit_or a b k =
    ap (λ t. digit t k) (bit_or-bitwise a b)
    ∙ digit-digits (λ b. b) max or-Digitwise a k a b (omega arith)

pub bit_and-lt : (k a b : ℕ) → a < 2 ^ k → b < 2 ^ k → bit_and a b < 2 ^ k
bit_and-lt k a b p q =
    subst (λ t. t < 2 ^ k) (sym (bit_and-bitwise a b))
      (digits-lt (λ b. 0) min and-Digitwise a k a b (omega arith) p q)

pub bit_or-lt : (k a b : ℕ) → a < 2 ^ k → b < 2 ^ k → bit_or a b < 2 ^ k
bit_or-lt k a b p q =
    subst (λ t. t < 2 ^ k) (sym (bit_or-bitwise a b))
      (digits-lt (λ b. b) max or-Digitwise a k a b (omega arith) p q)

differ-lt : (x y : ℕ) → x < 2 → y < 2 → differ x y < 2
differ-lt zero y p q = q
differ-lt (suc x) zero p q = p
differ-lt (suc zero) (suc y) p q = omega arith
differ-lt (suc (suc x)) (suc y) p q = absurd (omega arith)

xor-Digitwise : Digitwise (λ b. b) differ
xor-Digitwise = record { rest_digit = λ b k. refl; rest_lt = λ b top p q. q; op_lt = differ-lt }

pub digit-bit_xor : (a b k : ℕ) → digit (bit_xor a b) k ≡ differ (digit a k) (digit b k)
digit-bit_xor a b k =
    ap (λ t. digit t k) (bit_xor-bitwise a b)
    ∙ digit-digits (λ b. b) differ xor-Digitwise a k a b (omega arith)

pub bit_xor-lt : (k a b : ℕ) → a < 2 ^ k → b < 2 ^ k → bit_xor a b < 2 ^ k
bit_xor-lt k a b p q =
    subst (λ t. t < 2 ^ k) (sym (bit_xor-bitwise a b))
      (digits-lt (λ b. b) differ xor-Digitwise a k a b (omega arith) p q)

-- Numbers with the same digits are equal.
pub digit_ext : (k a b : ℕ) → a < 2 ^ k → b < 2 ^ k → ((j : ℕ) → digit a j ≡ digit b j) → a ≡ b
unfolding digit
digit_ext zero a b p q h = omega arith
digit_ext (suc k) a b p q h =
    let higher : a / 2 ≡ b / 2 =
      digit_ext k (a / 2) (b / 2) (omega (arith, pow-suc 2 k)) (omega (arith, pow-suc 2 k))
        (λ j. h (suc j)) in
    omega (arith, higher, h zero)

pub digit-high : (k a : ℕ) → a < 2 ^ k → digit a k ≡ 0
unfolding digit
digit-high zero a h = omega arith
digit-high (suc k) a h = digit-high k (a / 2) (omega (arith, pow-suc 2 k))

differ_cancel : (x y z : ℕ) → x < 2 → y < 2 → z < 2 → differ x z ≡ differ y z → x ≡ y
differ_cancel zero zero z p q r h = refl
differ_cancel zero (suc zero) zero p q r h = h
differ_cancel zero (suc zero) (suc zero) p q r h = sym h
differ_cancel (suc zero) zero zero p q r h = h
differ_cancel (suc zero) zero (suc zero) p q r h = sym h
differ_cancel (suc zero) (suc zero) z p q r h = refl
differ_cancel (suc (suc x)) y z p q r h = absurd (omega arith)
differ_cancel x (suc (suc y)) z p q r h = absurd (omega arith)
differ_cancel x y (suc (suc z)) p q r h = absurd (omega arith)

differ_comm : (x y : ℕ) → x < 2 → y < 2 → differ x y ≡ differ y x
differ_comm zero zero p q = refl
differ_comm zero (suc y) p q = refl
differ_comm (suc x) zero p q = refl
differ_comm (suc zero) (suc zero) p q = refl
differ_comm (suc (suc x)) y p q = absurd (omega arith)
differ_comm x (suc (suc y)) p q = absurd (omega arith)

pub bit_xor_comm : (k a b : ℕ) → a < 2 ^ k → b < 2 ^ k → bit_xor a b ≡ bit_xor b a
bit_xor_comm k a b p q =
    digit_ext k (bit_xor a b) (bit_xor b a) (bit_xor-lt k a b p q) (bit_xor-lt k b a q p) λ j.
      digit-bit_xor a b j
      ∙ differ_comm (digit a j) (digit b j) (digit-lt a j) (digit-lt b j)
      ∙ sym (digit-bit_xor b a j)

pub bit_xor_cancel : (k a b m : ℕ) → a < 2 ^ k → b < 2 ^ k → bit_xor a m ≡ bit_xor b m → a ≡ b
bit_xor_cancel k a b m p q h = digit_ext k a b p q λ j.
    differ_cancel (digit a j) (digit b j) (digit m j) (digit-lt a j) (digit-lt b j) (digit-lt m j)
      (sym (digit-bit_xor a m j) ∙ ap (λ t. digit t j) h ∙ digit-bit_xor b m j)
