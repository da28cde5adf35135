-- ===== src/Encoding/Corruption.antt =====
-- internal/encoding/crc.go: the steps of the checksum, and a byte of the payload that is not the one
-- that was written.
use Prim.Native.Nat.{bit_and, bit_xor}
use vexq.Prelude.Digits.{
  digit, digit-zero, digit-high, digit_ext, digit-bit_and, digit-bit_xor, bit_and-lt, bit_xor-lt,
  bit_xor_comm, bit_xor_cancel,
}
use vexq.Prelude.{
  ◌==◌, ==_iff, Bool-cases, All, All-append, Bytes, IsByte, checksum, ok, err, ℕ, zero, suc, ◌/◌,
  ◌%◌, ◌^◌, ◌<◌, ◌≡◌, refl, sym, ap, ◌∙◌, ◌≢◌, ◌⊎◌, inl, inr, false, [], ◌∷◌, ◌++◌, append-nil,
  arith,
}
use vexq.Encoding.{read_le, crc_bit, crc_byte, crc_loop, checksum_ieee, to_le, verify_trailing}
use vexq.Encoding.RoundTrip.{verify_trailing_split, length-to_le, read_le-to_le, checksum_ieee-lt}

abbrev polynomial : ℕ
polynomial = 0xEDB88320

bit_and_one : (c : ℕ) → c < 2 ^ 32 → bit_and c 1 ≡ c % 2
unfolding digit
bit_and_one c h =
    digit_ext 32 (bit_and c 1) (c % 2) (bit_and-lt 32 c 1 h (omega arith)) (omega arith) same
  where
    same : (j : ℕ) → digit (bit_and c 1) j ≡ digit (c % 2) j
    same zero = digit-bit_and c 1 0 ∙ omega arith
    same (suc j) =
        let gone : c % 2 / 2 ≡ 0 = omega arith in
        digit-bit_and c 1 (suc j) ∙ rw (gone, digit-zero j) (omega arith)

crc_bit_odd : (c : ℕ) → c < 2 ^ 32 → c % 2 ≡ 1 → crc_bit c ≡ bit_xor (c / 2) polynomial
unfolding crc_bit
crc_bit_odd c h e = rw (bit_and_one c h, e) refl

crc_bit_even : (c : ℕ) → c < 2 ^ 32 → c % 2 ≡ 0 → crc_bit c ≡ c / 2
unfolding crc_bit
crc_bit_even c h e = rw (bit_and_one c h, e) refl

parity : (c : ℕ) → (c % 2 ≡ 0) ⊎ (c % 2 ≡ 1)
parity c = elim (Bool-cases (c % 2 == 0)) [
  | inl e ↦ inl (ground arith)
  | inr e ↦ inr (ground arith)
]

crc_bit-lt : (c : ℕ) → c < 2 ^ 32 → crc_bit c < 2 ^ 32
crc_bit-lt c h = elim (parity c) [
  | inl e ↦ rw (crc_bit_even c h e) (omega arith)
  | inr e ↦ rw (crc_bit_odd c h e) (bit_xor-lt 32 (c / 2) polynomial (omega arith) (omega arith))
]

-- The top bit of the polynomial is set, and that of a half is not.
top_bit : (c d : ℕ) → c < 2 ^ 32 → d < 2 ^ 32 → bit_xor (c / 2) polynomial ≢ d / 2
top_bit c d h k e =
    let high : digit (c / 2) 31 ≡ 0 = digit-high 31 (c / 2) (omega arith) in
    let high' : digit (d / 2) 31 ≡ 0 = digit-high 31 (d / 2) (omega arith) in
    let set : digit polynomial 31 ≡ 1 = unfold digit in refl in
    let one : digit (bit_xor (c / 2) polynomial) 31 ≡ 1 =
      digit-bit_xor (c / 2) polynomial 31 ∙ rw (high, set) refl in
    omega (arith, one, high', ap (λ t. digit t 31) e)

crc_bit_injective : (c d : ℕ) → c < 2 ^ 32 → d < 2 ^ 32 → crc_bit c ≡ crc_bit d → c ≡ d
crc_bit_injective c d h k e = elim (parity c) [
  | inl x ↦ elim (parity d) [
    | inl y ↦
        let halves : c / 2 ≡ d / 2 = sym (crc_bit_even c h x) ∙ e ∙ crc_bit_even d k y in
        omega (arith, halves, x, y)
    | inr y ↦ absurd (top_bit d c k h (sym (sym (crc_bit_even c h x) ∙ e ∙ crc_bit_odd d k y)))
  ]
  | inr x ↦ elim (parity d) [
    | inl y ↦ absurd (top_bit c d h k (sym (crc_bit_odd c h x) ∙ e ∙ crc_bit_even d k y))
    | inr y ↦
        let halves : c / 2 ≡ d / 2 =
          bit_xor_cancel 32 (c / 2) (d / 2) polynomial (omega arith) (omega arith)
            (sym (crc_bit_odd c h x) ∙ e ∙ crc_bit_odd d k y) in
        omega (arith, halves, x, y)
  ]
]

-- Eight bits in a row.
bits : ℕ → ℕ → ℕ
bits zero c = c
bits (suc n) c = crc_bit (bits n c)

bits-lt : (n c : ℕ) → c < 2 ^ 32 → bits n c < 2 ^ 32
unfolding bits
bits-lt zero c h = h
bits-lt (suc n) c h = crc_bit-lt (bits n c) (bits-lt n c h)

bits_injective : (n c d : ℕ) → c < 2 ^ 32 → d < 2 ^ 32 → bits n c ≡ bits n d → c ≡ d
unfolding bits
bits_injective zero c d h k e = e
bits_injective (suc n) c d h k e =
    bits_injective n c d h k
      (crc_bit_injective (bits n c) (bits n d) (bits-lt n c h) (bits-lt n d k) e)

crc_byte-bits : (c b : ℕ) → crc_byte c b ≡ bits 8 (bit_xor c b)
unfolding crc_byte bits
crc_byte-bits c b = refl

byte_fits : (b : ℕ) → b < 256 → b < 2 ^ 32
byte_fits b h = omega arith

mixed-lt : (c b : ℕ) → c < 2 ^ 32 → b < 256 → bit_xor c b < 2 ^ 32
mixed-lt c b h k = bit_xor-lt 32 c b h (byte_fits b k)

crc_byte-lt : (c b : ℕ) → c < 2 ^ 32 → b < 256 → crc_byte c b < 2 ^ 32
crc_byte-lt c b h k = rw (crc_byte-bits c b) (bits-lt 8 (bit_xor c b) (mixed-lt c b h k))

-- Another state, or another byte, leads to another state.
crc_byte_state :
    (c d b : ℕ) → c < 2 ^ 32 → d < 2 ^ 32 → b < 256 → crc_byte c b ≡ crc_byte d b → c ≡ d
crc_byte_state c d b h k l e = bit_xor_cancel 32 c d b h k (
    bits_injective 8 (bit_xor c b) (bit_xor d b) (mixed-lt c b h l) (mixed-lt d b k l)
      (sym (crc_byte-bits c b) ∙ e ∙ crc_byte-bits d b))

crc_byte_input : (c x y : ℕ) → c < 2 ^ 32 → x < 256 → y < 256 → crc_byte c x ≡ crc_byte c y → x ≡ y
crc_byte_input c x y h k l e =
    let same : bit_xor c x ≡ bit_xor c y =
      bits_injective 8 (bit_xor c x) (bit_xor c y) (mixed-lt c x h k) (mixed-lt c y h l)
        (sym (crc_byte-bits c x) ∙ e ∙ crc_byte-bits c y) in
    bit_xor_cancel 32 x y c (byte_fits x k) (byte_fits y l)
      (bit_xor_comm 32 x c (byte_fits x k) h ∙ same ∙ bit_xor_comm 32 c y h (byte_fits y l))

crc_loop-lt : (bs : Bytes) (c : ℕ) → All IsByte bs → c < 2 ^ 32 → crc_loop c bs < 2 ^ 32
unfolding crc_loop
crc_loop-lt [] c a h = h
crc_loop-lt (b ∷ bs) c (k, a) h = crc_loop-lt bs (crc_byte c b) a (crc_byte-lt c b h k)

crc_loop_injective :
    (bs : Bytes) (c d : ℕ)
    → All IsByte bs
    → c < 2 ^ 32
    → d < 2 ^ 32
    → crc_loop c bs ≡ crc_loop d bs
    → c ≡ d
unfolding crc_loop
crc_loop_injective [] c d a h k e = e
crc_loop_injective (b ∷ bs) c d (l, a) h k e = crc_byte_state c d b h k l (
    crc_loop_injective bs (crc_byte c b) (crc_byte d b) a (crc_byte-lt c b h l)
      (crc_byte-lt d b k l) e)

crc_loop-append : (p q : Bytes) (c : ℕ) → crc_loop c (p ++ q) ≡ crc_loop (crc_loop c p) q
unfolding crc_loop
crc_loop-append [] q c = refl
crc_loop-append (b ∷ p) q c = crc_loop-append p q (crc_byte c b)

checksum_ieee_loop :
    (b d : Bytes)
    → All IsByte b
    → All IsByte d
    → checksum_ieee b ≡ checksum_ieee d
    → crc_loop 0xFFFFFFFF b ≡ crc_loop 0xFFFFFFFF d
unfolding checksum_ieee
checksum_ieee_loop b d h k e =
    let ones : 0xFFFFFFFF < 2 ^ 32 = omega arith in
    let s = crc_loop 0xFFFFFFFF b in
    let t = crc_loop 0xFFFFFFFF d in
    let small = crc_loop-lt b 0xFFFFFFFF h ones in
    let small' = crc_loop-lt d 0xFFFFFFFF k ones in
    bit_xor_cancel 32 s t 0xFFFFFFFF small small' (
      omega
        (arith, e, bit_xor-lt 32 s 0xFFFFFFFF small ones, bit_xor-lt 32 t 0xFFFFFFFF small' ones))

checksum_ieee_byte :
    (p q : Bytes) (x y : ℕ)
    → All IsByte p
    → All IsByte q
    → x < 256
    → y < 256
    → checksum_ieee (p ++ x ∷ q) ≡ checksum_ieee (p ++ y ∷ q)
    → x ≡ y
unfolding crc_loop
checksum_ieee_byte p q x y hp hq hx hy e =
    let c = crc_loop 0xFFFFFFFF p in
    let small : c < 2 ^ 32 = crc_loop-lt p 0xFFFFFFFF hp (omega arith) in
    let loops : crc_loop 0xFFFFFFFF (p ++ x ∷ q) ≡ crc_loop 0xFFFFFFFF (p ++ y ∷ q) =
      checksum_ieee_loop (p ++ x ∷ q) (p ++ y ∷ q) (All-append IsByte p (x ∷ q) hp (hx, hq))
        (All-append IsByte p (y ∷ q) hp (hy, hq)) e in
    crc_byte_input c x y small hx hy (
      crc_loop_injective q (crc_byte c x) (crc_byte c y) hq (crc_byte-lt c x small hx)
        (crc_byte-lt c y small hy)
        (sym (crc_loop-append p (x ∷ q) 0xFFFFFFFF) ∙ loops ∙ crc_loop-append p (y ∷ q) 0xFFFFFFFF))

-- VerifyTrailing finds every change of one byte: a payload of which any one byte, at any place,
-- differs from the payload that the trailing checksum was made of is refused with the checksum
-- error.
pub verify_trailing_changed :
    (p q : Bytes) (x y : ℕ)
    → All IsByte p
    → All IsByte q
    → x < 256
    → y < 256
    → x ≢ y
    → verify_trailing (p ++ y ∷ q ++ to_le 4 (checksum_ieee (p ++ x ∷ q))) ≡ err checksum
verify_trailing_changed p q x y hp hq hx hy ne =
    let sum : ℕ = checksum_ieee (p ++ x ∷ q) in
    let back : read_le 4 (to_le 4 sum) ≡ ok (sum, []) =
      rw append-nil at (read_le-to_le 4 sum [] (checksum_ieee-lt (p ++ x ∷ q))) in
    let off : (checksum_ieee (p ++ y ∷ q) == sum) ≡ false =
      ground
        (arith, checksum_ieee_byte p q y x hp hq hy hx, ==_iff (checksum_ieee (p ++ y ∷ q)) sum) in
    verify_trailing_split (p ++ y ∷ q) (to_le 4 sum) (length-to_le 4 sum) ∙ rw (back, off) refl
