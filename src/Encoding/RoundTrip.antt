-- ===== src/Encoding/RoundTrip.antt =====
-- Reading back what the encoders of internal/encoding wrote.
use native.Mathlib.Nat.{pow-suc}
use vexq.Prelude.{
  ℕ, zero, suc, ◌∙◌, true, false, append-nil, length-drop, length-take, ◌+◌, ◌-◌, ◌/◌, ◌^◌, ◌≤◌,
  ◌<◌, ◌≡◌, refl, ap, [], ◌∷◌, ◌++◌, arith, Bytes, IsByte, All, ok, err, checksum, ◌>>=◌, Safe,
  length, length-append, drop, take_append, append_cancel, u32, ltb, if◌then◌else◌, ◌==◌,
}
use vexq.Encoding.{to_le, read_le, checksum_ieee, append_checksum, verify_trailing}

pub length-to_le : (k v : ℕ) → length (to_le k v) ≡ k
unfolding to_le
length-to_le zero v = refl
length-to_le (suc k) v = ap suc (length-to_le k (v / 256))

pub to_le-IsByte : (k v : ℕ) → All IsByte (to_le k v)
unfolding to_le
to_le-IsByte zero v = tt
to_le-IsByte (suc k) v = (omega arith, to_le-IsByte k (v / 256))

-- A word that fits in k bytes, written little-endian, is read back, and what follows it is left.
pub read_le-to_le :
    (k v : ℕ) (rest : Bytes) → v < 256 ^ k → read_le k (to_le k v ++ rest) ≡ ok (v, rest)
unfolding to_le read_le
read_le-to_le zero v rest h = ground arith
read_le-to_le (suc k) v rest h =
    rw (read_le-to_le k (v / 256) rest (omega (arith, pow-suc 256 k))) (ground arith)

-- The same, for any rest.
pub read_back :
    (k v : ℕ) → v < 256 ^ k → (rest : Bytes) → read_le k (to_le k v ++ rest) ≡ ok (v, rest)
read_back k v h rest = read_le-to_le k v rest h

-- A slice of at least `k` bytes is read without a panic, and the word fits in `k` bytes.
pub read_le-Safe :
    (k : ℕ) (b : Bytes)
    → k ≤ length b
    → Safe (λ (v, rest). length rest + k ≡ length b) (read_le k b)
unfolding read_le
read_le-Safe zero b h = omega arith
read_le-Safe (suc k) [] h = omega arith
read_le-Safe (suc k) (c ∷ b) h = grind (arith, read_le-Safe k b)

pub checksum_ieee-lt : (b : Bytes) → checksum_ieee b < u32
unfolding checksum_ieee
checksum_ieee-lt b = omega arith

-- What `verify_trailing` answers on a payload `p` with any four bytes behind it.
pub verify_trailing_split :
    (p t : Bytes)
    → length t ≡ 4
    → verify_trailing (p ++ t)
      ≡ (do (want, _) ← read_le 4 t; if checksum_ieee p == want then ok p else err checksum)
unfolding verify_trailing
verify_trailing_split p t h =
    let cut : length (p ++ t) - 4 ≡ length p = omega (arith, length-append p t) in
    let long : ltb (length (p ++ t)) 4 ≡ false = ground (arith, length-append p t) in
    rw (long, cut, take_append, append_cancel)

==_refl : (n : ℕ) → (n == n) ≡ true
==_refl n = ground arith

-- A block with its checksum appended verifies, and the payload comes back.
pub verify_trailing-append_checksum : (b : Bytes) → verify_trailing (append_checksum b) ≡ ok b
unfolding append_checksum
verify_trailing-append_checksum b =
    let sum : ℕ = checksum_ieee b in
    let back : read_le 4 (to_le 4 sum) ≡ ok (sum, []) =
      rw append-nil at (read_le-to_le 4 sum [] (checksum_ieee-lt b)) in
    verify_trailing_split b (to_le 4 sum) (length-to_le 4 sum) ∙ rw (back, ==_refl)

-- VerifyTrailing panics on no input, and a payload it accepts is four bytes shorter than its
-- input.
pub verify_trailing-Safe : (b : Bytes) → Safe (λ p. length p + 4 ≡ length b) (verify_trailing b)
unfolding verify_trailing
verify_trailing-Safe b = grind (
  arith,
  read_le-Safe 4 (drop (length b - 4) b),
  length-drop (length b - 4) b,
  length-take (length b - 4) b,
)
