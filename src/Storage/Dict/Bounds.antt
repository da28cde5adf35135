-- ===== src/Storage/Dict/Bounds.antt =====
-- The dictionary parser on arbitrary bytes.
use vexq.Prelude.{
  Safe-reject_if, ap, suc, length-take, u32, ltb, [], ltb, length, length-take, Bytes, u32, Safe,
  Safe-bind, ℕ, zero, suc, ◌+◌, ◌*◌, ◌%◌, ◌≤◌, ◌≡◌, false, refl, ap, [], arith,
}
use vexq.Encoding.{read_le, verify_trailing}
use vexq.Encoding.RoundTrip.{read_le-Safe, verify_trailing-Safe}
use vexq.Storage.Dict.{Dictionary, read_offsets, first_bytes, unmarshal_dictionary}

read_offsets-Safe :
    (k : ℕ) (b : Bytes)
    → k * 4 ≤ length b
    → Safe (λ (os, rest). (length os ≡ k) × (length rest + k * 4 ≡ length b)) (read_offsets k b)
unfolding read_offsets
read_offsets-Safe zero b h = (refl, omega arith)
read_offsets-Safe (suc k) b h =
    Safe-bind _ _ (read_le 4 b) _ (read_le-Safe 4 b (omega (arith, h))) (λ (o, rest) size.
      Safe-bind _ _ (read_offsets k rest) _ (read_offsets-Safe k rest (omega (arith, h, size)))
        (λ (os, rest) (count, left). (ap suc count, omega (arith, size, left))))

first_bytes-Safe :
    (b : Bytes) (n : ℕ) → n ≤ length b → Safe (λ a. length a ≤ length b) (first_bytes b n)
unfolding first_bytes
first_bytes-Safe b n h =
    let inside : ltb (length b) n ≡ false = ground arith in
    rw inside (omega (arith, length-take n b))

-- A dictionary whose content fits in the bytes it was read from, with no memo yet.
abbrev pub FitsIn : Bytes → Dictionary → Type 0
FitsIn b d = (length d.offsets * 4 + length d.payload + 12 ≤ length b) × (d.cache ≡ [])

-- UnmarshalDictionary panics on no bytes, whatever counts and lengths they claim; the offsets and
-- the payload of a dictionary that it returns, with the framing, are no longer than the input, and
-- its memo is empty.
pub unmarshal_dictionary-Safe : (b : Bytes) → Safe (FitsIn b) (unmarshal_dictionary b)
unfolding unmarshal_dictionary
unmarshal_dictionary-Safe b =
    Safe-bind _ _ (verify_trailing b) _ (verify_trailing-Safe b) (λ payload whole.
      Safe-reject_if _ (ltb (length payload) 4) _ _ (λ long.
        Safe-bind _ _ (read_le 4 payload) _ (read_le-Safe 4 payload (ground arith))
          (λ (n, rest) size. Safe-reject_if _ (ltb (length rest) (n * 4 + 4)) _ _ (λ room.
            let enough : n * 4 + 4 ≤ length rest = ground arith in
            Safe-bind _ _ (read_offsets n rest) _ (read_offsets-Safe n rest (omega (arith, enough)))
              (λ (os, rest2) (count, left).
                Safe-bind _ _ (read_le 4 rest2) _
                  (read_le-Safe 4 rest2 (omega (arith, enough, left)))
                  (λ (total, rest3) size3.
                    Safe-reject_if _ (ltb (length rest3 % u32) total) _ _ (λ fits.
                      Safe-bind _ _ (first_bytes rest3 total) _
                        (first_bytes-Safe rest3 total (ground arith))
                        (λ content cut.
                          (omega (arith, cut, count, left, size, size3, whole), refl)))))))))
