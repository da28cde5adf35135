-- ===== src/Encoding.antt =====
-- internal/encoding: little-endian primitives (binary.go) and the CRC32-IEEE trailer (crc.go).
pub mod RoundTrip
pub mod Corruption
use Prim.Native.Nat.{bit_and, bit_xor}
use vexq.Prelude.{
  ℕ, zero, suc, ◌+◌, ◌-◌, ◌*◌, ◌/◌, ◌%◌, [], ◌∷◌, ◌++◌, Bytes, u32, Result, ok, err, panic,
  checksum, ◌>>=◌, if◌then◌else◌, ltb, ◌==◌, reject_if, length, take, drop,
}

-- The `k` little-endian bytes of `v`.
unfoldable pub to_le : ℕ → ℕ → Bytes
to_le zero v = []
to_le (suc k) v = (v % 256) ∷ to_le k (v / 256)

-- Reads `k` bytes; the slice is too short where Go's bounds check panics.
unfoldable pub read_le : ℕ → Bytes → Result (ℕ × Bytes)
read_le zero b = ok (0, b)
read_le (suc k) [] = panic
read_le (suc k) (c ∷ b) = do (v, rest) ← read_le k b; ok (c + 256 * v, rest)

abbrev pub append_uint16 : Bytes → ℕ → Bytes
append_uint16 b v = b ++ to_le 2 v

abbrev pub append_uint32 : Bytes → ℕ → Bytes
append_uint32 b v = b ++ to_le 4 v

abbrev pub append_uint64 : Bytes → ℕ → Bytes
append_uint64 b v = b ++ to_le 8 v

-- An int64 or a float64 is written by its bit pattern.
abbrev pub append_int32 : Bytes → ℕ → Bytes
append_int32 b v = b ++ to_le 4 v

abbrev pub append_int64 : Bytes → ℕ → Bytes
append_int64 b v = b ++ to_le 8 v

abbrev pub read_uint16 : Bytes → Result (ℕ × Bytes)
read_uint16 = read_le 2

abbrev pub read_uint32 : Bytes → Result (ℕ × Bytes)
read_uint32 = read_le 4

abbrev pub read_int64 : Bytes → Result (ℕ × Bytes)
read_int64 = read_le 8

abbrev pub read_uint64 : Bytes → Result (ℕ × Bytes)
read_uint64 = read_le 8

-- One bit of the reflected CRC32 with the IEEE polynomial.
crc_bit : ℕ → ℕ
crc_bit c = if bit_and c 1 == 1 then bit_xor (c / 2) 0xEDB88320 else c / 2

crc_byte : ℕ → ℕ → ℕ
unfolding crc_bit
crc_byte c b =
    crc_bit (crc_bit (crc_bit (crc_bit (crc_bit (crc_bit (crc_bit (crc_bit (bit_xor c b))))))))

crc_loop : ℕ → Bytes → ℕ
crc_loop c [] = c
crc_loop c (b ∷ bs) = crc_loop (crc_byte c b) bs

-- `crc32.Checksum(b, crc32.IEEETable)`, a uint32.
unfoldable pub checksum_ieee : Bytes → ℕ
unfolding crc_byte crc_loop
checksum_ieee b = bit_xor (crc_loop 0xFFFFFFFF b) 0xFFFFFFFF % u32

unfoldable pub append_checksum : Bytes → Bytes
append_checksum b = append_uint32 b (checksum_ieee b)

-- `payload := b[:len(b)-4]`, and the trailing word against its checksum.
unfoldable pub verify_trailing : Bytes → Result Bytes
verify_trailing b =
    let payload = take (length b - 4) b in
    reject_if (ltb (length b) 4) checksum (do
      (want, _) ← read_uint32 (drop (length b - 4) b)
      if checksum_ieee payload == want then ok payload else err checksum)
