-- ===== src/Storage/Rle/RoundTrip.antt =====
-- `decode_rle_bool` after `encode_rle_bool`.
use vexq.Prelude.{
  ltb, if◌then◌else◌, length, length-append, get_or, replicate, length-replicate, Bytes, u32, ok, ℕ,
  zero, suc, ◌+◌, ◌<◌, ◌≡◌, refl, sym, ◌∙◌, Bool, false, List, [], ◌∷◌, ◌++◌, append-nil,
  append_assoc, arith,
}
use vexq.Encoding.{to_le, append_uint32, append_checksum}
use vexq.Encoding.RoundTrip.{length-to_le, read_le-to_le, verify_trailing-append_checksum}
use vexq.Storage.Bitmap.{full_bitmap, index}
use vexq.Storage.Bitmap.Laws.{null_at, Covers, full_bitmap-Covers, null_at-full_bitmap}
use vexq.Storage.Rle.{
  Run, Cursor, append_runs, encode_rle_bool, read_runs, total_rows, decode_rle_bool,
}
use vexq.Storage.Rle.Encode.{cell_of, Describes, runs_from-Describes}
use vexq.Storage.Rle.Decode.{Filled, fill_runs-Steps, total_rows-Describes}

run_bytes : List Run → Bytes
run_bytes [] = []
run_bytes (r ∷ rs) = to_le 4 r.len ++ (r.val ∷ run_bytes rs)

append_runs-run_bytes : (rs : List Run) (b : Bytes) → append_runs b rs ≡ b ++ run_bytes rs
unfolding append_runs run_bytes
append_runs-run_bytes [] b = sym (append-nil b)
append_runs-run_bytes (r ∷ rs) b =
    append_runs-run_bytes rs (append_uint32 b r.len ++ r.val ∷ []) ∙ simp append_assoc

read_runs-run_bytes :
    (f : ℕ → ℕ) (i n : ℕ) (rs : List Run)
    → Describes f rs i n
    → read_runs (length rs) (run_bytes rs) ≡ ok rs
unfolding read_runs run_bytes index
read_runs-run_bytes f i n [] d = refl
read_runs-run_bytes f i n (r ∷ rs) (p, b, v, same, d) =
    let long : ltb (length (to_le 4 r.len ++ (r.val ∷ run_bytes rs))) 5 ≡ false =
      ground (arith, length-append (to_le 4 r.len) (r.val ∷ run_bytes rs), length-to_le 4 r.len) in
    rw (
      long,
      read_le-to_le 4 r.len (r.val ∷ run_bytes rs) b,
      read_runs-run_bytes f (i + r.len) n rs d,
    )

get_or-replicate-false : (n i : ℕ) → get_or (replicate n false) i false ≡ false
get_or-replicate-false zero i = refl
get_or-replicate-false (suc n) zero = refl
get_or-replicate-false (suc n) (suc i) = get_or-replicate-false n i

-- The cursor that `decode_rle_bool` starts from.
Filled-start :
    (f : ℕ → ℕ) (n : ℕ)
    → Filled f n (record { values = replicate n false; nulls = full_bitmap n; pos = 0 })
Filled-start f n = record {
  size = length-replicate n false;
  covers = full_bitmap-Covers n;
  null_rows = λ j. ground (arith, null_at-full_bitmap n j);
  value_rows = λ j. ground (arith, get_or-replicate-false n j);
}

decode_runs :
    (f : ℕ → ℕ) (n : ℕ) (rs : List Run)
    → Describes f rs 0 n
    → length rs < u32
    → (c : Cursor) × (decode_rle_bool
          (append_checksum (append_runs (append_uint32 [] (length rs)) rs))
        ≡ ok (c.values, c.nulls, n))
      × (c.pos ≡ n)
      × Filled f n c
unfolding decode_rle_bool
decode_runs f n rs d few =
    let (c, r, pos, h) = fill_runs-Steps f n rs _ (Filled-start f n) (omega arith) d in
    let long : ltb (length (to_le 4 (length rs) ++ run_bytes rs)) 4 ≡ false =
      ground
        (arith, length-append (to_le 4 (length rs)) (run_bytes rs), length-to_le 4 (length rs)) in
    let total : total_rows rs ≡ n = omega (arith, total_rows-Describes f n rs 0 d) in
    (
      c,
      rw (
        verify_trailing-append_checksum,
        append_runs-run_bytes,
        long,
        read_le-to_le 4 (length rs) (run_bytes rs) few,
        read_runs-run_bytes f 0 n rs d,
        total,
        r,
      ),
      pos,
      h,
    )

-- Encoding a BOOL block and decoding it gives back the row count, every null flag and every
-- non-null value, a null row as false; neither side fails or panics, for a bitmap that covers the
-- rows and fewer than 2^32 rows.
pub decode-encode_rle_bool :
    (values : List Bool) (nulls : Bytes)
    → Covers nulls (length values)
    → length values < u32
    → (block : Bytes) × (vs : List Bool) × (bm : Bytes) × (encode_rle_bool values nulls ≡ ok block)
      × (decode_rle_bool block ≡ ok (vs, bm, length values))
      × (length vs ≡ length values)
      × ((j : ℕ) → j < length values → null_at bm j ≡ null_at nulls j)
      × ((j : ℕ)
          → j < length values
          → get_or vs j false ≡ (if null_at nulls j then false else get_or values j false))
unfolding encode_rle_bool cell_of
decode-encode_rle_bool values nulls covers fits =
    let f : ℕ → ℕ = cell_of values nulls in
    let n : ℕ = length values in
    let (rs, r, d, few) =
      runs_from-Describes values nulls covers n 0 fits (omega arith) (omega arith) in
    let (c, e, pos, h) = decode_runs f n rs d (omega arith) in
    (
      append_checksum (append_runs (append_uint32 [] (length rs)) rs),
      c.values,
      c.nulls,
      rw r,
      e,
      h.size,
      λ j hj. ground (arith, h.null_rows j),
      λ j hj. ground (arith, h.value_rows j),
    )
