-- ===== src/Exec/Scan/Blocks.antt =====
-- A block that the writer made, as the column reader of storage/rowgroup.go answers it.
use vexq.Prelude.{
  ltb, length, length-append, take, drop, replicate, length-replicate, append_cancel, take_append,
  All, take_full, Bytes, ok, ℕ, ◌+◌, ◌-◌, ◌*◌, ◌/◌, ◌^◌, ◌≤◌, ◌<◌, ◌≡◌, refl, sym, ap, ◌∙◌, false,
  List, [], ◌∷◌, ◌++◌, append-nil, append_assoc, arith,
}
use vexq.Encoding.{append_checksum, to_le, checksum_ieee}
use vexq.Encoding.RoundTrip.{read_le-to_le, length-to_le}
use vexq.Storage.Schema.{block_rows, null_bitmap_bytes}
use vexq.Storage.Blocks.{fixed_block, append_words}
use vexq.Storage.Column.{slice_to, slice_from, fixed_parts}
use vexq.Exec.Scan.{read_words}

pub words : ℕ → List ℕ → Bytes
words k [] = []
words k (v ∷ vs) = to_le k v ++ words k vs

append_words-words : (k : ℕ) (buf : Bytes) (vs : List ℕ) → append_words k buf vs ≡ buf ++ words k vs
unfolding append_words words
append_words-words k buf [] = sym (append-nil buf)
append_words-words k buf (v ∷ vs) =
    append_words-words k (buf ++ to_le k v) vs ∙ append_assoc buf (to_le k v) (words k vs)

pub length-words : (k : ℕ) (vs : List ℕ) → length (words k vs) ≡ length vs * k
unfolding words
length-words k [] = omega arith
length-words k (v ∷ vs) =
    length-append (to_le k v) (words k vs) ∙ grind (arith, length-to_le k v, length-words k vs)

pub read_words-words :
    (k : ℕ) (vs : List ℕ)
    → All (λ v. v < 256 ^ k) vs
    → read_words k (length vs) (words k vs) ≡ ok vs
unfolding read_words words
read_words-words k [] h = refl
read_words-words k (v ∷ vs) (h, hs) =
    rw (read_le-to_le k v (words k vs) h, read_words-words k vs hs) refl

-- The bitmap at its full size.
abbrev pub padded : Bytes → Bytes
padded bm = bm ++ replicate (null_bitmap_bytes - length bm) 0

unfoldable pub block_bytes : ℕ → List ℕ → Bytes → Bytes
block_bytes k vals bm = append_checksum (padded bm ++ words k vals)

pub fixed_block-block_bytes :
    (k : ℕ) (vals : List ℕ) (bm : Bytes)
    → length bm ≤ null_bitmap_bytes
    → fixed_block k vals bm ≡ ok (block_bytes k vals bm)
unfolding fixed_block block_bytes
fixed_block-block_bytes k vals bm h =
    ap (λ b. ok (append_checksum b))
      (append_words-words k
          (take null_bitmap_bytes bm ++ replicate (null_bitmap_bytes - length bm) 0) vals
        ∙ ap (λ b. (b ++ replicate (null_bitmap_bytes - length bm) 0) ++ words k vals)
            (take_full null_bitmap_bytes bm h))

length-padded :
    (bm : Bytes) → length bm ≤ null_bitmap_bytes → length (padded bm) ≡ null_bitmap_bytes
length-padded bm h =
    length-append bm _ ∙ omega (arith, length-replicate {A = ℕ} (null_bitmap_bytes - length bm) 0)

pub length-block_bytes :
    (k : ℕ) (vals : List ℕ) (bm : Bytes)
    → length bm ≤ null_bitmap_bytes
    → length (block_bytes k vals bm) ≡ null_bitmap_bytes + length vals * k + 4
unfolding block_bytes append_checksum
length-block_bytes k vals bm h = omega (
  arith,
  length-append (padded bm ++ words k vals) (to_le 4 (checksum_ieee (padded bm ++ words k vals))),
  length-append (padded bm) (words k vals),
  length-padded bm h,
  length-words k vals,
  length-to_le 4 (checksum_ieee (padded bm ++ words k vals)),
)

pub fixed_parts-payload :
    (k : ℕ) (vals : List ℕ) (bm : Bytes)
    → length bm ≡ (length vals + 7) / 8
    → length vals ≤ block_rows
    → fixed_parts (length vals) (ok (padded bm ++ words k vals))
      ≡ ok (bm, words k vals, length vals)
unfolding fixed_parts slice_to slice_from
fixed_parts-payload k vals bm size small =
    let payload : Bytes = padded bm ++ words k vals in
    let whole : length payload ≡ null_bitmap_bytes + length (words k vals) =
      length-append (padded bm) (words k vals)
      ∙ omega (arith, length-padded bm (omega (arith, size))) in
    let a : ltb (length payload) ((length vals + 7) / 8) ≡ false = ground (arith, whole) in
    let b : ltb (length payload) null_bitmap_bytes ≡ false = ground (arith, whole) in
    let front : take ((length vals + 7) / 8) payload ≡ bm =
      ap (λ n. take n payload) (sym size)
      ∙ ap (take (length bm)) (append_assoc bm _ (words k vals))
      ∙ take_append bm _ in
    let back : drop null_bitmap_bytes payload ≡ words k vals =
      ap (λ n. drop n payload) (sym (length-padded bm (omega (arith, size))))
      ∙ append_cancel (padded bm) (words k vals) in
    rw (a, b, front, back) refl
