-- ===== src/Exec/Scan/Steps.antt =====
-- One call of `NextBlock` on a section of words.
use vexq.Exec.Scan.Blocks.{fixed_parts-payload, padded}
use vexq.Encoding.RoundTrip.{verify_trailing-append_checksum}
use vexq.Prelude.{ok}
use vexq.Prelude.{
  length, take, drop, append_cancel, take_append, Bytes, ok, ℕ, ◌+◌, ◌*◌, ◌/◌, ◌≤◌, ◌≡◌, sym, ap,
  ◌∙◌, Option, List, ◌++◌, arith,
}
use vexq.Encoding.RoundTrip.{verify_trailing-append_checksum}
use vexq.Storage.Schema.{block_rows, null_bitmap_bytes, value_size}
use vexq.Storage.Column.{ColumnReader, next_fixed_block, after_fixed, fixed_parts}
use vexq.Storage.Column.Windows.{Buffered, window-Reads}
use vexq.Exec.Scan.Blocks.{words, block_bytes, length-block_bytes, fixed_parts-payload}

-- The bytes between `before` and the rest.
middle :
    (before b after : Bytes) → take (length b) (drop (length before) (before ++ (b ++ after))) ≡ b
middle before b after =
    ap (take (length b)) (append_cancel before (b ++ after)) ∙ take_append b after

-- The reader stands at `before`'s end, within its section, and its window holds the file's bytes.
pub record Stands (cr : ColumnReader) (k : ℕ) (before : Bytes) (ahead : ℕ) : Type 0 where
  pub place : cr.pos ≡ length before
  pub buffered : Buffered cr.file cr.win cr.win_start
  pub low : cr.section_offset ≤ cr.pos
  pub fits : length before + ahead ≤ cr.end
  pub inside : cr.end ≤ length cr.file
  pub size : value_size cr.data_type ≡ k

after_fixed-block_bytes :
    (cr : ColumnReader) (k : ℕ) (vals : List ℕ) (bm : Bytes) (size : ℕ)
    → length bm ≡ (length vals + 7) / 8
    → length vals ≤ block_rows
    → after_fixed (length vals) size (ok (block_bytes k vals bm), cr)
      ≡ (ok (bm, words k vals, length vals), record cr { pos = cr.pos + size })
unfolding after_fixed block_bytes
after_fixed-block_bytes cr k vals bm size h small =
    ap (λ r. (r, record cr { pos = cr.pos + size }))
      (ap (fixed_parts (length vals)) (verify_trailing-append_checksum (padded bm ++ words k vals))
        ∙ fixed_parts-payload k vals bm h small)

pub next_fixed_block-Gives :
    (cr : ColumnReader) (k : ℕ) (vals : List ℕ) (bm before after : Bytes)
    → Stands cr k before (length (block_bytes k vals bm))
    → cr.file ≡ before ++ (block_bytes k vals bm ++ after)
    → length bm ≡ (length vals + 7) / 8
    → length vals ≤ block_rows
    → (w : Option Bytes) × (start : ℕ) × Buffered cr.file w start
      × (next_fixed_block (length vals) cr ≡ (
        ok (bm, words k vals, length vals),
        record cr { win = w; win_start = start; pos = cr.pos + length (block_bytes k vals bm) },
      ))
unfolding next_fixed_block
next_fixed_block-Gives cr k vals bm before after st file bms small =
    let size : ℕ = null_bitmap_bytes + length vals * value_size cr.data_type + 4 in
    let len : length (block_bytes k vals bm) ≡ size =
      length-block_bytes k vals bm (omega (arith, bms))
      ∙ ap (λ n. null_bitmap_bytes + length vals * n + 4) (sym st.size) in
    let (w, start, b, e) =
      window-Reads cr cr.pos size st.buffered st.low (omega (arith, st.place, st.fits, len))
        st.inside in
    let bytes : take size (drop cr.pos cr.file) ≡ block_bytes k vals bm =
      ap (λ n. take n (drop cr.pos cr.file)) (sym len)
      ∙ ap (λ n. take (length (block_bytes k vals bm)) (drop n cr.file)) st.place
      ∙ ap (λ f. take (length (block_bytes k vals bm)) (drop (length before) f)) file
      ∙ middle before (block_bytes k vals bm) after in
    (
      w,
      start,
      b,
      ap (after_fixed (length vals) size)
            (e ∙ ap (λ v. (ok v, record cr { win = w; win_start = start })) bytes)
          ∙ after_fixed-block_bytes (record cr { win = w; win_start = start }) k vals bm size bms
              small
          ∙ ap
              (λ n. (
                ok (bm, words k vals, length vals),
                record cr { win = w; win_start = start; pos = cr.pos + n },
              ))
              (sym len),
    )
