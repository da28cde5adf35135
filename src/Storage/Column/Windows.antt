-- ===== src/Storage/Column/Windows.antt =====
-- The window of a column reader answers the bytes of the file.
use vexq.Prelude.Slices.{take-take, drop-drop, take-drop-take}
use vexq.Prelude.{
  ltb, leb, Bool-cases, length, take, drop, length-take, length-drop, drop-drop, take-take,
  take-drop-take, Bytes, ok, ℕ, ◌+◌, ◌-◌, ◌≤◌, ◌≡◌, refl, sym, ap, ◌∙◌, inl, inr, false, ◌&&◌, ◌||◌,
  Option, none, some, arith,
}
use vexq.Storage.Column.{new_window, from_window, refill, ColumnReader, Step, window}
use vexq.Storage.Footer.{read_at}

-- What is buffered is the file's.
abbrev pub Buffered : Bytes → Option Bytes → ℕ → Type 0
Buffered file none start = Unit
Buffered file (some w) start =
    (start + length w ≤ length file) × (w ≡ take (length w) (drop start file))

-- The answer is `n` bytes of the file from `off` on; only the window moves, and it holds the file's bytes.
abbrev pub Reads : ColumnReader → ℕ → ℕ → Step Bytes → Type 0
Reads cr off n r =
    (w : Option Bytes) × (start : ℕ) × Buffered cr.file w start
    × (r ≡ (ok (take n (drop off cr.file)), record cr { win = w; win_start = start }))

new_window-Reads :
    (cr : ColumnReader) (off n want : ℕ)
    → n ≤ want
    → off + want ≤ length cr.file
    → Reads cr off n (new_window cr off n (read_at cr.file off want))
unfolding new_window read_at
new_window-Reads cr off n want h hf =
    let there : ltb (length cr.file) (off + want) ≡ false = ground arith in
    let size : length (take want (drop off cr.file)) ≡ want =
      omega (arith, length-take want (drop off cr.file), length-drop off cr.file) in
    (
      some (take want (drop off cr.file)),
      off,
      (omega (arith, size), ap (λ k. take k (drop off cr.file)) (sym size)),
      rw there (
          ap (λ b. (ok b, record cr { win = some (take want (drop off cr.file)); win_start = off }))
            (take-take n want (drop off cr.file) h)),
    )

refill-Reads :
    (cr : ColumnReader) (off n : ℕ)
    → off + n ≤ cr.end
    → cr.end ≤ length cr.file
    → Reads cr off n (refill cr off n)
unfolding refill
refill-Reads cr off n h hf = new_window-Reads cr off n _ (ground arith) (ground arith)

from_window-Reads :
    (cr : ColumnReader) (off n : ℕ) (w : Option Bytes)
    → cr.win ≡ w
    → Buffered cr.file w cr.win_start
    → off + n ≤ cr.end
    → cr.end ≤ length cr.file
    → Reads cr off n (from_window cr off n w)
unfolding from_window
from_window-Reads cr off n none e b h hf = refill-Reads cr off n h hf
from_window-Reads cr off n (some w) e b h hf =
    elim (Bool-cases (leb cr.win_start off && leb (off - cr.win_start + n) (length w))) [
      | inl t ↦
          let bytes : take n (drop (off - cr.win_start) w) ≡ take n (drop off cr.file) =
            ap (λ v. take n (drop (off - cr.win_start) v)) b.1
            ∙ take-drop-take n (off - cr.win_start) (length w) (drop cr.win_start cr.file)
                (ground arith)
            ∙ ap (take n) (drop-drop (off - cr.win_start) cr.win_start cr.file)
            ∙ ap (λ k. take n (drop k cr.file)) (ground arith) in
          (
            some w,
            cr.win_start,
            b,
            rw t (λ i. (ok (bytes i), record cr { win = e i; win_start = cr.win_start })),
          )
      | inr t ↦ rw t (refill-Reads cr off n h hf)
    ]

-- The window of a column reader is not seen: within the section and the file, and for any window
-- that holds bytes of the file, the answer is the bytes of the file in that range, the window
-- still holds bytes of the file, and nothing else of the reader changes.
pub window-Reads :
    (cr : ColumnReader) (off n : ℕ)
    → Buffered cr.file cr.win cr.win_start
    → cr.section_offset ≤ off
    → off + n ≤ cr.end
    → cr.end ≤ length cr.file
    → Reads cr off n (window cr off n)
unfolding window
window-Reads cr off n b lo h hf =
    let t : (ltb off cr.section_offset || ltb cr.end (off + n)) ≡ false = ground arith in
    rw t (from_window-Reads cr off n cr.win refl b h hf)
