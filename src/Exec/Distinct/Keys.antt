-- ===== src/Exec/Distinct/Keys.antt =====
-- Rows of as many columns have one key only if they are equal.
use vexq.Prelude.{
  append-nil, All, sym, ap₂, List, length, All, Bytes, u32, u64, ok, ℕ, ◌%◌, ◌^◌, ◌<◌, ◌≡◌, refl,
  sym, ap, ap₂, ◌∙◌, List, [], ◌∷◌, ◌++◌, append-nil, append_assoc, arith,
}
use vexq.Encoding.{to_le, read_le}
use vexq.Encoding.RoundTrip.{read_le-to_le}
use vexq.Exec.Distinct.{Cell, null_cell, text_cell, number_cell, append_cell, key_of}

-- A string's length fits in a uint32, and a number in 64 bits.
abbrev pub CellFits : Cell → Type 0
CellFits null_cell = Unit
CellFits (text_cell s) = length s < u32
CellFits (number_cell v) = v < u64

word_cancel :
    (k v w : ℕ) (r s : Bytes)
    → v < 256 ^ k
    → w < 256 ^ k
    → to_le k v ++ r ≡ to_le k w ++ s
    → (v ≡ w) × (r ≡ s)
word_cancel k v w r s hv hw e =
    let read : ok (v, r) ≡ ok (w, s) =
      sym (read_le-to_le k v r hv) ∙ ap (read_le k) e ∙ read_le-to_le k w s hw in
    (cc read, cc read)

text_cancel : (a b r s : Bytes) → length a ≡ length b → a ++ r ≡ b ++ s → (a ≡ b) × (r ≡ s)
text_cancel [] [] r s h e = (refl, e)
text_cancel [] (y ∷ b) r s h e = absurd (omega (arith, h))
text_cancel (x ∷ a) [] r s h e = absurd (omega (arith, h))
text_cancel (x ∷ a) (y ∷ b) r s h e =
    let heads : x ≡ y = cc e in
    let tails : a ++ r ≡ b ++ s = cc e in
    let (same, rest) = text_cancel a b r s (omega (arith, h)) tails in (ap₂ ◌∷◌ heads same, rest)

-- A cell's part of the key on its own.
cell_key : Cell → Bytes
cell_key null_cell = 0x00 ∷ 0xFF ∷ []
cell_key (text_cell s) = 0x02 ∷ to_le 4 (length s % u32) ++ (s ++ 0xFF ∷ [])
cell_key (number_cell v) = 0x01 ∷ to_le 8 v ++ 0xFF ∷ []

append_cell-cell_key : (buf : Bytes) (c : Cell) → append_cell buf c ≡ buf ++ cell_key c
unfolding append_cell cell_key
append_cell-cell_key buf null_cell = refl
append_cell-cell_key buf (text_cell s) =
    append_assoc (buf ++ 0x02 ∷ [] ++ to_le 4 (length s % u32)) s (0xFF ∷ [])
    ∙ ap (λ b. b ++ (s ++ 0xFF ∷ [])) (append_assoc buf (0x02 ∷ []) (to_le 4 (length s % u32)))
    ∙ append_assoc buf (0x02 ∷ to_le 4 (length s % u32)) (s ++ 0xFF ∷ [])
append_cell-cell_key buf (number_cell v) =
    ap (λ b. b ++ 0xFF ∷ []) (append_assoc buf (0x01 ∷ []) (to_le 8 v))
    ∙ append_assoc buf (0x01 ∷ to_le 8 v) (0xFF ∷ [])

heads_eq : {x y : ℕ} {a b : Bytes} → x ∷ a ≡ y ∷ b → x ≡ y
heads_eq e = cc e

tails_eq : {x y : ℕ} {a b : Bytes} → x ∷ a ≡ y ∷ b → a ≡ b
tails_eq e = cc e

text_parts :
    (a r : Bytes)
    → to_le 4 (length a % u32) ++ (a ++ 0xFF ∷ []) ++ r
      ≡ to_le 4 (length a % u32) ++ (a ++ (0xFF ∷ r))
text_parts a r =
    append_assoc (to_le 4 (length a % u32)) (a ++ 0xFF ∷ []) r
    ∙ ap (◌++◌ (to_le 4 (length a % u32))) (append_assoc a (0xFF ∷ []) r)

-- A key begins with one cell only.
cell_key_cancel :
    (c d : Cell) (r s : Bytes)
    → CellFits c
    → CellFits d
    → cell_key c ++ r ≡ cell_key d ++ s
    → (c ≡ d) × (r ≡ s)
unfolding cell_key
cell_key_cancel null_cell null_cell r s hc hd e = (refl, cc e)
cell_key_cancel null_cell (text_cell b) r s hc hd e = absurd (omega (arith, heads_eq e))
cell_key_cancel null_cell (number_cell w) r s hc hd e = absurd (omega (arith, heads_eq e))
cell_key_cancel (text_cell a) null_cell r s hc hd e = absurd (omega (arith, heads_eq e))
cell_key_cancel (text_cell a) (text_cell b) r s hc hd e =
    let apart : to_le 4 (length a % u32) ++ (a ++ (0xFF ∷ r))
        ≡ to_le 4 (length b % u32) ++ (b ++ (0xFF ∷ s)) =
      sym (text_parts a r) ∙ tails_eq e ∙ text_parts b s in
    let (sizes, texts) =
      word_cancel 4 (length a % u32) (length b % u32) (a ++ (0xFF ∷ r)) (b ++ (0xFF ∷ s))
        (omega arith) (omega arith) apart in
    let (same, rest) = text_cancel a b (0xFF ∷ r) (0xFF ∷ s) (omega (arith, sizes, hc, hd)) texts in
    (ap text_cell same, tails_eq rest)
cell_key_cancel (text_cell a) (number_cell w) r s hc hd e = absurd (omega (arith, heads_eq e))
cell_key_cancel (number_cell v) null_cell r s hc hd e = absurd (omega (arith, heads_eq e))
cell_key_cancel (number_cell v) (text_cell b) r s hc hd e = absurd (omega (arith, heads_eq e))
cell_key_cancel (number_cell v) (number_cell w) r s hc hd e =
    let apart : to_le 8 v ++ (0xFF ∷ r) ≡ to_le 8 w ++ (0xFF ∷ s) =
      sym (append_assoc (to_le 8 v) (0xFF ∷ []) r)
      ∙ tails_eq e
      ∙ append_assoc (to_le 8 w) (0xFF ∷ []) s in
    let (same, rest) = word_cancel 8 v w (0xFF ∷ r) (0xFF ∷ s) hc hd apart in
    (ap number_cell same, tails_eq rest)

-- The key of a row on its own.
row_key : List Cell → Bytes
row_key [] = []
row_key (c ∷ cs) = cell_key c ++ row_key cs

key_of-row_key : (buf : Bytes) (cs : List Cell) → key_of buf cs ≡ buf ++ row_key cs
unfolding key_of row_key
key_of-row_key buf [] = sym (append-nil buf)
key_of-row_key buf (c ∷ cs) =
    key_of-row_key (append_cell buf c) cs
    ∙ ap (λ b. b ++ row_key cs) (append_cell-cell_key buf c)
    ∙ append_assoc buf (cell_key c) (row_key cs)

row_key_cancel :
    (cs ds : List Cell)
    → All CellFits cs
    → All CellFits ds
    → length cs ≡ length ds
    → row_key cs ≡ row_key ds
    → cs ≡ ds
unfolding row_key
row_key_cancel [] [] hc hd n e = refl
row_key_cancel [] (d ∷ ds) hc hd n e = absurd (omega (arith, n))
row_key_cancel (c ∷ cs) [] hc hd n e = absurd (omega (arith, n))
row_key_cancel (c ∷ cs) (d ∷ ds) (hc, hcs) (hd, hds) n e =
    let (same, rest) = cell_key_cancel c d (row_key cs) (row_key ds) hc hd e in
    ap₂ ◌∷◌ same (row_key_cancel cs ds hcs hds (omega (arith, n)) rest)

-- Two rows of as many columns, with strings below 4 GiB and numbers of 64 bits, have the same
-- Distinct key only if every cell is the same.
pub key_of_injective :
    (cs ds : List Cell)
    → All CellFits cs
    → All CellFits ds
    → length cs ≡ length ds
    → key_of [] cs ≡ key_of [] ds
    → cs ≡ ds
key_of_injective cs ds hc hd n e =
    row_key_cancel cs ds hc hd n (sym (key_of-row_key [] cs) ∙ e ∙ key_of-row_key [] ds)
