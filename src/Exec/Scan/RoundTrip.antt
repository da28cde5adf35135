-- ===== src/Exec/Scan/RoundTrip.antt =====
-- What a writer's section of words gives to a scan: the cells that were written.
use vexq.Prelude.{
  ◌>>=◌, leb, ◌==◌, if◌then◌else◌, length, length-append, take, drop, length-take, length-drop, All,
  Bytes, eof, Result, ok, err, ℕ, zero, suc, ◌+◌, ◌-◌, ◌/◌, ◌^◌, ◌≤◌, ◌<◌, min, ◌≡◌, refl, sym, ap,
  ap₂, ◌∙◌, subst, Bool, true, Option, none, some, List, [], ◌∷◌, ◌++◌, append-nil, append_assoc,
  arith,
}
use Prim.Native.Nat.{zero, suc}
use mathlib.Core.Option
use vexq.Storage.Bitmap.Laws.{null_at, Covers}
use vexq.Storage.Schema.{block_rows, type_bool}
use vexq.Storage.Blocks.{write_blocks, fixed_block, note_rows}
use vexq.Storage.Blocks.Rows.{sub_bitmap-Cut, noted, note_rows-noted}
use vexq.Storage.Column.{ColumnReader, next_block}
use vexq.Exec.Predicates.{Vector}
use vexq.Exec.Scan.{column_block, from_block}
use vexq.Exec.Scan.Blocks.{block_bytes, fixed_block-block_bytes}
use vexq.Exec.Scan.Steps.{Stands}
use vexq.Exec.Scan.Cells.{
  cells, column_cells, gather, vector_cells, IsWordType, next_block-Gives, column_block-Gives,
}

cells-cut :
    (f : ℕ → Bool) (k i : ℕ) (vs : List ℕ)
    → cells f i (take k vs) ++ cells f (i + k) (drop k vs) ≡ cells f i vs
unfolding cells
cells-cut f zero i vs = ap (λ n. cells f n vs) (omega arith)
cells-cut f (suc k) i [] = refl
cells-cut f (suc k) i (v ∷ vs) =
    let e : i + suc k ≡ i + 1 + k = omega arith in
    ap (◌∷◌ (if f i then none else some v))
      (ap (λ n. cells f (i + 1) (take k vs) ++ cells f n (drop k vs)) e ∙ cells-cut f k (i + 1) vs)

-- Flags that agree row by row give the same cells.
cells-same :
    (f g : ℕ → Bool) (i j : ℕ) (vs : List ℕ)
    → ((n : ℕ) → n < length vs → f (i + n) ≡ g (j + n))
    → cells f i vs ≡ cells g j vs
unfolding cells
cells-same f g i j [] h = refl
cells-same f g i j (v ∷ vs) h =
    let here : f i ≡ g j = ap f (omega arith) ∙ h 0 (omega arith) ∙ ap g (omega arith) in
    ap₂ (λ b cs. (if b then none else some v) ∷ cs) here
      (cells-same f g (i + 1) (j + 1) vs
        (λ n m. ap f (omega arith) ∙ h (suc n) (omega arith) ∙ ap g (omega arith)))

All-take {ℓ κ} : {A : Type ℓ} (P : A → Type κ) (k : ℕ) (xs : List A) → All P xs → All P (take k xs)
All-take P zero xs h = tt
All-take P (suc k) [] h = tt
All-take P (suc k) (x ∷ xs) (h, hs) = (h, All-take P k xs hs)

All-drop {ℓ κ} : {A : Type ℓ} (P : A → Type κ) (k : ℕ) (xs : List A) → All P xs → All P (drop k xs)
All-drop P zero xs h = h
All-drop P (suc k) [] h = tt
All-drop P (suc k) (x ∷ xs) (h, hs) = All-drop P k xs hs

-- The section `more` gives these cells to a reader that stands at its start and has its rows to read.
abbrev pub GivesBack : ℕ → ℕ → Bytes → List (Option ℕ) → ℕ → Type 0
GivesBack t k more cs rows =
    (cr : ColumnReader) (before after : Bytes) (n : ℕ)
    → cr.data_type ≡ t
    → Stands cr k before (length more)
    → cr.file ≡ before ++ (more ++ after)
    → cr.total_rows - cr.rows_done ≡ rows
    → rows < n
    → column_cells n t cr ≡ some cs

module _ {t k : ℕ} {vector : List ℕ → Bytes → Vector} (is_word : IsWordType t k vector) where
  GivesBack-nothing : GivesBack t k [] [] 0
  unfolding column_cells
  GivesBack-nothing cr before after zero dt st file left fuel = absurd (omega arith)
  GivesBack-nothing cr before after (suc n) dt st file left fuel =
      let over : leb cr.total_rows cr.rows_done ≡ true = ground arith in
      let e : next_block cr ≡ (err eof, cr) = unfold next_block in rw over refl in
      unfold gather column_block from_block in
      ap (λ r. gather (column_cells n t) (from_block t r)) e

  -- A block before the rest of a section.
  GivesBack-block :
      (vals : List ℕ) (bm more : Bytes) (cs : List (Option ℕ)) (rows : ℕ)
      → length bm ≡ (length vals + 7) / 8
      → length vals ≡ min rows block_rows
      → 0 < length vals
      → All (λ v. v < 256 ^ k) vals
      → GivesBack t k more cs (rows - length vals)
      → GivesBack t k (block_bytes k vals bm ++ more) (vector_cells (vector vals bm) ++ cs) rows
  unfolding column_cells
  GivesBack-block vals bm more cs rows size len some_rows fit rest cr before after zero dt st file
        left fuel =
      absurd (omega arith)
  GivesBack-block vals bm more cs rows size len some_rows fit rest cr before after (suc n) dt st
        file left fuel =
      let b : Bytes = block_bytes k vals bm in
      let both : length (b ++ more) ≡ length b + length more = length-append b more in
      let split : cr.file ≡ before ++ (b ++ (more ++ after)) =
        file ∙ ap (before ++◌) (append_assoc b more after) in
      let (w, start, buffered, e) =
        next_block-Gives cr k vals bm before (more ++ after)
          (record {
            place = st.place;
            buffered = st.buffered;
            low = st.low;
            fits = omega (arith, st.fits, both);
            inside = st.inside;
            size = st.size;
          })
          split size (omega (arith, len, left)) some_rows
          (ap (λ x. x == type_bool) dt ∙ is_word.not_bool) in
      let cr' : ColumnReader = record cr {
        rows_done = cr.rows_done + length vals;
        win = w;
        win_start = start;
        pos = cr.pos + length b;
      } in
      let read = column_block-Gives is_word cr cr' vals bm e size fit in
      let later : column_cells n t cr' ≡ some cs =
        rest cr' (before ++ b) after n dt
          (record {
            place = omega (arith, st.place, length-append before b);
            buffered = buffered;
            low = omega (arith, st.low);
            fits = omega (arith, st.fits, both, length-append before b);
            inside = st.inside;
            size = st.size;
          })
          (split ∙ sym (append_assoc before b (more ++ after))) (omega (arith, left))
          (omega (arith, some_rows)) in
      ap (gather (column_cells n t)) read
      ∙ ap (Option.map (λ m. vector_cells (vector vals bm) ++ m)) later

  module _ {St : Type 0} (note : St → ℕ → St) (note_null : St → St) where
    -- The blocks of a section, written behind `out`, give the cells back.
    pub write_blocks-GivesBack :
        (nulls : Bytes) (total fuel start : ℕ) (rest : List ℕ) (out : Bytes) (st : St)
        → Covers nulls total
        → length rest ≡ total - start
        → length rest ≤ fuel
        → All (λ v. v < 256 ^ k) rest
        → (more : Bytes) × (st' : St) × (write_blocks note note_null
              (fixed_block k)
              nulls
              fuel
              start
              rest
              out
              st
            ≡ ok (out ++ more, st'))
          × GivesBack t k more (cells (null_at nulls) start rest) (length rest)
    unfolding write_blocks
    write_blocks-GivesBack nulls total zero start [] out st c m h fit =
        ([], st, ap (λ b. ok (b, st)) (sym (append-nil out)), unfold cells in GivesBack-nothing)
    write_blocks-GivesBack nulls total (suc fuel) start [] out st c m h fit =
        ([], st, ap (λ b. ok (b, st)) (sym (append-nil out)), unfold cells in GivesBack-nothing)
    write_blocks-GivesBack nulls total zero start (v ∷ vs) out st c m h fit = absurd (omega arith)
    write_blocks-GivesBack nulls total (suc fuel) start (v ∷ vs) out st c m h fit =
        let vals : List ℕ = take block_rows (v ∷ vs) in
        let later : List ℕ = drop block_rows (v ∷ vs) in
        let f : ℕ → Bool = null_at nulls in
        let n : length vals ≡ min block_rows (suc (length vs)) = length-take block_rows (v ∷ vs) in
        let left : length later ≡ suc (length vs) - block_rows = length-drop block_rows (v ∷ vs) in
        let (sub, r, cut) =
          sub_bitmap-Cut nulls start (length vals)
            (record { bytes = c.bytes; enough = omega (arith, c.enough, n) }) in
        let b : Bytes = block_bytes k vals sub in
        let e : fixed_block k vals sub ≡ ok b =
          fixed_block-block_bytes k vals sub (omega (arith, cut.size, n)) in
        let marked : note_rows note note_null sub 0 vals st
            ≡ ok (noted note note_null f (start + 0) vals st) =
          note_rows-noted note note_null f start sub (length vals) 0 vals st cut.covers cut.same
            (omega arith) in
        let st1 : St = noted note note_null f (start + 0) vals st in
        let (more, st', q, back) =
          write_blocks-GivesBack nulls total fuel (start + block_rows) later (out ++ b) st1 c
            (omega (arith, left, m)) (omega (arith, left, h))
            (All-drop _ block_rows (v ∷ vs) fit) in
        let round : Bytes → Result (Bytes × St) = λ bm. (do
          bytes ← fixed_block k vals bm
          st ← note_rows note note_null bm 0 vals st
          write_blocks note note_null (fixed_block k) nulls fuel (start + block_rows) later
              (out ++ bytes) st) in
        let step : round sub ≡ ok ((out ++ b) ++ more, st') = rw (e, marked) q in
        let same : vector_cells (vector vals sub) ++ cells f (start + block_rows) later
            ≡ cells f start (v ∷ vs) =
          ap (λ cs. cs ++ cells f (start + block_rows) later)
            (is_word.shows vals sub
              ∙ cells-same (null_at sub) f 0 start vals
                  (λ j hj. ap (null_at sub) (omega arith) ∙ cut.same j hj))
          ∙ cells-cut f block_rows start (v ∷ vs) in
        (
          b ++ more,
          st',
          ap (λ b. b >>= round) r ∙ step ∙ ap (λ x. ok (x, st')) (append_assoc out b more),
          subst (λ cs. GivesBack t k (b ++ more) cs (suc (length vs))) same
              (GivesBack-block vals sub more (cells f (start + block_rows) later) (suc (length vs))
                cut.size (omega (arith, n)) (omega (arith, n)) (All-take _ block_rows (v ∷ vs) fit)
                (subst (λ k'. GivesBack t k more (cells f (start + block_rows) later) k')
                  (omega (arith, left, n)) back)),
        )
