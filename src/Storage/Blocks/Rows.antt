-- ===== src/Storage/Blocks/Rows.antt =====
-- The loop over the blocks of a column, against one pass over its rows.
use vexq.Storage.Blocks.{block_rows, note_rows, sub_bitmap, write_blocks, sub_from}
use vexq.Prelude.{
  All, ◌>>=◌, ltb, ◌==◌, if◌then◌else◌, Bool-cases, length, take, drop, length-take, length-drop,
  length-replicate, Bytes, Result, ok, ℕ, zero, suc, ◌+◌, ◌-◌, ◌/◌, ◌≤◌, ◌<◌, min, ◌≡◌, refl, ap,
  ◌∙◌, inl, inr, Bool, true, false, List, [], ◌∷◌, ◌++◌, arith,
}
use vexq.Storage.Bitmap.{is_null_bit}
use vexq.Storage.Bitmap.Laws.{
  null_at-zeros, All-zeros, null_at, Covers, is_null_bit-null_at, set_valid_bit-Writes,
}

-- A bitmap of `rows` rows, the rows of `bitmap` from `start` on.
pub record Cut (bitmap : Bytes) (start rows : ℕ) (sub : Bytes) : Type 0 where
  pub covers : Covers sub rows
  pub size : length sub ≡ (rows + 7) / 8
  pub same : (j : ℕ) → j < rows → null_at sub j ≡ null_at bitmap (start + j)

module _ (bitmap : Bytes) (start rows : ℕ) (covers : Covers bitmap (start + rows)) where
  -- The rows from `i` on are still null.
  record Partly (i : ℕ) (sub : Bytes) : Type 0 where
    valid : Covers sub rows
    size : length sub ≡ (rows + 7) / 8
    same :
        (j : ℕ) → j < rows → null_at sub j ≡ (if ltb j i then null_at bitmap (start + j) else true)

  sub_from-Cut :
      (left i : ℕ) (sub : Bytes)
      → i + left ≡ rows
      → Partly i sub
      → (sub' : Bytes) × (sub_from left i bitmap start sub ≡ ok sub') × Cut bitmap start rows sub'
  unfolding sub_from
  sub_from-Cut zero i sub e p = (
    sub,
    refl,
    record { covers = p.valid; size = p.size; same = λ j h. p.same j h ∙ ground arith },
  )
  sub_from-Cut (suc left) i sub e p =
      let flag : is_null_bit bitmap (start + i) ≡ ok (null_at bitmap (start + i)) =
        is_null_bit-null_at (start + i) covers (omega arith) in
      elim (Bool-cases (null_at bitmap (start + i))) [
        | inl null ↦
            rw (flag, null)
              (sub_from-Cut left (i + 1) sub (omega arith) (record {
                valid = p.valid;
                size = p.size;
                same = λ j h. p.same j h ∙ later j null;
              }))
        | inr present ↦
            let (sub', r, c, n, at) = set_valid_bit-Writes i p.valid (omega arith) in
            rw (flag, present, r)
              (sub_from-Cut left (i + 1) sub' (omega arith) (record {
                valid = c;
                size = n ∙ p.size;
                same = λ j h. at j ∙ here j present (p.same j h);
              }))
      ]
    where
      later :
          (j : ℕ)
          → null_at bitmap (start + i) ≡ true
          → (if ltb j i then null_at bitmap (start + j) else true)
            ≡ (if ltb j (i + 1) then null_at bitmap (start + j) else true)
      later j null = ground arith

      here :
          (j : ℕ)
          → null_at bitmap (start + i) ≡ false
          → null_at sub j ≡ (if ltb j i then null_at bitmap (start + j) else true)
          → (if i == j then false else null_at sub j)
            ≡ (if ltb j (i + 1) then null_at bitmap (start + j) else true)
      here j present same = ground arith

-- subBitmap of rows that a bitmap of bytes covers does not panic; its row j is row start + j of
-- the bitmap, and it has the bytes for its rows.
pub sub_bitmap-Cut :
    (bitmap : Bytes) (start rows : ℕ)
    → Covers bitmap (start + rows)
    → (sub : Bytes) × (sub_bitmap bitmap start rows ≡ ok sub) × Cut bitmap start rows sub
unfolding sub_bitmap
sub_bitmap-Cut bitmap start rows covers =
    sub_from-Cut bitmap start rows covers rows 0 _ (omega arith) (record {
      valid = record {
        bytes = All-zeros ((rows + 7) / 8);
        enough = rw length-replicate (omega arith);
      };
      size = length-replicate ((rows + 7) / 8) 0;
      same = λ j h. null_at-zeros ((rows + 7) / 8) j ∙ ground arith;
    })

module _ {St A : Type 0} (note : St → A → St) (note_null : St → St) where
  -- The statistics after the rows from `i` on, in one pass; `f` says which rows are null.
  unfoldable pub noted : (ℕ → Bool) → ℕ → List A → St → St
  noted f i [] st = st
  noted f i (v ∷ vs) st = noted f (i + 1) vs (if f i then note_null st else note st v)

  noted-cut :
      (f : ℕ → Bool) (k i : ℕ) (vs : List A) (st : St)
      → noted f (i + k) (drop k vs) (noted f i (take k vs) st) ≡ noted f i vs st
  unfolding noted
  noted-cut f zero i vs st = ap (λ n. noted f n vs st) (omega arith)
  noted-cut f (suc k) i [] st = refl
  noted-cut f (suc k) i (v ∷ vs) st =
      ap
        (λ n.
          noted f n (drop k vs)
            (noted f (i + 1) (take k vs) (if f i then note_null st else note st v)))
        (omega arith)
      ∙ noted-cut f k (i + 1) vs (if f i then note_null st else note st v)

  pub note_rows-noted :
      (f : ℕ → Bool) (start : ℕ) (bm : Bytes) (rows i : ℕ) (vs : List A) (st : St)
      → Covers bm rows
      → ((j : ℕ) → j < rows → null_at bm j ≡ f (start + j))
      → i + length vs ≡ rows
      → note_rows note note_null bm i vs st ≡ ok (noted f (start + i) vs st)
  unfolding note_rows noted
  note_rows-noted f start bm rows i [] st c same e = refl
  note_rows-noted f start bm rows i (v ∷ vs) st c same e =
      rw (is_null_bit-null_at i c (omega arith), same i (omega arith))
        (note_rows-noted f start bm rows (i + 1) vs _ c same (omega arith)
          ∙ ap (λ n. ok (noted f n vs (if f (start + i) then note_null st else note st v)))
              (omega arith))

  -- A column whose bitmap covers its rows is written, and the statistics that are kept block by block
  -- are those of one pass over the rows.
  pub write_blocks-noted :
      (block : List A → Bytes → Result Bytes) (nulls : Bytes) (total : ℕ) (fuel start : ℕ)
      (rest : List A) (out : Bytes) (st : St)
      → ((vals : List A) (bm : Bytes)
          → length vals ≤ block_rows
          → Covers bm (length vals)
          → (bytes : Bytes) × (block vals bm ≡ ok bytes))
      → Covers nulls total
      → length rest ≡ total - start
      → length rest ≤ fuel
      → (out' : Bytes) × (write_blocks note note_null block nulls fuel start rest out st
          ≡ ok (out', noted (null_at nulls) start rest st))
  unfolding write_blocks
  write_blocks-noted block nulls total zero start [] out st enc c m h = (out, unfold noted in refl)
  write_blocks-noted block nulls total (suc fuel) start [] out st enc c m h =
      (out, unfold noted in refl)
  write_blocks-noted block nulls total zero start (v ∷ vs) out st enc c m h = absurd (omega arith)
  write_blocks-noted block nulls total (suc fuel) start (v ∷ vs) out st enc c m h =
      let vals : List A = take block_rows (v ∷ vs) in
      let later : List A = drop block_rows (v ∷ vs) in
      let f : ℕ → Bool = null_at nulls in
      let n : length vals ≡ min block_rows (suc (length vs)) = length-take block_rows (v ∷ vs) in
      let left : length later ≡ suc (length vs) - block_rows = length-drop block_rows (v ∷ vs) in
      let (sub, r, cut) =
        sub_bitmap-Cut nulls start (length vals)
          (record { bytes = c.bytes; enough = omega (arith, c.enough, n) }) in
      let (bytes, e) = enc vals sub (omega (arith, n)) cut.covers in
      let marked : note_rows note note_null sub 0 vals st ≡ ok (noted f start vals st) =
        note_rows-noted f start sub (length vals) 0 vals st cut.covers cut.same (omega arith)
        ∙ ap (λ k. ok (noted f k vals st)) (omega arith) in
      let (out', q) =
        write_blocks-noted block nulls total fuel (start + block_rows) later (out ++ bytes)
          (noted f start vals st) enc c (omega (arith, left, m)) (omega (arith, left, h)) in
      let round : Bytes → Result (Bytes × St) = λ bm. (do
        bytes ← block vals bm
        st ← note_rows note note_null bm 0 vals st
        write_blocks note note_null block nulls fuel (start + block_rows) later (out ++ bytes)
            st) in
      let step : round sub ≡ ok (out', noted f (start + block_rows) later (noted f start vals st)) =
        rw (e, marked) q in
      (
        out',
        ap (λ b. b >>= round) r
            ∙ step
            ∙ ap (λ st. ok (out', st)) (noted-cut f block_rows start (v ∷ vs) st),
      )

  -- What a value and a null keep, with the number of rows that are left, a pass keeps.
  pub noted-keeps :
      (P : ℕ → St → Type 0) (V : A → Type 0)
      → ((n : ℕ) (v : A) (st : St) → V v → P (suc n) st → P n (note st v))
      → ((n : ℕ) (st : St) → P (suc n) st → P n (note_null st))
      → (f : ℕ → Bool) (i : ℕ) (vs : List A) (st : St) → All V vs
      → P (length vs) st
      → P 0 (noted f i vs st)
  unfolding noted
  noted-keeps P V k kn f i [] st h p = p
  noted-keeps P V k kn f i (v ∷ vs) st h p = elim (Bool-cases (f i)) [
    | inl e ↦ rw e (noted-keeps P V k kn f (i + 1) vs (note_null st) h.1 (kn (length vs) st p))
    | inr e ↦ rw e (noted-keeps P V k kn f (i + 1) vs (note st v) h.1 (k (length vs) v st h.0 p))
  ]
