-- ===== src/Storage/Rle/Decode.antt =====
-- `decode_rle_bool` fills the rows that its runs describe.
use native.Mathlib.Decide.{ℕ_discrete}
use vexq.Prelude.{
  ltb, ◌==◌, if◌then◌else◌, lt→ltb, length, set, length-set, get_or, Result, ok, ℕ, zero, suc, ◌+◌,
  ◌≤◌, ◌<◌, ◌≡◌, refl, ◌∙◌, ◌≢◌, true, false, not, List, [], ◌∷◌, arith,
}
use vexq.Storage.Rle.{Run, Cursor, put_cell, fill_run, fill_runs, total_rows}
use vexq.Storage.Rle.Encode.{Describes}
use vexq.Storage.Bitmap.Laws.{null_at, Covers, set_null_bit-Writes, get_or-set}

-- Below the cursor the rows hold what `f` says of them, and from it on they are as they were made:
-- valid and false.
pub record Filled (f : ℕ → ℕ) (n : ℕ) (c : Cursor) : Type 0 where
  pub size : length c.values ≡ n
  pub covers : Covers c.nulls n
  pub null_rows : (j : ℕ) → null_at c.nulls j ≡ (if ltb j c.pos then f j == 0xFF else not (ltb j n))
  pub value_rows : (j : ℕ) → get_or c.values j false ≡ (if ltb j c.pos then f j == 1 else false)

-- One row that holds `val`, and the cursor one further.
abbrev pub Steps : (ℕ → ℕ) → ℕ → ℕ → Result Cursor → Type 0
Steps f n pos r = (c : Cursor) × (r ≡ ok c) × (c.pos ≡ pos) × Filled f n c

module _ (f : ℕ → ℕ) (n : ℕ) where
  put_null :
      (c : Cursor)
      → Filled f n c
      → c.pos < n
      → f c.pos ≡ 0xFF
      → Steps f n (c.pos + 1) (put_cell 0xFF c)
  unfolding put_cell
  put_null c h lt e =
      let (bm, r, covers, same_size, writes) = set_null_bit-Writes c.pos h.covers lt in
      rw r (
        record { values = c.values; nulls = bm; pos = c.pos + 1 },
        refl,
        refl,
        record {
          size = h.size;
          covers = covers;
          null_rows = λ j. ground (arith, writes j, h.null_rows j);
          value_rows = λ j. ground (arith, h.value_rows j);
        },
      )

  put_true :
      (c : Cursor) → Filled f n c → c.pos < n → f c.pos ≡ 1 → Steps f n (c.pos + 1) (put_cell 1 c)
  unfolding put_cell
  put_true c h lt e =
      let fits : ltb c.pos (length c.values) ≡ true = rw (h.size) (lt→ltb _ _ lt) in
      rw fits (
        record { values = set c.values c.pos true; nulls = c.nulls; pos = c.pos + 1 },
        refl,
        refl,
        record {
          size = length-set c.values c.pos true ∙ h.size;
          covers = h.covers;
          null_rows = λ j. ground (arith, h.null_rows j);
          value_rows = λ j. ground (arith, h.value_rows j, get_or-set c.values c.pos j true false);
        },
      )

  put_false :
      (c : Cursor) (val : ℕ)
      → Filled f n c
      → c.pos < n
      → f c.pos ≡ val
      → val ≢ 0xFF
      → val ≢ 1
      → Steps f n (c.pos + 1) (put_cell val c)
  unfolding put_cell
  put_false c val h lt e ne ne' = (
    record c { pos = c.pos + 1 },
    ground arith,
    refl,
    record {
      size = h.size;
      covers = h.covers;
      null_rows = λ j. ground (arith, h.null_rows j);
      value_rows = λ j. ground (arith, h.value_rows j);
    },
  )

  put_cell-Steps :
      (c : Cursor) (val : ℕ)
      → Filled f n c
      → c.pos < n
      → f c.pos ≡ val
      → Steps f n (c.pos + 1) (put_cell val c)
  put_cell-Steps c val h lt e = elim (ℕ_discrete val 0xFF) [
    | yes p ↦ rw p (put_null c h lt (e ∙ p))
    | no p ↦ elim (ℕ_discrete val 1) [
      | yes q ↦ rw q (put_true c h lt (e ∙ q))
      | no q ↦ put_false c val h lt e p q
    ]
  ]

  fill_run-Steps :
      (left val : ℕ) (c : Cursor)
      → Filled f n c
      → c.pos + left ≤ n
      → ((j : ℕ) → j < left → f (c.pos + j) ≡ val)
      → Steps f n (c.pos + left) (fill_run left val c)
  unfolding fill_run
  fill_run-Steps zero val c h fits same = (c, refl, omega arith, h)
  fill_run-Steps (suc left) val c h fits same =
      let (c', r, pos, h') =
        put_cell-Steps c val h (omega arith)
          (let e : c.pos + 0 ≡ c.pos = omega arith in rw e at (same 0 (omega arith))) in
      let next : (j : ℕ) → j < left → f (c'.pos + j) ≡ val = λ j hj.
        let e : c.pos + (j + 1) ≡ c'.pos + j = omega arith in
        rw e at (same (j + 1) (omega arith)) in
      let (c'', r', pos', h'') = fill_run-Steps left val c' h' (omega arith) next in
      rw r (c'', r', omega arith, h'')

  pub Describes-le : (rs : List Run) (i : ℕ) → Describes f rs i n → i ≤ n
  Describes-le [] i d = omega arith
  Describes-le (r ∷ rs) i (p, b, v, same, d) = omega (arith, Describes-le rs (i + r.len) d)

  pub fill_runs-Steps :
      (rs : List Run) (c : Cursor)
      → Filled f n c
      → c.pos ≤ n
      → Describes f rs c.pos n
      → Steps f n n (fill_runs rs c)
  unfolding fill_runs
  fill_runs-Steps [] c h le d = (c, refl, d, h)
  fill_runs-Steps (r ∷ rs) c h le (p, b, v, same, d) =
      let (c', e, pos, h') =
        fill_run-Steps r.len r.val c h (Describes-le rs (c.pos + r.len) d) same in
      let (c'', e', pos', h'') =
        fill_runs-Steps rs c' h' (rw pos (Describes-le rs (c.pos + r.len) d)) (rw pos d) in
      rw e (c'', e', pos', h'')

  pub total_rows-Describes : (rs : List Run) (i : ℕ) → Describes f rs i n → i + total_rows rs ≡ n
  unfolding total_rows
  total_rows-Describes [] i d = omega arith
  total_rows-Describes (r ∷ rs) i (p, b, v, same, d) =
      omega (arith, total_rows-Describes rs (i + r.len) d)
