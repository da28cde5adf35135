-- ===== src/Exec/Select.antt =====
-- exec/expr.go (`BoolToSelVecInto`) and exec/filter.go (`Filter.Next`). The predicate's `Eval` is a
-- parameter; an error or a panic of it ends the call.
pub mod Drain
use vexq.Storage.Bitmap.Laws.{is_null_bit-null_at, null_at}
use vexq.Storage.Bitmap.{is_null_bit}
use vexq.Prelude.{
  ◌>>=◌, if◌then◌else◌, Bool-cases, length, All, Result, ok, err, panic, ℕ, zero, suc, ◌+◌, ◌%◌,
  ◌^◌, ◌≤◌, ◌<◌, ◌≡◌, refl, ◌≢◌, ◌⊎◌, inl, inr, Bool, false, Option, none, some, List, [], ◌∷◌,
  ◌++◌, map, arith,
}
use vexq.Exec.Limit.{Batch}
use vexq.Exec.Vector.{BoolVector, get_value, truth, HasRows, HasRows-bits, HasRows-nulls}

-- The rows of the list that are TRUE, as uint16 indices.
unfoldable pub select_rows : BoolVector → List ℕ → Result (List ℕ)
select_rows bv [] = ok []
select_rows bv (i ∷ rows) = do
  null ← is_null_bit bv.null_bitmap i
  val ← (if null then ok false else get_value bv i)
  later ← select_rows bv rows
  ok (if val then (i % 2 ^ 16) ∷ later else later)

unfoldable pub count_up : ℕ → ℕ → List ℕ
count_up from zero = []
count_up from (suc n) = from ∷ count_up (from + 1) n

-- The rows that a predicate is asked about.
unfoldable pub asked_rows : {V : Type 0} → Batch V → BoolVector → List ℕ
unfolding count_up
asked_rows b bv = elim b.sel_vec [ none ↦ count_up 0 bv.rows | some sel ↦ sel ]

unfoldable pub bool_to_sel_vec : {V : Type 0} → Batch V → BoolVector → Result (List ℕ)
unfolding select_rows asked_rows
bool_to_sel_vec b bv = select_rows bv (asked_rows b bv)

-- The batch with the selection, or the next one if nothing is selected.
module _ {V : Type 0} (eval : Batch V → Result BoolVector) where
  pub kept : Batch V → List ℕ → Batch V
  kept batch sel = record batch { sel_vec = some sel; rows = length sel }

  -- A result of `Next`, and the child after it.
  abbrev pub Out : Type 0
  Out = Result (Option (Batch V)) × List (Result (Batch V))

  settle : Batch V → List (Result (Batch V)) → Out → Result (List ℕ) → Out
  unfolding kept
  settle batch child later (err e) = (err e, child)
  settle batch child later panic = (panic, child)
  settle batch child later (ok []) = later
  settle batch child later (ok (i ∷ sel)) = (ok (some (kept batch (i ∷ sel))), child)

  on_batch : Batch V → List (Result (Batch V)) → Out → Out
  unfolding settle
  on_batch batch child later =
      settle batch child later (do bv ← eval batch; bool_to_sel_vec batch bv)

  on_batch-some :
      (b : Batch V) (bv : BoolVector) (i : ℕ) (sel : List ℕ) (child : List (Result (Batch V)))
      (later : Out)
      → eval b ≡ ok bv
      → bool_to_sel_vec b bv ≡ ok (i ∷ sel)
      → on_batch b child later ≡ (ok (some (kept b (i ∷ sel))), child)
  unfolding on_batch
  on_batch-some b bv i sel child later e e' = rw (e, e') refl

  unfoldable pub filter_next : List (Result (Batch V)) → Out
  unfolding on_batch
  filter_next [] = (ok none, [])
  filter_next (err e ∷ child) = (err e, child)
  filter_next (panic ∷ child) = (panic, child)
  filter_next (ok batch ∷ child) = on_batch batch child (filter_next child)

is_true : Option Bool → Bool
is_true none = false
is_true (some b) = b

-- The rows of a list that the predicate says are TRUE.
pub true_rows : BoolVector → List ℕ → List ℕ
true_rows bv [] = []
true_rows bv (i ∷ rows) = if is_true (truth bv i) then i ∷ true_rows bv rows else true_rows bv rows

select_rows-true_rows :
    (n : ℕ) (bv : BoolVector) (rows : List ℕ)
    → HasRows n bv
    → n ≤ 2 ^ 16
    → All (λ i. i < n) rows
    → select_rows bv rows ≡ ok (true_rows bv rows)
unfolding select_rows true_rows is_true truth get_value
select_rows-true_rows n bv [] h small hs = refl
select_rows-true_rows n bv (i ∷ rows) h small (hi, hs) =
    let null : is_null_bit bv.null_bitmap i ≡ ok (null_at bv.null_bitmap i) =
      is_null_bit-null_at i (HasRows-nulls n bv h) hi in
    let bit : is_null_bit bv.bits i ≡ ok (null_at bv.bits i) =
      is_null_bit-null_at i (HasRows-bits n bv h) hi in
    let rest : select_rows bv rows ≡ ok (true_rows bv rows) =
      select_rows-true_rows n bv rows h small hs in
    let fits : i % 2 ^ 16 ≡ i = omega arith in
    elim (Bool-cases (null_at bv.null_bitmap i)) [
      | inl e ↦ rw (null, e, rest) refl
      | inr e ↦ elim (Bool-cases (null_at bv.bits i)) [
        | inl e' ↦ rw (null, e, bit, e', rest) refl
        | inr e' ↦ rw (null, e, bit, e', rest, fits) refl
      ]
    ]

module _ {V : Type 0} (eval : Batch V → Result BoolVector) (pred : Batch V → BoolVector) where
  -- The predicate has a value for every row that the batch selects, of at most 2^16.
  pub record IsJudged (b : Batch V) : Type 0 where
    pub answer : eval b ≡ ok (pred b)
    pub count : ℕ
    pub rows : HasRows count (pred b)
    pub small : count ≤ 2 ^ 16
    pub inside : All (λ i. i < count) (asked_rows b (pred b))

  -- The rows that survive.
  abbrev pub survivors : Batch V → List ℕ
  survivors b = true_rows (pred b) (asked_rows b (pred b))

  pub select_survivors : (b : Batch V) → IsJudged b → bool_to_sel_vec b (pred b) ≡ ok (survivors b)
  unfolding bool_to_sel_vec
  select_survivors b g =
      select_rows-true_rows g.count (pred b) (asked_rows b (pred b)) g.rows g.small g.inside

  -- Nothing survives in any batch, or the first batch with a survivor comes out.
  abbrev pub FirstKept : List (Batch V) → Type 0
  FirstKept bs =
      (All (λ b. survivors b ≡ []) bs × (filter_next eval (map ok bs) ≡ (ok none, [])))
      ⊎ ((skipped : List (Batch V)) × (b : Batch V) × (rest : List (Batch V)) × (bs
            ≡ skipped ++ b ∷ rest)
          × All (λ b. survivors b ≡ []) skipped
          × (survivors b ≢ [])
          × (filter_next eval (map ok bs) ≡ (ok (some (kept eval b (survivors b))), map ok rest)))
