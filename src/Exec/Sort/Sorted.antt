-- ===== src/Exec/Sort/Sorted.antt =====
-- `consumeAndSort` over a child without errors.
use vexq.Prelude.{
  if◌then◌else◌, length, All, Result, ok, ℕ, ◌<◌, ◌≡◌, refl, subst, Bool, false, ◌||◌, List, [],
  ◌∷◌, map,
}
use mathlib.Core.List.{Perm}
use vexq.Exec.Limit.{Batch}
use vexq.Exec.Compare.{Order}
use vexq.Exec.Predicates.{Vector}
use vexq.Exec.Sort.{SortRow, less}
use vexq.Exec.Sort.Keys.{IsStrictWeak, IsFloatOrder, HasCells}
use vexq.Exec.Sort.Lexical.{row_before, row_before-IsStrictWeak, less_lem}
use vexq.Exec.Sort.Operator.{ExternalSort, consume, consume_and_sort, sorted, consumed}
use vexq.Exec.Sort.Consumed.{FitsType, Gives, child_rows, child_rows-HasCells, consume-child_rows}

-- The rows that are not before or behind `r`, in their order.
abbrev pub ties : (SortRow → SortRow → Bool) → SortRow → List SortRow → List SortRow
ties before r [] = []
ties before r (x ∷ xs) =
    let later = ties before r xs in if before r x || before x r then later else x ∷ later

-- No row is before one that it stands behind.
abbrev pub InOrder : (SortRow → SortRow → Bool) → List SortRow → Type 0
InOrder before [] = Unit
InOrder before (x ∷ xs) = All (λ y. before y x ≡ false) xs × InOrder before xs

-- The rows in an order, with ties as they were.
pub record IsSortOf (before : SortRow → SortRow → Bool) (rows out : List SortRow) : Type 0 where
  pub perm : Perm rows out
  pub in_order : InOrder before out
  pub stable : (r : SortRow) → ties before r out ≡ ties before r rows

-- The test answers on all pairs of the rows.
abbrev pub AnswersOn :
    (SortRow → SortRow → Result Bool) → (SortRow → SortRow → Bool) → List SortRow → Type 0
AnswersOn test before rows = All (λ a. All (λ b. test a b ≡ ok (before a b)) rows) rows

abbrev pub SliceStable : Type 0
SliceStable = (SortRow → SortRow → Result Bool) → List SortRow → Result (List SortRow)

-- What `sort.SliceStable` does, given a test that answers on the rows as a strict weak order does.
pub record IsStableSort (slice_stable : SliceStable) : Type 0 where
  pub sorts :
      (test : SortRow → SortRow → Result Bool) (before : SortRow → SortRow → Bool)
      (rows : List SortRow)
      → IsStrictWeak before
      → AnswersOn test before rows
      → (out : List SortRow) × (slice_stable test rows ≡ ok out) × IsSortOf before rows out

All-of : {A : Type 0} (P Q : A → Type 0) (xs : List A) → ((a : A) → P a → Q a) → All P xs → All Q xs
All-of P Q [] f all = tt
All-of P Q (x ∷ xs) f (h, hs) = (f x h, All-of P Q xs f hs)

module _ (floats : Order) (is_nan : ℕ → Bool) (is_order : IsFloatOrder floats is_nan)
    (slice_stable : SliceStable) (is_stable : IsStableSort slice_stable) where
  -- Where the child yields batches of well-typed words and every cell of theirs is read, the keys
  -- are within the schema, float64 comparison is as IEEE 754 has it and sort.SliceStable sorts
  -- stably, consumeAndSort succeeds, uses the child up and holds a permutation of its rows, in the
  -- order of the keys, with ties in the order of the child.
  pub consume_and_sort-IsSortOf :
      (s : ExternalSort) (bs : List (Batch (List Vector))) (rows : List SortRow)
      → s.child ≡ map ok bs
      → s.rows ≡ []
      → All (λ key. key.col_idx < length s.fields) s.keys
      → All (λ b. All FitsType b.vectors) bs
      → child_rows s.fields bs ≡ ok rows
      → (out : List SortRow) × (consume_and_sort floats is_nan slice_stable s
          ≡ (ok tt, record s { child = []; rows = out }))
        × IsSortOf (row_before floats is_nan s.fields s.keys) rows out
  unfolding consume_and_sort consumed sorted
  consume_and_sort-IsSortOf s bs rows child none_yet inside fit read =
      let cells : All (HasCells s.fields) rows =
        subst (Gives (All (HasCells s.fields))) read (child_rows-HasCells s.fields bs fit) in
      let gathered : consume s.fields (map ok bs) [] ≡ (ok tt, ([], rows)) =
        subst (Gives (λ rows. consume s.fields (map ok bs) [] ≡ (ok tt, ([], rows)))) read
          (consume-child_rows s.fields bs []) in
      let (out, e, is_sort) =
        is_stable.sorts (less floats is_nan s.fields s.keys)
          (row_before floats is_nan s.fields s.keys) rows
          (row_before-IsStrictWeak floats is_nan is_order s.fields s.keys)
          (All-of (HasCells s.fields)
            (λ a.
              All
                (λ b.
                  less floats is_nan s.fields s.keys a b
                  ≡ ok (row_before floats is_nan s.fields s.keys a b))
                rows)
            rows
            (λ a ca.
              All-of (HasCells s.fields)
                (λ b.
                  less floats is_nan s.fields s.keys a b
                  ≡ ok (row_before floats is_nan s.fields s.keys a b))
                rows (λ b cb. less_lem floats is_nan is_order s.fields s.keys inside a b ca cb)
                cells)
            cells) in
      (out, rw (child, none_yet, gathered, e) refl, is_sort)
