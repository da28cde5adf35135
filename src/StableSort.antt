-- ===== src/StableSort.antt =====
-- A stable sort, as an instance of what the sort operator asks of `sort.SliceStable`.
use vexq.Prelude.{
  ◌>>=◌, if◌then◌else◌, Bool-cases, All, Result, ok, ◌≡◌, refl, ◌∙◌, inl, inr, Bool, false, List,
  [], ◌∷◌, arith,
}
use mathlib.Core.List.{Perm}
use mathlib.Core.List.Perm
use vexq.Exec.Sort.{SortRow}
use vexq.Exec.Sort.Keys.{IsStrictWeak}
use vexq.Exec.Sort.Sorted.{ties, InOrder, AnswersOn, IsStableSort}

-- A row goes in before the first that is not before it.
insert_row : (SortRow → SortRow → Result Bool) → SortRow → List SortRow → Result (List SortRow)
insert_row test x [] = ok (x ∷ [])
insert_row test x (y ∷ ys) = do
  below ← test y x
  let later = (do zs ← insert_row test x ys; ok (y ∷ zs))
  if below then later else ok (x ∷ y ∷ ys)

pub insertion_sort : (SortRow → SortRow → Result Bool) → List SortRow → Result (List SortRow)
unfolding insert_row
insertion_sort test [] = ok []
insertion_sort test (x ∷ xs) = do ys ← insertion_sort test xs; insert_row test x ys

module _ (before : SortRow → SortRow → Bool) where
  insert_by : SortRow → List SortRow → List SortRow
  insert_by x [] = x ∷ []
  insert_by x (y ∷ ys) = let later = insert_by x ys in if before y x then y ∷ later else x ∷ y ∷ ys

  sort_by : List SortRow → List SortRow
  unfolding insert_by
  sort_by [] = []
  sort_by (x ∷ xs) = insert_by x (sort_by xs)

  All-insert_by :
      (P : SortRow → Type 0) (x : SortRow) (ys : List SortRow)
      → P x
      → All P ys
      → All P (insert_by x ys)
  unfolding insert_by
  All-insert_by P x [] h hs = (h, tt)
  All-insert_by P x (y ∷ ys) h (h', hs) = elim (Bool-cases (before y x)) [
    | inl e ↦ rw e (h', All-insert_by P x ys h hs)
    | inr e ↦ rw e (h, (h', hs))
  ]

  All-sort_by : (P : SortRow → Type 0) (xs : List SortRow) → All P xs → All P (sort_by xs)
  unfolding sort_by
  All-sort_by P [] h = tt
  All-sort_by P (x ∷ xs) (h, hs) = All-insert_by P x (sort_by xs) h (All-sort_by P xs hs)

  insert_row-insert_by :
      (test : SortRow → SortRow → Result Bool) (x : SortRow) (ys : List SortRow)
      → All (λ y. test y x ≡ ok (before y x)) ys
      → insert_row test x ys ≡ ok (insert_by x ys)
  unfolding insert_by insert_row
  insert_row-insert_by test x [] h = refl
  insert_row-insert_by test x (y ∷ ys) (h, hs) = elim (Bool-cases (before y x)) [
    | inl e ↦ rw (h, e, insert_row-insert_by test x ys hs) refl
    | inr e ↦ rw (h, e) refl
  ]

  perm-insert_by : (x : SortRow) (ys : List SortRow) → Perm (x ∷ ys) (insert_by x ys)
  unfolding insert_by
  perm-insert_by x [] = Perm.rfl
  perm-insert_by x (y ∷ ys) = elim (Bool-cases (before y x)) [
    | inl e ↦ rw e (Perm.trans (Perm.swap y x ys) (Perm.cons y (perm-insert_by x ys)))
    | inr e ↦ rw e Perm.rfl
  ]

  perm-sort_by : (xs : List SortRow) → Perm xs (sort_by xs)
  unfolding sort_by
  perm-sort_by [] = Perm.rfl
  perm-sort_by (x ∷ xs) = Perm.trans (Perm.cons x (perm-sort_by xs)) (perm-insert_by x (sort_by xs))

  module _ (weak : IsStrictWeak before) where
    insert_by-InOrder :
        (x : SortRow) (ys : List SortRow) → InOrder before ys → InOrder before (insert_by x ys)
    unfolding insert_by
    insert_by-InOrder x [] h = (tt, tt)
    insert_by-InOrder x (y ∷ ys) (h, hs) = elim (Bool-cases (before y x)) [
      | inl e ↦ rw e (
        All-insert_by (λ z. before z y ≡ false) x ys (weak.asym y x e) h,
        insert_by-InOrder x ys hs,
      )
      | inr e ↦ rw e ((e, behind ys e h), (h, hs))
    ]
      where
        behind :
            (zs : List SortRow)
            → before y x ≡ false
            → All (λ z. before z y ≡ false) zs
            → All (λ z. before z x ≡ false) zs
        behind [] e h = tt
        behind (z ∷ zs) e (h, hs) = (ground (arith, weak.cotrans z y x), behind zs e hs)

    sort_by-InOrder : (xs : List SortRow) → InOrder before (sort_by xs)
    unfolding sort_by
    sort_by-InOrder [] = tt
    sort_by-InOrder (x ∷ xs) = insert_by-InOrder x (sort_by xs) (sort_by-InOrder xs)

    ties-insert_by :
        (r x : SortRow) (ys : List SortRow)
        → ties before r (insert_by x ys) ≡ ties before r (x ∷ ys)
    unfolding insert_by
    ties-insert_by r x [] = refl
    ties-insert_by r x (y ∷ ys) = elim (Bool-cases (before y x)) [
      | inl e ↦ rw (e, ties-insert_by r x ys) (ground (arith, e, weak.cotrans y r x))
      | inr e ↦ rw e refl
    ]

    ties-sort_by : (r : SortRow) (xs : List SortRow) → ties before r (sort_by xs) ≡ ties before r xs
    unfolding sort_by
    ties-sort_by r [] = refl
    ties-sort_by r (x ∷ xs) = ties-insert_by r x (sort_by xs) ∙ rw (ties-sort_by r xs) refl

  insertion_sort-sort_by :
      (test : SortRow → SortRow → Result Bool) (xs : List SortRow)
      → AnswersOn test before xs
      → insertion_sort test xs ≡ ok (sort_by xs)
  unfolding insertion_sort sort_by
  insertion_sort-sort_by test [] h = refl
  insertion_sort-sort_by test (x ∷ xs) (h, hs) =
      rw (insertion_sort-sort_by test xs (tails xs hs))
        (insert_row-insert_by test x (sort_by xs) (All-sort_by _ xs (heads xs hs)))
    where
      tails :
          (ys : List SortRow)
          → All (λ a. All (λ b. test a b ≡ ok (before a b)) (x ∷ xs)) ys
          → All (λ a. All (λ b. test a b ≡ ok (before a b)) xs) ys
      tails [] h = tt
      tails (y ∷ ys) (h, hs) = (h.1, tails ys hs)

      heads :
          (ys : List SortRow)
          → All (λ a. All (λ b. test a b ≡ ok (before a b)) (x ∷ xs)) ys
          → All (λ y. test y x ≡ ok (before y x)) ys
      heads [] h = tt
      heads (y ∷ ys) (h, hs) = (h.0, heads ys hs)

pub insertion_sort-IsStableSort : IsStableSort insertion_sort
insertion_sort-IsStableSort = record {
  sorts = λ test before rows weak h. (
    sort_by before rows,
    insertion_sort-sort_by before test rows h,
    record {
      perm = perm-sort_by before rows;
      in_order = sort_by-InOrder before weak rows;
      stable = λ r. ties-sort_by before weak r rows;
    },
  );
}
