-- ===== src/Exec/Limit/Cut.antt =====
-- The rows that `Limit` emits are a cut of its child's rows.
use vexq.Prelude.{
  take_full, All, append-nil, drop_all, drop_some, length-drop, ltb, length-drop, length-map, map,
  subst, sym, Bool-cases, inl, inr, take_all, take_some, drop_all, drop_some, ltb, leb, Bool-cases,
  length, take, drop, length-drop, length-map, All, drop_all, drop_some, take_all, take_some, ok, ℕ,
  zero, suc, ◌-◌, ◌≡◌, refl, sym, ap, ◌∙◌, subst, ◌⊎◌, inl, inr, true, Option, none, some, List, [],
  ◌∷◌, ◌++◌, map, append-nil, arith,
}
use vexq.Exec.Limit.Rows.{selected, rows_of, IsValid, keep_rows-Keeps}
use vexq.Exec.Limit.{is_spent, Batch, Limit, Step, pass, cut, emit, emit_kept, next_from, next}

module _ {V : Type 0} where
  -- The rows of all batches, until nil.
  pub data Yields : Limit V → List (V × ℕ) → Type 0 where
    finished : (l : Limit V) → (next l).0 ≡ ok none → Yields l []
    batch :
        (l l' : Limit V) (b : Batch V) (rows : List (V × ℕ))
        → next l ≡ (ok (some b), l')
        → Yields l' rows
        → Yields l (rows_of b ++ rows)

  -- As `Yields`, after one step.
  abbrev Gives : Step V → List (V × ℕ) → Type 0
  Gives s rows =
      ((s.0 ≡ ok none) × (rows ≡ []))
      ⊎ ((b : Batch V) × (l' : Limit V) × (rest : List (V × ℕ)) × (s ≡ (ok (some b), l'))
          × Yields l' rest
          × (rows ≡ rows_of b ++ rest))

  Gives→Yields : (l : Limit V) (rows : List (V × ℕ)) → Gives (next l) rows → Yields l rows
  Gives→Yields l rows (inl (e, nil)) = subst (Yields l) (sym nil) (finished l e)
  Gives→Yields l rows (inr (b, l', rest, e, y, p)) =
      subst (Yields l) (sym p) (batch l l' b rest e y)

  -- At most `remaining` of the rows.
  abbrev pub limited : Option ℕ → List (V × ℕ) → List (V × ℕ)
  limited none rows = rows
  limited (some n) rows = take n rows

  abbrev pub all_rows : List (Batch V) → List (V × ℕ)
  all_rows [] = []
  all_rows (b ∷ bs) = rows_of b ++ all_rows bs

  abbrev state : List (Batch V) → Option ℕ → ℕ → Limit V
  state bs remaining skip = record { child = map ok bs; remaining = remaining; skip = skip }

  length-rows_of : (b : Batch V) → IsValid b → length (rows_of b) ≡ b.rows
  length-rows_of b h = length-map (selected b) _ ∙ h.count

  next-spent : (bs : List (Batch V)) (skip : ℕ) → (next (state bs (some 0) skip)).0 ≡ ok none
  unfolding next next_from
  next-spent [] skip = refl
  next-spent (b ∷ bs) skip = refl

  emit-Gives :
      (b : Batch V) (bs : List (Batch V)) (remaining : Option ℕ)
      → IsValid b
      → ((r : Option ℕ) → Yields (state bs r 0) (limited r (all_rows bs)))
      → Gives (emit b (map ok bs) remaining) (limited remaining (rows_of b ++ all_rows bs))
  unfolding emit pass cut
  emit-Gives b bs none h rest = inr (b, state bs none 0, all_rows bs, refl, rest none, refl)
  emit-Gives b bs (some n) h rest = elim (Bool-cases (leb b.rows n)) [
    | inl t ↦ rw t (
        inr (
          b,
          state bs (some (n - b.rows)) 0,
          take (n - b.rows) (all_rows bs),
          refl,
          rest (some (n - b.rows)),
          take_all n (rows_of b) (all_rows bs) (ground (arith, length-rows_of b h))
              ∙ ap (λ k. rows_of b ++ take (n - k) (all_rows bs)) (length-rows_of b h),
        ))
    | inr t ↦ rw t (
        let (k, e, kept, size, valid) = keep_rows-Keeps b 0 n h (ground arith) in
        rw e (
          inr (
            k,
            state bs (some 0) 0,
            [],
            refl,
            finished (state bs (some 0) 0) (next-spent bs 0),
            take_some n (rows_of b) (all_rows bs) (ground (arith, length-rows_of b h))
                ∙ sym kept
                ∙ sym (append-nil (rows_of k)),
          )))
  ]

  limited_spent :
      (remaining : Option ℕ) (rows : List (V × ℕ))
      → is_spent remaining ≡ true
      → limited remaining rows ≡ []
  unfolding is_spent
  limited_spent none rows h = cc
  limited_spent (some zero) rows h = refl
  limited_spent (some (suc n)) rows h = absurd (ground arith)

  limited_nil : (remaining : Option ℕ) (skip : ℕ) → limited remaining (drop skip []) ≡ []
  limited_nil none zero = refl
  limited_nil none (suc skip) = refl
  limited_nil (some zero) skip = refl
  limited_nil (some (suc n)) zero = refl
  limited_nil (some (suc n)) (suc skip) = refl

  loop→Yields :
      (bs : List (Batch V)) (remaining : Option ℕ) (skip : ℕ) (rows : List (V × ℕ))
      → Gives (next_from (map ok bs) remaining skip) rows
      → Yields (state bs remaining skip) rows
  unfolding next
  loop→Yields bs remaining skip rows h = Gives→Yields (state bs remaining skip) rows h

  next_from-Gives :
      (bs : List (Batch V)) (remaining : Option ℕ) (skip : ℕ)
      → All IsValid bs
      → Gives (next_from (map ok bs) remaining skip) (limited remaining (drop skip (all_rows bs)))
  unfolding next_from emit_kept
  next_from-Gives [] remaining skip h = inl (refl, limited_nil remaining skip)
  next_from-Gives (b ∷ bs) remaining skip (h, hs) =
      let rest : (r : Option ℕ) → Yields (state bs r 0) (limited r (all_rows bs)) =
        (λ r. loop→Yields bs r 0 _ (next_from-Gives bs r 0 hs)) in
      elim (Bool-cases (is_spent remaining)) [
        | inl spent ↦ rw spent (inl (refl, limited_spent remaining _ spent))
        | inr more ↦ elim (Bool-cases (ltb 0 skip)) [
          | inr none_left ↦
              let start : skip ≡ 0 = ground arith in
              rw (more, none_left, start) (emit-Gives b bs remaining h rest)
          | inl some_left ↦ elim (Bool-cases (leb b.rows skip)) [
            | inl whole ↦
                rw
                  (
                    more,
                    some_left,
                    whole,
                    drop_all skip (rows_of b) (all_rows bs) (ground (arith, length-rows_of b h)),
                    length-rows_of b h,
                  )
                  (next_from-Gives bs remaining (skip - b.rows) hs)
            | inr part ↦
                let (k, e, kept, size, valid) =
                  keep_rows-Keeps b skip (b.rows - skip) h (ground arith) in
                let rows : rows_of k ≡ drop skip (rows_of b) =
                  kept
                  ∙ take_full (b.rows - skip) (drop skip (rows_of b))
                      (omega (arith, length-drop skip (rows_of b), length-rows_of b h)) in
                rw
                  (
                    more,
                    some_left,
                    part,
                    e,
                    drop_some skip (rows_of b) (all_rows bs) (ground (arith, length-rows_of b h)),
                  )
                  (rw (sym rows) (emit-Gives k bs remaining valid rest))
          ]
        ]
      ]

  -- Calling Limit.Next until nil yields, over a child without errors whose batches are valid, the
  -- rows of the child in order without the first `skip`, and of those at most `remaining`.
  pub next-Yields :
      (bs : List (Batch V)) (remaining : Option ℕ) (skip : ℕ)
      → All IsValid bs
      → Yields
          (record { child = map ok bs; remaining = remaining; skip = skip })
          (limited remaining (drop skip (all_rows bs)))
  next-Yields bs remaining skip h =
      loop→Yields bs remaining skip _ (next_from-Gives bs remaining skip h)
