-- ===== src/Exec/Limit/Rows.antt =====
-- exec/batch.go: the logical rows of a batch, and what `keepRows` of exec/limit.go keeps of them.
use vexq.Prelude.{
  length-drop, length-take, length-drop, map, sym, leb, length, take, drop, length-take,
  length-drop, map-drop, map-take, Result, ok, ℕ, zero, suc, ◌+◌, ◌-◌, ◌^◌, ◌≤◌, ◌≡◌, refl, sym, ap,
  ap₂, ◌∙◌, true, Option, none, some, List, [], ◌∷◌, map, arith,
}
use vexq.Storage.Dict.{slice}
use vexq.Exec.Limit.{Batch, sequential, keep_rows}

-- The indices that a batch without a selection stands for.
unfoldable pub indices : ℕ → ℕ → List ℕ
indices from zero = []
indices from (suc n) = from ∷ indices (from + 1) n

length-indices : (from n : ℕ) → length (indices from n) ≡ n
unfolding indices
length-indices from zero = refl
length-indices from (suc n) = ap suc (length-indices (from + 1) n)

sequential-indices : (from n : ℕ) → from + n ≤ 2 ^ 16 → sequential from n ≡ indices from n
unfolding indices sequential
sequential-indices from zero h = refl
sequential-indices from (suc n) h =
    ap₂ ◌∷◌ (omega arith) (sequential-indices (from + 1) n (omega arith))

drop-indices : (k from n : ℕ) → drop k (indices from n) ≡ indices (from + k) (n - k)
unfolding indices
drop-indices zero from n = ap₂ indices (omega arith) (omega arith)
drop-indices (suc k) from zero =
    let none_left : 0 ≡ 0 - suc k = omega arith in ap (indices (from + suc k)) none_left
drop-indices (suc k) from (suc n) =
    drop-indices k (from + 1) n ∙ ap₂ indices (omega arith) (omega arith)

take-indices : (k from n : ℕ) → k ≤ n → take k (indices from n) ≡ indices from k
unfolding indices
take-indices zero from n h = refl
take-indices (suc k) from zero h = absurd (omega arith)
take-indices (suc k) from (suc n) h = ap (◌∷◌ from) (take-indices k (from + 1) n (omega arith))

indices_cut : (from n m : ℕ) → from + n ≤ m → take n (drop from (indices 0 m)) ≡ indices from n
indices_cut from n m h =
    ap (take n) (drop-indices from 0 m)
    ∙ take-indices n (0 + from) (m - from) (omega arith)
    ∙ ap (λ k. indices k n) (omega arith)

slice-take :
    (xs : List ℕ) (from n : ℕ)
    → from + n ≤ length xs
    → slice xs from (from + n) ≡ ok (take n (drop from xs))
unfolding slice
slice-take xs from n h =
    let lo : leb from (from + n) ≡ true = ground arith in
    let hi : leb (from + n) (length xs) ≡ true = ground arith in
    let size : from + n - from ≡ n = omega arith in rw (lo, hi, size)

module _ {V : Type 0} where
  -- The indices of the logical rows.
  abbrev pub selected : Batch V → List ℕ
  selected b = elim b.sel_vec [ some s ↦ s | none ↦ indices 0 b.rows ]

  -- The logical rows: the vectors with an index.
  abbrev pub rows_of : Batch V → List (V × ℕ)
  rows_of b = map (λ i. (b.vectors, i)) (selected b)

  -- The length tells the selection's, and each index fits in a uint16.
  pub record IsValid (b : Batch V) : Type 0 where
    pub count : length (selected b) ≡ b.rows
    pub fits : b.rows ≤ 2 ^ 16

  -- What `keep_rows` leaves.
  abbrev pub Keeps : Batch V → ℕ → ℕ → Result (Batch V) → Type 0
  Keeps b from n r =
      (k : Batch V) × (r ≡ ok k)
      × (rows_of k ≡ take n (drop from (rows_of b)))
      × (k.rows ≡ n)
      × IsValid k

  kept-Keeps :
      (b : Batch V) (from n : ℕ) (s : List ℕ)
      → s ≡ take n (drop from (selected b))
      → IsValid b
      → from + n ≤ b.rows
      → Keeps b from n (ok (record b { sel_vec = some s; rows = n }))
  kept-Keeps b from n s e h le = (
    record b { sel_vec = some s; rows = n },
    refl,
    ap (map (λ i. (b.vectors, i))) e
        ∙ map-take (λ i. (b.vectors, i)) n (drop from (selected b))
        ∙ ap (take n) (map-drop (λ i. (b.vectors, i)) from (selected b)),
    refl,
    record {
      count = omega (
        arith,
        ap length e,
        length-take n (drop from (selected b)),
        length-drop from (selected b),
        h.count,
      );
      fits = omega (arith, h.fits);
    },
  )

  keep_rows_at :
      (v : V) (o : Option (List ℕ)) (m from n : ℕ)
      → IsValid (record { vectors = v; sel_vec = o; rows = m })
      → from + n ≤ m
      → Keeps
          (record { vectors = v; sel_vec = o; rows = m })
          from
          n
          (keep_rows (record { vectors = v; sel_vec = o; rows = m }) from n)
  unfolding keep_rows
  keep_rows_at v (some s) m from n h le =
      rw (slice-take s from n (omega (arith, h.count))) (kept-Keeps _ from n _ refl h le)
  keep_rows_at v none m from n h le =
      kept-Keeps _ from n _
        (sequential-indices from n (omega (arith, h.fits)) ∙ sym (indices_cut from n m le)) h le

  -- keepRows on a valid batch, within its length, does not panic, keeps exactly the asked logical
  -- rows in order and leaves a valid batch of that length.
  pub keep_rows-Keeps :
      (b : Batch V) (from n : ℕ)
      → IsValid b
      → from + n ≤ b.rows
      → Keeps b from n (keep_rows b from n)
  keep_rows-Keeps b from n h le = keep_rows_at b.vectors b.sel_vec b.rows from n h le
