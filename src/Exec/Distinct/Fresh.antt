-- ===== src/Exec/Distinct/Fresh.antt =====
-- Of the rows of a batch, `Distinct` keeps one for each key that is new.
use vexq.Prelude.{
  if◌then◌else◌, Bool-cases, bytes_eq, bytes_eq→eq, All, Bytes, Result, ok, ℕ, ◌%◌, ◌^◌, ◌<◌, ◌≡◌,
  refl, ◌∙◌, subst, inl, inr, Bool, true, false, ◌||◌, List, [], ◌∷◌, map, arith,
}
use vexq.Prelude.{Bool, true, false, if◌then◌else◌, refl, subst, bytes_eq, bytes_eq→eq}
use vexq.Exec.Distinct.{Cell, build_key, is_seen, select_new}

-- Each key is new to those before it and to `seen`.
abbrev pub NewKeys : List Bytes → List Bytes → Type 0
NewKeys seen [] = Unit
NewKeys seen (k ∷ ks) = (is_seen k seen ≡ false) × NewKeys (k ∷ seen) ks

-- `key i` is the key of row `i`, an index that fits in a uint16.
abbrev pub IsKey : List (List Cell) → (ℕ → Bytes) → ℕ → Type 0
IsKey columns key i = (build_key columns i ≡ ok (key i)) × (i < 2 ^ 16)

-- The rows kept have new keys, each once, and the keys seen afterwards are those seen before and
-- those of all rows, which are the same as those seen before and those of the rows kept.
abbrev pub Selects : (ℕ → Bytes) → List ℕ → List Bytes → Result (List ℕ × List Bytes) → Type 0
Selects key sel seen r =
    (kept : List ℕ) × (after : List Bytes) × (r ≡ ok (kept, after))
    × NewKeys seen (map key kept)
    × ((k : Bytes) → is_seen k after ≡ (is_seen k seen || is_seen k (map key sel)))
    × ((k : Bytes) → is_seen k after ≡ (is_seen k seen || is_seen k (map key kept)))

or_false : (b : Bool) → b ≡ (b || false)
or_false true = refl
or_false false = refl

-- A key counts on either side of the disjunction.
or_shift : (b s m : Bool) → ((if b then true else s) || m) ≡ (s || (if b then true else m))
or_shift true true m = refl
or_shift true false m = refl
or_shift false s m = refl

or_absorb : (b s m : Bool) → (b ≡ true → s ≡ true) → (s || m) ≡ (s || (if b then true else m))
or_absorb true s m h = rw (h refl) refl
or_absorb false s m h = refl

-- Of the rows of a batch, each with a key and an index below 2^16, Distinct.Next keeps rows of
-- which each key is new to the seen keys and to the rows kept before; the keys seen afterwards are
-- those seen before and those of all rows, and also those seen before and those of the rows kept.
pub select_new-Selects :
    (columns : List (List Cell)) (key : ℕ → Bytes) (sel : List ℕ) (seen : List Bytes)
    → All (IsKey columns key) sel
    → Selects key sel seen (select_new columns sel seen)
unfolding select_new is_seen
select_new-Selects columns key [] seen h =
    ([], seen, refl, tt, λ k. or_false (is_seen k seen), λ k. or_false (is_seen k seen))
select_new-Selects columns key (i ∷ sel) seen ((e, small), hs) =
    elim (Bool-cases (is_seen (key i) seen)) [
      | inl old ↦
          let (kept, after, ran, new, all, only) = select_new-Selects columns key sel seen hs in
          rw (e, old, ran)
            (
              kept,
              after,
              refl,
              new,
              λ k.
                  all k
                  ∙ or_absorb (bytes_eq (key i) k) (is_seen k seen) (is_seen k (map key sel))
                      (λ t. subst (λ a. is_seen a seen ≡ true) (bytes_eq→eq (key i) k t) old),
              only,
            )
      | inr fresh ↦
          let (kept, after, ran, new, all, only) =
            select_new-Selects columns key sel (key i ∷ seen) hs in
          let index : i % 2 ^ 16 ≡ i = omega arith in
          rw (e, fresh, ran, index)
            (
              i ∷ kept,
              after,
              refl,
              (fresh, new),
              λ k. all k ∙ or_shift (bytes_eq (key i) k) (is_seen k seen) (is_seen k (map key sel)),
              λ k.
                  only k
                  ∙ or_shift (bytes_eq (key i) k) (is_seen k seen) (is_seen k (map key kept)),
            )
    ]
