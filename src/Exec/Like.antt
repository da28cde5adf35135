-- ===== src/Exec/Like.antt =====
-- exec/expr.go (`likeMatch`): SQL LIKE on the bytes of a pattern and of a string.
use vexq.Prelude.{
  ◌↔◌, ◌==◌, if◌then◌else◌, ==_iff, Bool-cases, Bytes, ℕ, ◌≡◌, refl, sym, ap, ◌∙◌, ◌≢◌, ◌⊎◌, inl,
  inr, Bool, true, false, ◌&&◌, ◌||◌, [], ◌∷◌, ◌++◌, append-nil, arith,
}
use vexq.Storage.Dict.{is_empty}

unfoldable pub any_suffix : (Bytes → Bool) → Bytes → Bool
any_suffix match [] = match []
any_suffix match (c ∷ s) = match (c ∷ s) || any_suffix match s

-- What follows the first byte, if there is one that passes.
unfoldable pub after_first : (ℕ → Bool) → (Bytes → Bool) → Bytes → Bool
after_first test match [] = false
after_first test match (c ∷ s) = test c && match s

-- `%` tries every suffix, the longest first; a closing `%` matches at once.
unfoldable pub like_match : Bytes → Bytes → Bool
unfolding any_suffix after_first is_empty
like_match [] s = is_empty s
like_match (c ∷ p) s =
    let rest : Bytes → Bool = like_match p in
    if c == b'%'
    then (is_empty p || any_suffix rest s)
    else if c == b'_'
    then after_first (λ d. true) rest s
    else after_first (λ d. c == d) rest s

-- A string that a pattern describes: `%` any bytes, `_` one byte, and any other byte itself.
abbrev pub Matches : Bytes → Bytes → Type 0
Matches [] s = s ≡ []
Matches (c ∷ p) s =
    ((c ≡ b'%') × (t : Bytes) × (u : Bytes) × (s ≡ t ++ u) × Matches p u)
    ⊎ ((c ≡ b'_') × (d : ℕ) × (u : Bytes) × (s ≡ d ∷ u) × Matches p u)
    ⊎ ((c ≢ b'%') × (c ≢ b'_') × (u : Bytes) × (s ≡ c ∷ u) × Matches p u)

any_suffix-true :
    (match : Bytes → Bool) (s : Bytes)
    → any_suffix match s ≡ true
    → (t : Bytes) × (u : Bytes) × (s ≡ t ++ u) × (match u ≡ true)
unfolding any_suffix
any_suffix-true match [] h = ([], [], refl, h)
any_suffix-true match (c ∷ s) h = elim (Bool-cases (match (c ∷ s))) [
  | inl e ↦ ([], c ∷ s, refl, e)
  | inr e ↦ let (t, u, p, q) = any_suffix-true match s (rw e at h) in (c ∷ t, u, ap (◌∷◌ c) p, q)
]

any_suffix-append :
    (match : Bytes → Bool) (t u : Bytes) → match u ≡ true → any_suffix match (t ++ u) ≡ true
unfolding any_suffix
any_suffix-append match [] [] h = h
any_suffix-append match [] (c ∷ u) h = rw h refl
any_suffix-append match (c ∷ t) u h = rw (any_suffix-append match t u h) (ground arith)

is_empty-eq : (s : Bytes) → is_empty s ≡ true → s ≡ []
unfolding is_empty
is_empty-eq [] h = refl
is_empty-eq (c ∷ s) h = cc

after_first-true :
    (test : ℕ → Bool) (match : Bytes → Bool) (s : Bytes)
    → after_first test match s ≡ true
    → (d : ℕ) × (u : Bytes) × (s ≡ d ∷ u) × (test d ≡ true) × (match u ≡ true)
unfolding after_first
after_first-true test match [] h = cc
after_first-true test match (c ∷ s) h = (c, s, refl, ground arith, ground arith)

ne_of : (a b : ℕ) → (a == b) ≡ false → a ≢ b
ne_of a b h e = ground arith

percent_split :
    (p s : Bytes)
    → (is_empty p || any_suffix (like_match p) s) ≡ true
    → (t : Bytes) × (u : Bytes) × (s ≡ t ++ u) × (like_match p u ≡ true)
unfolding like_match
percent_split p s h = elim (Bool-cases (is_empty p)) [
  | inl e ↦ (s, [], sym (append-nil s), rw (is_empty-eq p e) refl)
  | inr e ↦ any_suffix-true (like_match p) s (rw e at h)
]

-- A match is one that the pattern describes.
pub like_match-Matches : (p s : Bytes) → like_match p s ≡ true → Matches p s
unfolding like_match
like_match-Matches [] s h = is_empty-eq s h
like_match-Matches (c ∷ p) s h = elim (Bool-cases (c == b'%')) [
  | inl percent ↦
      let (t, u, q, m) = percent_split p s (rw percent at h) in
      inl ((==_iff c b'%').0 percent, t, u, q, like_match-Matches p u m)
  | inr plain ↦ elim (Bool-cases (c == b'_')) [
    | inl one ↦
        let (d, u, q, _, m) =
          after_first-true (λ d. true) (like_match p) s (rw (plain, one) at h) in
        inr (inl ((==_iff c b'_').0 one, d, u, q, like_match-Matches p u m))
    | inr other ↦
        let (d, u, q, e, m) =
          after_first-true (λ d. c == d) (like_match p) s (rw (plain, other) at h) in
        inr (
          inr (
            ne_of c b'%' plain,
            ne_of c b'_' other,
            u,
            q ∙ ap (λ x. x ∷ u) (sym ((==_iff c d).0 e)),
            like_match-Matches p u m,
          ))
  ]
]

-- And what the pattern describes is matched.
pub Matches-like_match : (p s : Bytes) → Matches p s → like_match p s ≡ true
unfolding like_match
Matches-like_match [] s h = rw h refl
Matches-like_match (c ∷ p) s (inl (e, t, u, q, m)) =
    let found : any_suffix (like_match p) (t ++ u) ≡ true =
      any_suffix-append (like_match p) t u (Matches-like_match p u m) in
    rw (e, q, found) (ground arith)
Matches-like_match (c ∷ p) s (inr (inl (e, d, u, q, m))) = rw (e, q, Matches-like_match p u m) refl
Matches-like_match (c ∷ p) s (inr (inr (ne, ne', u, q, m))) =
    rw (q, Matches-like_match p u m) (ground arith)

-- LIKE matches exactly the strings that the pattern describes: a percent sign any bytes, an
-- underscore one byte, and any other byte itself.
pub like_match_iff : (p s : Bytes) → (like_match p s ≡ true) ↔ Matches p s
like_match_iff p s = (like_match-Matches p s, Matches-like_match p s)
