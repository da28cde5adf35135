-- ===== src/Exec/Sort/Verdicts.antt =====
-- What a key says of two rows, as an order.
use vexq.Prelude.{
  if◌then◌else◌, length, get_or, ok, ℕ, zero, suc, ◌<◌, ◌≡◌, refl, sym, ◌∙◌, Bool, true, false, not,
  ◌&&◌, none, some, List, [], ◌∷◌, arith,
}
use vexq.Storage.Bitmap.{index}
use vexq.Storage.Schema.{Field}
use vexq.Exec.Sort.{directed}
use vexq.Exec.Sort.Keys.{IsStrictWeak, toward, nulls_first, verdict_of}

abbrev pub type_at : List Field → ℕ → ℕ
type_at [] i = 0
type_at (f ∷ fields) zero = f.data_type
type_at (f ∷ fields) (suc i) = type_at fields i

-- A cell that a row has.
pub index-get_or {ℓ} :
    {A : Type ℓ} (xs : List A) (i : ℕ) (d : A) → i < length xs → index xs i ≡ ok (get_or xs i d)
unfolding index
index-get_or [] i d h = absurd (omega arith)
index-get_or (x ∷ xs) zero d h = refl
index-get_or (x ∷ xs) (suc i) d h = index-get_or xs i d (omega arith)

pub index-type_at :
    (fields : List Field) (i : ℕ)
    → i < length fields
    → (f : Field) × (index fields i ≡ ok f) × (f.data_type ≡ type_at fields i)
unfolding index
index-type_at [] i h = absurd (omega arith)
index-type_at (f ∷ fields) zero h = (f, refl, refl)
index-type_at (f ∷ fields) (suc i) h = index-type_at fields i (omega arith)

pub directed-verdict_of :
    {A : Type 0} (d : Bool) (lt : A → A → Bool) (a b : A) (equal : Bool)
    → equal ≡ (not (lt a b) && not (lt b a))
    → directed d equal (lt a b) (lt b a) ≡ verdict_of (toward d lt) a b
unfolding directed verdict_of toward
directed-verdict_of true lt a b equal h = rw h (ground arith)
directed-verdict_of false lt a b equal h = rw h (ground arith)

pub verdict_of_same :
    {A B : Type 0} (d : Bool) (lt : A → A → Bool) (lt' : B → B → Bool) (a b : A) (x y : B)
    → lt a b ≡ lt' x y
    → lt b a ≡ lt' y x
    → verdict_of (toward d lt) a b ≡ verdict_of (toward d lt') x y
unfolding verdict_of toward
verdict_of_same true lt lt' a b x y h h' = rw (h, h') refl
verdict_of_same false lt lt' a b x y h h' = rw (h, h') refl

pub IsStrictWeak-same :
    {A : Type 0} {lt : A → A → Bool} (lt' : A → A → Bool)
    → IsStrictWeak lt
    → ((a b : A) → lt' a b ≡ lt a b)
    → IsStrictWeak lt'
IsStrictWeak-same lt' w same = record {
  asym = λ a b h. same b a ∙ w.asym a b (sym (same a b) ∙ h);
  cotrans = λ a b c h n. same b c ∙ w.cotrans a b c (sym (same a c) ∙ h) (sym (same a b) ∙ n);
}

pub null_verdict :
    {A : Type 0} (null : A → Bool) (lt : A → A → Bool) (a b : A)
    → (if null a && null b
        then ok none
        else if null a
        then ok (some true)
        else if null b
        then ok (some false)
        else ok (verdict_of lt a b))
      ≡ ok (verdict_of (nulls_first null lt) a b)
unfolding verdict_of nulls_first
null_verdict null lt a b = ground arith
