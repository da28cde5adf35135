-- ===== src/Exec/Sort/Keys.antt =====
-- The order of the rows that `less` decides.
use vexq.Storage.Schema.{Field}
use vexq.Prelude.{
  ltb, ◌==◌, if◌then◌else◌, bytes_eq, length, All, Bytes, u64, ltb_i64, ℕ, ◌<◌, ◌≡◌, refl, Bool,
  true, false, not, ◌&&◌, ◌||◌, Option, none, some, List, [], ◌∷◌, arith,
}
use vexq.Exec.Compare.{Order}
use vexq.Exec.Sort.{SortRow, ltb_bytes}

-- A strict weak order: the rows that are not ordered either way are equivalent.
pub record IsStrictWeak {A : Type 0} (lt : A → A → Bool) : Type 0 where
  pub asym : (a b : A) → lt a b ≡ true → lt b a ≡ false
  pub cotrans : (a b c : A) → lt a c ≡ true → lt a b ≡ false → lt b c ≡ true

-- What float64 comparison does: the numbers are ordered, and a NaN is apart.
pub record IsFloatOrder (floats : Order) (is_nan : ℕ → Bool) : Type 0 where
  pub asym : (a b : ℕ) → floats.lt a b ≡ true → floats.lt b a ≡ false
  pub cotrans :
      (a b c : ℕ)
      → is_nan b ≡ false
      → floats.lt a c ≡ true
      → floats.lt a b ≡ false
      → floats.lt b c ≡ true
  pub nan_eq : (a b : ℕ) → (is_nan a || is_nan b) ≡ true → floats.eq a b ≡ false
  pub number_eq :
      (a b : ℕ)
      → (is_nan a || is_nan b) ≡ false
      → floats.eq a b ≡ (not (floats.lt a b) && not (floats.lt b a))

-- A row of a cell for each field, its values of 64 bits.
pub record HasCells (fields : List Field) (r : SortRow) : Type 0 where
  pub null_size : length r.nulls ≡ length fields
  pub value_size : length r.values ≡ length fields
  pub string_size : length r.str_values ≡ length fields
  pub words : All (λ v. v < u64) r.values

module _ {A : Type 0} where
  -- The same order, or the opposite one.
  unfoldable pub toward : Bool → (A → A → Bool) → A → A → Bool
  toward true lt a b = lt b a
  toward false lt a b = lt a b

  unfoldable pub nulls_first : (A → Bool) → (A → A → Bool) → A → A → Bool
  nulls_first null lt a b = if null b then false else if null a then true else lt a b

  unfoldable pub nans_last : (A → Bool) → (A → A → Bool) → A → A → Bool
  nans_last nan lt a b = if nan a then false else if nan b then true else lt a b

  -- By the first order, then by the second.
  unfoldable pub then_by : (A → A → Bool) → (A → A → Bool) → A → A → Bool
  then_by lt rest a b = if lt a b then true else if lt b a then false else rest a b

  unfoldable pub verdict_of : (A → A → Bool) → A → A → Option Bool
  verdict_of lt a b = if lt a b then some true else if lt b a then some false else none

  pub toward-IsStrictWeak :
      (d : Bool) (lt : A → A → Bool) → IsStrictWeak lt → IsStrictWeak (toward d lt)
  unfolding toward
  toward-IsStrictWeak true lt w = record {
    asym = λ a b. w.asym b a;
    cotrans = λ a b c h n. ground (arith, w.cotrans c b a);
  }
  toward-IsStrictWeak false lt w = record { asym = w.asym; cotrans = w.cotrans }

  pub nulls_first-IsStrictWeak :
      (null : A → Bool) (lt : A → A → Bool) → IsStrictWeak lt → IsStrictWeak (nulls_first null lt)
  unfolding nulls_first
  nulls_first-IsStrictWeak null lt w = record {
    asym = λ a b h. ground (arith, w.asym a b);
    cotrans = λ a b c h n. ground (arith, w.cotrans a b c);
  }

  pub then_by-IsStrictWeak :
      (lt rest : A → A → Bool)
      → IsStrictWeak lt
      → IsStrictWeak rest
      → IsStrictWeak (then_by lt rest)
  unfolding then_by
  then_by-IsStrictWeak lt rest w w' = record {
    asym = λ a b h. ground (arith, w.asym a b, w'.asym a b);
    cotrans = λ a b c h n. ground (
      arith,
      w.cotrans a b c,
      w.cotrans b a c,
      w.cotrans c a b,
      w.cotrans b c a,
      w.cotrans c b a,
      w.cotrans a c b,
      w'.cotrans a b c,
      w.asym a b,
      w.asym b c,
      w.asym a c,
    );
  }

  pub nans_last-IsStrictWeak :
      (nan : A → Bool) (lt : A → A → Bool)
      → ((a b : A) → lt a b ≡ true → lt b a ≡ false)
      → ((a b c : A) → nan b ≡ false → lt a c ≡ true → lt a b ≡ false → lt b c ≡ true)
      → IsStrictWeak (nans_last nan lt)
  unfolding nans_last
  nans_last-IsStrictWeak nan lt asym cotrans = record {
    asym = λ a b h. ground (arith, asym a b);
    cotrans = λ a b c h n. ground (arith, cotrans a b c);
  }

  -- Values that are ordered as their images are.
  pub by_image-IsStrictWeak :
      {B : Type 0} (f : A → B) (lt : B → B → Bool)
      → IsStrictWeak lt
      → IsStrictWeak (λ a b. lt (f a) (f b))
  by_image-IsStrictWeak f lt w = record {
    asym = λ a b. w.asym (f a) (f b);
    cotrans = λ a b c. w.cotrans (f a) (f b) (f c);
  }

pub ltb-IsStrictWeak : IsStrictWeak ltb
ltb-IsStrictWeak = record { asym = λ a b h. ground arith; cotrans = λ a b c h n. ground arith }

ltb_bytes-asym : (s t : Bytes) → ltb_bytes s t ≡ true → ltb_bytes t s ≡ false
unfolding ltb_bytes
ltb_bytes-asym [] [] h = cc
ltb_bytes-asym [] (y ∷ t) h = refl
ltb_bytes-asym (x ∷ s) [] h = cc
ltb_bytes-asym (x ∷ s) (y ∷ t) h = ground (arith, ltb_bytes-asym s t)

ltb_bytes-cotrans :
    (s t u : Bytes) → ltb_bytes s u ≡ true → ltb_bytes s t ≡ false → ltb_bytes t u ≡ true
unfolding ltb_bytes
ltb_bytes-cotrans s t [] h n = cc
ltb_bytes-cotrans [] [] (z ∷ u) h n = refl
ltb_bytes-cotrans [] (y ∷ t) (z ∷ u) h n = cc
ltb_bytes-cotrans (x ∷ s) [] (z ∷ u) h n = refl
ltb_bytes-cotrans (x ∷ s) (y ∷ t) (z ∷ u) h n = ground (arith, ltb_bytes-cotrans s t u)

pub ltb_bytes-IsStrictWeak : IsStrictWeak ltb_bytes
ltb_bytes-IsStrictWeak = record { asym = ltb_bytes-asym; cotrans = ltb_bytes-cotrans }

-- Strings that are not ordered are equal.
pub ltb_bytes-equal : (s t : Bytes) → bytes_eq s t ≡ (not (ltb_bytes s t) && not (ltb_bytes t s))
unfolding ltb_bytes bytes_eq
ltb_bytes-equal [] [] = refl
ltb_bytes-equal [] (y ∷ t) = refl
ltb_bytes-equal (x ∷ s) [] = refl
ltb_bytes-equal (x ∷ s) (y ∷ t) = ground (arith, ltb_bytes-equal s t)

pub ltb_i64-equal :
    (v w : ℕ) → v < u64 → w < u64 → (v == w) ≡ (not (ltb_i64 v w) && not (ltb_i64 w v))
ltb_i64-equal v w h h' = ground arith
