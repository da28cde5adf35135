-- ===== src/Prelude/Slices.antt =====
-- What `take` and `drop` keep of an append and of a map.
use vexq.Prelude.Lists.{length, take, drop}
use Prim.Native.Nat.{ℕ, zero, suc, ◌+◌, ◌-◌, ◌≤◌}
use mathlib.Core.Path.{◌≡◌, refl, sym, ap, ◌∙◌}
use mathlib.Core.List.{List, [], ◌∷◌, ◌++◌, map}
use native.Mathlib.Omega.{arith}

module _ {ℓ} {A : Type ℓ} where
  pub drop_all :
      (k : ℕ) (xs ys : List A) → length xs ≤ k → drop k (xs ++ ys) ≡ drop (k - length xs) ys
  drop_all k [] ys h = ap (λ n. drop n ys) (omega arith)
  drop_all zero (x ∷ xs) ys h = absurd (omega arith)
  drop_all (suc k) (x ∷ xs) ys h =
      drop_all k xs ys (omega arith) ∙ ap (λ n. drop n ys) (omega arith)

  pub drop_some : (k : ℕ) (xs ys : List A) → k ≤ length xs → drop k (xs ++ ys) ≡ drop k xs ++ ys
  drop_some zero xs ys h = refl
  drop_some (suc k) [] ys h = absurd (omega arith)
  drop_some (suc k) (x ∷ xs) ys h = drop_some k xs ys (omega arith)

  pub take_all :
      (k : ℕ) (xs ys : List A) → length xs ≤ k → take k (xs ++ ys) ≡ xs ++ take (k - length xs) ys
  take_all k [] ys h = ap (λ n. take n ys) (omega arith)
  take_all zero (x ∷ xs) ys h = absurd (omega arith)
  take_all (suc k) (x ∷ xs) ys h =
      ap (◌∷◌ x) (take_all k xs ys (omega arith) ∙ ap (λ n. xs ++ take n ys) (omega arith))

  pub take_some : (k : ℕ) (xs ys : List A) → k ≤ length xs → take k (xs ++ ys) ≡ take k xs
  take_some zero xs ys h = refl
  take_some (suc k) [] ys h = absurd (omega arith)
  take_some (suc k) (x ∷ xs) ys h = ap (◌∷◌ x) (take_some k xs ys (omega arith))

  pub map-drop {κ} :
      {B : Type κ} (f : A → B) (k : ℕ) (xs : List A) → map f (drop k xs) ≡ drop k (map f xs)
  map-drop f zero xs = refl
  map-drop f (suc k) [] = refl
  map-drop f (suc k) (x ∷ xs) = map-drop f k xs

  pub map-take {κ} :
      {B : Type κ} (f : A → B) (k : ℕ) (xs : List A) → map f (take k xs) ≡ take k (map f xs)
  map-take f zero xs = refl
  map-take f (suc k) [] = refl
  map-take f (suc k) (x ∷ xs) = ap (◌∷◌ (f x)) (map-take f k xs)

  pub take_full : (k : ℕ) (xs : List A) → length xs ≤ k → take k xs ≡ xs
  take_full zero [] h = refl
  take_full zero (x ∷ xs) h = absurd (omega arith)
  take_full (suc k) [] h = refl
  take_full (suc k) (x ∷ xs) h = ap (◌∷◌ x) (take_full k xs (omega arith))

  drop-nil : (k : ℕ) → drop {A = A} k [] ≡ []
  drop-nil zero = refl
  drop-nil (suc k) = refl

  pub drop-drop : (a b : ℕ) (xs : List A) → drop a (drop b xs) ≡ drop (a + b) xs
  drop-drop a zero xs = ap (λ n. drop n xs) (omega arith)
  drop-drop a (suc b) [] = drop-nil a ∙ sym (drop-nil (a + suc b))
  drop-drop a (suc b) (x ∷ xs) =
      let e : suc (a + b) ≡ a + suc b = omega arith in
      drop-drop a b xs ∙ ap (λ n. drop n (x ∷ xs)) e

  pub take-take : (n m : ℕ) (xs : List A) → n ≤ m → take n (take m xs) ≡ take n xs
  take-take zero m xs h = refl
  take-take (suc n) zero xs h = absurd (omega arith)
  take-take (suc n) (suc m) [] h = refl
  take-take (suc n) (suc m) (x ∷ xs) h = ap (◌∷◌ x) (take-take n m xs (omega arith))

  -- A slice of a slice.
  pub take-drop-take :
      (n a m : ℕ) (xs : List A) → a + n ≤ m → take n (drop a (take m xs)) ≡ take n (drop a xs)
  take-drop-take n zero m xs h = take-take n m xs (omega arith)
  take-drop-take n (suc a) zero xs h = absurd (omega arith)
  take-drop-take n (suc a) (suc m) [] h = refl
  take-drop-take n (suc a) (suc m) (x ∷ xs) h = take-drop-take n a m xs (omega arith)
