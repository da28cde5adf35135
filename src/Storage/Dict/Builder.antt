-- ===== src/Storage/Dict/Builder.antt =====
-- What `DictBuilder` promises: codes are positions, first come first.
use vexq.Prelude.{
  ◌==◌, if◌then◌else◌, bytes_eq_iff, length, get_elem?, length-append, Bytes, u32, ℕ, zero, suc,
  ◌+◌, ◌%◌, ◌≤◌, ◌<◌, ◌≡◌, refl, ◌∙◌, Option, none, some, List, [], ◌∷◌, ◌++◌, arith,
}
use vexq.Storage.Dict.{add, lookup_code, DictBuilder, add_new}

-- The map and the key list agree: a key has a code exactly if it stands at that position.
pub record IsConsistent (db : DictBuilder) : Type 0 where
  pub fits : length db.keys < u32
  pub sound :
      (s : Bytes) (code : ℕ) → lookup_code s db.codes ≡ some code → get_elem? db.keys code ≡ some s
  pub complete :
      (s : Bytes) (code : ℕ) → get_elem? db.keys code ≡ some s → lookup_code s db.codes ≡ some code

pub get_elem?-append_last {ℓ} :
    {A : Type ℓ} (xs : List A) (x : A) (i : ℕ)
    → get_elem? (xs ++ x ∷ []) i ≡ (if i == length xs then some x else get_elem? xs i)
get_elem?-append_last [] x zero = ground arith
get_elem?-append_last [] x (suc i) = ground arith
get_elem?-append_last (y ∷ xs) x zero = ground arith
get_elem?-append_last (y ∷ xs) x (suc i) = get_elem?-append_last xs x i ∙ ground arith

pub get_elem?-out {ℓ} : {A : Type ℓ} (xs : List A) (i : ℕ) → length xs ≤ i → get_elem? xs i ≡ none
get_elem?-out [] i h = refl
get_elem?-out (x ∷ xs) zero h = absurd (omega arith)
get_elem?-out (x ∷ xs) (suc i) h = get_elem?-out xs i (omega arith)

add_new-IsConsistent :
    (db : DictBuilder) (s : Bytes)
    → IsConsistent db
    → length db.keys + 1 < u32
    → lookup_code s db.codes ≡ none
    → IsConsistent (add_new db s).0
unfolding add_new lookup_code
add_new-IsConsistent db s c room new = record {
  fits = omega (arith, length-append db.keys (s ∷ []));
  sound = λ t code h. ground (
    arith,
    c.sound t code,
    get_elem?-append_last db.keys s code,
    bytes_eq_iff s t,
    get_elem?-out db.keys (length db.keys),
  );
  complete = λ t code h.
      ground (arith, c.complete t code, get_elem?-append_last db.keys s code, bytes_eq_iff s t);
}

-- On a builder whose map and key list agree, with room for one more of fewer than 2^32 keys, Add
-- keeps them in agreement, returns a code that reads back as the string, and changes no earlier
-- code.
pub add-IsConsistent :
    (db : DictBuilder) (s : Bytes)
    → IsConsistent db
    → length db.keys + 1 < u32
    → IsConsistent (add db s).0
      × (get_elem? (add db s).0.keys (add db s).1 ≡ some s)
      × ((code : ℕ)
          → code < length db.keys
          → get_elem? (add db s).0.keys code ≡ get_elem? db.keys code)
unfolding add
add-IsConsistent db s c room = by_lookup (lookup_code s db.codes) refl
  where
    by_lookup :
        (o : Option ℕ)
        → lookup_code s db.codes ≡ o
        → IsConsistent (add db s).0
          × (get_elem? (add db s).0.keys (add db s).1 ≡ some s)
          × ((code : ℕ)
              → code < length db.keys
              → get_elem? (add db s).0.keys code ≡ get_elem? db.keys code)
    by_lookup none e =
        rw (e, add)
          (
            add_new-IsConsistent db s c room e,
            (let fits : length db.keys % u32 ≡ length db.keys = omega arith in
                rw (fits, get_elem?-append_last) (ground arith)),
            λ code h. get_elem?-append_last db.keys s code ∙ ground arith,
          )
    by_lookup (some code) e = rw (e, add) (c, c.sound s code e, λ code h. refl)

pub get_elem?-lt {ℓ} :
    {A : Type ℓ} (xs : List A) (i : ℕ) {x : A} → get_elem? xs i ≡ some x → i < length xs
get_elem?-lt [] i e = cc
get_elem?-lt (y ∷ xs) zero e = omega arith
get_elem?-lt (y ∷ xs) (suc i) e = omega (arith, get_elem?-lt xs i e)
