-- ===== src/Storage/Dict/Memo.antt =====
-- The memo of `Dictionary.Get` never changes an answer.
use vexq.Prelude.{
  ltb, leb, ◌==◌, ltb→lt, Bool-cases, length, set, length-set, get_or, replicate, length-replicate,
  Bytes, Result, ok, ℕ, zero, suc, ◌<◌, ◌≡◌, refl, ap, ◌∙◌, ◌⊎◌, inl, inr, true, false, [], ◌∷◌,
  arith,
}
use vexq.Storage.Dict.{Dictionary, read_entry, is_empty, miss, get}
use vexq.Storage.Bitmap.Laws.{get_or-set}

-- The memo is absent or full length, and each entry that is filled in is the entry's bytes.
pub record MemoValid (d : Dictionary) : Type 0 where
  pub size : (d.cache ≡ []) ⊎ (length d.cache ≡ length d.offsets)
  pub filled :
      (i : ℕ)
      → (get_or d.cache i [] ≡ []) ⊎ (read_entry d.offsets d.payload i ≡ ok (get_or d.cache i []))

is_empty→nil : (s : Bytes) → is_empty s ≡ true → s ≡ []
unfolding is_empty
is_empty→nil [] h = refl
is_empty→nil (x ∷ s) h = cc

blank_is_empty : {s : Bytes} → s ≡ [] → is_empty s ≡ false → ⊥
unfolding is_empty
blank_is_empty p b = cc (b, ap is_empty p)

-- An answer `s` with a dictionary of the same content and a valid memo.
abbrev pub Answers : Dictionary → Bytes → Result (Bytes × Dictionary) → Type 0
Answers d s r =
    (d' : Dictionary) × (r ≡ ok (s, d'))
    × (d'.offsets ≡ d.offsets)
    × (d'.payload ≡ d.payload)
    × MemoValid d'

miss-Answers :
    (d : Dictionary) (code : ℕ) (s : Bytes)
    → MemoValid d
    → length d.cache ≡ length d.offsets
    → code < length d.offsets
    → read_entry d.offsets d.payload code ≡ ok s
    → Answers d s (miss d code)
unfolding miss
miss-Answers d code s v full lt e = rw e (
  record d { cache = set d.cache code s },
  refl,
  refl,
  refl,
  record {
    size = inr (length-set d.cache code s ∙ full);
    filled = λ i. store_filled i (Bool-cases (code == i));
  },
)
  where
    store_filled :
        (i : ℕ)
        → ((code == i) ≡ true) ⊎ ((code == i) ≡ false)
        → (get_or (set d.cache code s) i [] ≡ [])
          ⊎ (read_entry d.offsets d.payload i ≡ ok (get_or (set d.cache code s) i []))
    store_filled i (inl t) =
        rw (get_or-set d.cache code i s [] (omega arith), t)
          (inr (let same : i ≡ code = ground arith in rw same e))
    store_filled i (inr t) = rw (get_or-set d.cache code i s [] (omega arith), t) (v.filled i)

get_or-blank : (n i : ℕ) → get_or (replicate {A = Bytes} n []) i [] ≡ []
get_or-blank zero i = refl
get_or-blank (suc n) zero = refl
get_or-blank (suc n) (suc i) = get_or-blank n i

-- With a valid memo, for a code in range whose entry lies within the payload, Get answers the
-- bytes of the entry, leaves offsets and payload as they were and the memo valid, on a hit, a miss
-- and an empty entry.
pub get-Answers :
    (d : Dictionary) (code : ℕ) (s : Bytes)
    → MemoValid d
    → code < length d.offsets
    → read_entry d.offsets d.payload code ≡ ok s
    → Answers d s (get d code)
unfolding get
get-Answers d code s v lt e =
    let inside : leb (length d.offsets) code ≡ false = ground arith in
    rw inside (elim (Bool-cases (ltb code (length d.cache))) [
      | inr out ↦ rw out (fresh out)
      | inl hit ↦ rw hit (elim (Bool-cases (is_empty (get_or d.cache code []))) [
        | inl blank ↦ rw blank (miss-Answers d code s v (full hit) lt e)
        | inr some_bytes ↦ rw some_bytes (memoised some_bytes (v.filled code))
      ])
    ])
  where
    full : ltb code (length d.cache) ≡ true → length d.cache ≡ length d.offsets
    full hit = full_of v.size
      where
        full_of :
            (d.cache ≡ []) ⊎ (length d.cache ≡ length d.offsets) → length d.cache ≡ length d.offsets
        full_of (inl p) = absurd (omega (arith, ltb→lt code (length d.cache) hit, ap length p))
        full_of (inr p) = p

    fresh :
        ltb code (length d.cache) ≡ false
        → Answers d s (miss (record d { cache = replicate (length d.offsets) [] }) code)
    fresh out =
        miss-Answers (record d { cache = replicate (length d.offsets) [] }) code s
          (record {
            size = inr (length-replicate (length d.offsets) []);
            filled = λ i. inl (get_or-blank (length d.offsets) i);
          })
          (length-replicate (length d.offsets) []) lt e

    memoised :
        is_empty (get_or d.cache code []) ≡ false
        → (get_or d.cache code [] ≡ [])
          ⊎ (read_entry d.offsets d.payload code ≡ ok (get_or d.cache code []))
        → Answers d s (ok (get_or d.cache code [], d))
    memoised b (inl p) = absurd (blank_is_empty p b)
    memoised b (inr p) = (d, cc, refl, refl, v)
