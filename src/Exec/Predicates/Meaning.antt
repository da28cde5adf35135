-- ===== src/Exec/Predicates/Meaning.antt =====
-- What the row-by-row predicates say of each row.
use vexq.Storage.Bitmap.{index}
use vexq.Exec.Logic.Trees.{truth-full, full-HasRows}
use vexq.Storage.Bitmap.{full_bitmap, set_valid_bit}
use vexq.Prelude.{
  ◌>>=◌, ltb, ◌==◌, if◌then◌else◌, ==_iff, Bool-cases, length, get_or, replicate, length-replicate,
  Bytes, Result, ok, ℕ, zero, suc, ◌+◌, ◌/◌, ◌<◌, ◌≡◌, refl, sym, ap, ◌∙◌, subst, inl, inr, Bool,
  true, false, not, ◌&&◌, ◌||◌, Option, none, some, List, [], ◌∷◌, map, arith,
}
use vexq.Exec.Predicates.{same_int64, int64_vector, int64_literal}
use vexq.Exec.Vector.{set_all_valid-zeros, copy_bytes-same, length-full_bitmap}
use vexq.Exec.Predicates.{
  copy_bytes, eval_string_eq, like_match, Order, Vector, nulls_of, equals_row, eval_in, eval_like,
  mark_rows, row_answer, any_literal, vector_len, Literal,
}
use vexq.Storage.Bitmap.Laws.{
  index-get_or, full_bitmap-Covers, is_null_bit-null_at, null_at, Covers, set_valid_bit-Writes,
}
use vexq.Exec.Vector.{
  truth-fresh, BoolVector, acquire_bool_vector, acquire_bool_vector-HasRows, truth, HasRows,
  HasRows-bits, HasRows-nulls, set_flag-Writes, set_value, Yields,
}

-- The rows below `i` are answered by `f`, and the others are NULL.
record Answered (n : ℕ) (f : ℕ → Option Bool) (i : ℕ) (out : BoolVector) : Type 0 where
  sized : HasRows n out
  rows : (j : ℕ) → j < n → truth out j ≡ (if ltb j i then f j else none)

module _ (n : ℕ) (f : ℕ → Option Bool) where
  -- A row with no answer is left alone.
  skip_row : (i : ℕ) (out : BoolVector) → f i ≡ none → Answered n f i out → Answered n f (i + 1) out
  skip_row i out e a = record { sized = a.sized; rows = λ j hj. a.rows j hj ∙ same j }
    where
      same : (j : ℕ) → (if ltb j i then f j else none) ≡ (if ltb j (i + 1) then f j else none)
      same j = elim (Bool-cases (i == j)) [
        | inl t ↦ ground (arith, ap f ((==_iff i j).0 t))
        | inr t ↦ ground arith
      ]

  -- Any other row is made valid, and its bit is set.
  answer_row :
      (i : ℕ) (out : BoolVector) (val : Bool)
      → i < n
      → f i ≡ some val
      → Answered n f i out
      → (nulls : Bytes) × (out' : BoolVector) × (set_valid_bit out.null_bitmap i ≡ ok nulls)
        × (set_value (record out { null_bitmap = nulls }) i val ≡ ok out')
        × Answered n f (i + 1) out'
  unfolding set_value
  answer_row i out val hi e a =
      let (nulls, r, c, s, at) = set_valid_bit-Writes i (HasRows-nulls n out a.sized) hi in
      let (bits, r', c', s', at') =
        set_flag-Writes out.bits n i val (HasRows-bits n out a.sized) hi in
      (
        nulls,
        record { bits = bits; null_bitmap = nulls; rows = out.rows },
        r,
        rw r' refl,
        record {
          sized = record {
            count = a.sized.count;
            bit_bytes = c'.bytes;
            bit_size = s' ∙ a.sized.bit_size;
            null_bytes = c.bytes;
            null_size = s ∙ a.sized.null_size;
          };
          rows = λ j hj.
              unfold truth in
              (elim (Bool-cases (i == j)) [
                | inl t ↦ rw (at j, at' j, t) (ground (arith, e, ap f ((==_iff i j).0 t)))
                | inr t ↦ rw (at j, at' j, t) (a.rows j hj ∙ ground arith)
              ]);
        },
      )

  -- A row's answer is a value or none, so the loop succeeds if the row does.
  mark_rows_lem :
      (row : ℕ → Result (Option Bool))
      → ((j : ℕ) → j < n → row j ≡ ok (f j))
      → (left i : ℕ) (out : BoolVector) → i + left ≡ n
      → Answered n f i out
      → (out' : BoolVector) × (mark_rows row left i out ≡ ok out') × Answered n f n out'
  unfolding mark_rows
  mark_rows_lem row h zero i out e a = (out, refl, subst (λ k. Answered n f k out) (omega arith) a)
  mark_rows_lem row h (suc left) i out e a =
      by_answer (f i) refl (λ out. mark_rows_lem row h left (i + 1) out (omega arith))
    where
      by_answer :
          (o : Option Bool)
          → f i ≡ o
          → ((out : BoolVector)
              → Answered n f (i + 1) out
              → (out' : BoolVector) × (mark_rows row left (i + 1) out ≡ ok out')
                × Answered n f n out')
          → (out' : BoolVector) × (mark_rows row (suc left) i out ≡ ok out') × Answered n f n out'
      by_answer none fe next =
          let (out', r, a') = next out (skip_row i out fe a) in
          (out', rw (h i (omega arith), fe) r, a')
      by_answer (some val) fe next =
          let (nulls, out1, r1, r2, a1) = answer_row i out val (omega arith) fe a in
          let (out', r, a') = next out1 a1 in (out', rw (h i (omega arith), fe, r1, r2) r, a')

  mark_rows-truth :
      (row : ℕ → Result (Option Bool))
      → ((j : ℕ) → j < n → row j ≡ ok (f j))
      → Yields n (mark_rows row n 0 (acquire_bool_vector n)) f
  mark_rows-truth row h =
      let start : Answered n f 0 (acquire_bool_vector n) = record {
        sized = acquire_bool_vector-HasRows n;
        rows = λ j hj. truth-fresh n j ∙ ground arith;
      } in
      let (out, r, a) = mark_rows_lem row h n 0 (acquire_bool_vector n) (omega arith) start in
      (out, r, a.sized, λ j hj. a.rows j hj ∙ ground arith)

-- The answer of a row whose test answers `found`.
row_answer_lem :
    (nulls : Bytes) (n : ℕ) (test : ℕ → Result Bool) (unknown : Bool) (found : Bool) (j : ℕ)
    → Covers nulls n
    → j < n
    → (null_at nulls j ≡ false → test j ≡ ok found)
    → row_answer nulls test unknown j
      ≡ ok (if null_at nulls j then none else if not found && unknown then none else some found)
unfolding row_answer
row_answer_lem nulls n test unknown found j c h t = elim (Bool-cases (null_at nulls j)) [
  | inl e ↦ rw (is_null_bit-null_at j c h, e) refl
  | inr e ↦ rw (is_null_bit-null_at j c h, e, t e) refl
]

-- LIKE: NULL for a NULL row, and otherwise whether the row's string matches.
pub eval_like-truth :
    (strings : ℕ → Result Bytes) (texts : ℕ → Bytes) (n : ℕ) (nulls pattern : Bytes)
    → Covers nulls n
    → ((j : ℕ) → j < n → null_at nulls j ≡ false → strings j ≡ ok (texts j))
    → Yields n
        (eval_like strings n nulls pattern)
        (λ j. if null_at nulls j then none else some (like_match pattern (texts j)))
unfolding eval_like
eval_like-truth strings texts n nulls pattern c h =
    mark_rows-truth n (λ j. if null_at nulls j then none else some (like_match pattern (texts j)))
      (row_answer nulls (λ i. strings i >>= λ s. ok (like_match pattern s)) false)
      (λ j hj.
        row_answer_lem nulls n (λ i. strings i >>= λ s. ok (like_match pattern s)) false
          (like_match pattern (texts j)) j c hj (λ e. rw (h j hj e) refl)
        ∙ ground arith)

-- `x IN (literals)` when each value of `x` has a test of the literals.
pub eval_in-truth :
    (o : Order) (v : Vector) (literals : List Literal) (has_null : Bool) (same : ℕ → Literal → Bool)
    → Covers (nulls_of v) (vector_len v)
    → ((j : ℕ) → j < vector_len v → null_at (nulls_of v) j ≡ false → equals_row o v j ≡ ok (same j))
    → Yields (vector_len v) (eval_in o v literals has_null) (λ j.
      if null_at (nulls_of v) j
      then none
      else if any_literal (same j) literals
      then some true
      else if has_null
      then none
      else some false)
unfolding eval_in
eval_in-truth o v literals has_null same c h =
    mark_rows-truth (vector_len v)
      (λ j.
        if null_at (nulls_of v) j
        then none
        else if any_literal (same j) literals
        then some true
        else if has_null
        then none
        else some false)
      (row_answer (nulls_of v) (λ i. equals_row o v i >>= λ same. ok (any_literal same literals))
        has_null)
      (λ j hj.
        row_answer_lem (nulls_of v) (vector_len v)
          (λ i. equals_row o v i >>= λ same. ok (any_literal same literals)) has_null
          (any_literal (same j) literals) j c hj (λ e. rw (h j hj e) refl)
        ∙ ground arith)

-- What `StringEqExpr` says of a row, when the dictionary has `code` for the literal: without a code,
-- `!=` is TRUE of every row and `=` is NULL of every row.
unfoldable pub string_eq_answer : List ℕ → Bytes → Option ℕ → Bool → ℕ → Option Bool
string_eq_answer codes nulls none negate j = if negate then some true else none
string_eq_answer codes nulls (some code) negate j =
    if null_at nulls j
    then none
    else some (if negate then not (get_or codes j 0 == code) else get_or codes j 0 == code)

-- The fast path of string equality on a column with a dictionary: with a code for the literal, a
-- NULL row is NULL and any other compares its code; without one, the inequality is TRUE of every
-- row, NULL rows too, and the equality is NULL of every row.
pub eval_string_eq-truth :
    (codes : List ℕ) (nulls : Bytes) (code : Option ℕ) (negate : Bool)
    → Covers nulls (length codes)
    → Yields
        (length codes)
        (eval_string_eq codes nulls true code negate)
        (string_eq_answer codes nulls code negate)
unfolding eval_string_eq string_eq_answer acquire_bool_vector
eval_string_eq-truth codes nulls none true c =
    let n : ℕ = length codes in
    let full : Bytes = full_bitmap n in
    let cf : Covers full n = full_bitmap-Covers n in
    let copied : copy_bytes (replicate ((n + 7) / 8) 0) full ≡ full =
      copy_bytes-same _ full
        (length-full_bitmap n ∙ sym (length-replicate {A = ℕ} ((n + 7) / 8) 0)) in
    (
      record { bits = full; null_bitmap = full; rows = n },
      rw (set_all_valid-zeros n, copied) refl,
      full-HasRows n full cf.bytes (length-full_bitmap n),
      λ j hj. unfold truth in rw (truth-full n j hj) refl,
    )
eval_string_eq-truth codes nulls none false c =
    let n : ℕ = length codes in
    (acquire_bool_vector n, refl, acquire_bool_vector-HasRows n, λ j hj. truth-fresh n j)
eval_string_eq-truth codes nulls (some code) negate c =
    let n : ℕ = length codes in
    let test : ℕ → Result Bool =
      λ i. index codes i >>= λ d. ok (if negate then not (d == code) else d == code) in
    let found : ℕ → Bool =
      λ j. if negate then not (get_or codes j 0 == code) else get_or codes j 0 == code in
    mark_rows-truth n (λ j. if null_at nulls j then none else some (found j))
      (row_answer nulls test false)
      (λ j hj.
        row_answer_lem nulls n test false (found j) j c hj
          (λ e. rw (index-get_or codes j 0 hj) refl)
        ∙ ground arith)

unfoldable pub occurs : ℕ → List ℕ → Bool
occurs a [] = false
occurs a (b ∷ bs) = a == b || occurs a bs

any_literal-occurs :
    (a : ℕ) (bs : List ℕ) → any_literal (same_int64 a) (map int64_literal bs) ≡ occurs a bs
unfolding any_literal same_int64 occurs
any_literal-occurs a [] = refl
any_literal-occurs a (b ∷ bs) = ap (λ t. a == b || t) (any_literal-occurs a bs)

equals_row-int64 :
    (o : Order) (values : List ℕ) (nulls : Bytes) (j : ℕ)
    → j < length values
    → equals_row o (int64_vector values nulls) j ≡ ok (same_int64 (get_or values j 0))
unfolding equals_row
equals_row-int64 o values nulls j h = rw (index-get_or values j 0 h) refl

-- IN on an INT64 column succeeds for a bitmap that covers the rows: NULL for a NULL row, TRUE for
-- a value of the list, and for any other NULL if the list has a NULL and FALSE if not.
pub eval_in_int64-truth :
    (o : Order) (values : List ℕ) (nulls : Bytes) (literals : List ℕ) (has_null : Bool)
    → Covers nulls (length values)
    → Yields
        (length values)
        (eval_in o (int64_vector values nulls) (map int64_literal literals) has_null)
        (λ j.
          if null_at nulls j
          then none
          else if occurs (get_or values j 0) literals
          then some true
          else if has_null
          then none
          else some false)
unfolding vector_len nulls_of
eval_in_int64-truth o values nulls literals has_null c =
    let (out, r, h, at) =
      eval_in-truth o (int64_vector values nulls) (map int64_literal literals) has_null
        (λ j. same_int64 (get_or values j 0)) c (λ j hj e. equals_row-int64 o values nulls j hj) in
    (
      out,
      r,
      h,
      λ j hj.
          at j hj
          ∙ ap
              (λ t.
                if null_at nulls j
                then none
                else if t
                then some true
                else if has_null
                then none
                else some false)
              (any_literal-occurs (get_or values j 0) literals),
    )
