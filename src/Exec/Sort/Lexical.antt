-- ===== src/Exec/Sort/Lexical.antt =====
-- `less` decides an order of the rows, by one key after the other.
use vexq.Prelude.{
  ltb, ◌==◌, if◌then◌else◌, Bool-cases, length, get_or, All, u64, ltb_i64, Result, ok, ℕ, zero, suc,
  ◌+◌, ◌%◌, ◌^◌, ◌<◌, ◌≡◌, refl, ap, ◌∙◌, inl, inr, Bool, true, false, none, some, List, [], ◌∷◌,
  arith,
}
use vexq.Storage.Schema.{Field, type_float64, type_string}
use vexq.Exec.Compare.{Order}
use vexq.Exec.Sort.{
  SortKey, SortRow, ltb_bytes, directed, float_verdict, ordered, value_verdict, key_verdict, less,
}
use vexq.Exec.Sort.Keys.{
  IsStrictWeak, IsFloatOrder, HasCells, toward, nulls_first, nans_last, then_by, verdict_of,
  toward-IsStrictWeak, nulls_first-IsStrictWeak, then_by-IsStrictWeak, nans_last-IsStrictWeak,
  by_image-IsStrictWeak, ltb-IsStrictWeak, ltb_bytes-IsStrictWeak, ltb_bytes-equal, ltb_i64-equal,
}
use vexq.Exec.Sort.Verdicts.{
  type_at, index-get_or, index-type_at, directed-verdict_of, verdict_of_same, IsStrictWeak-same,
  null_verdict,
}

module _ (floats : Order) (is_nan : ℕ → Bool) where
  abbrev pub float_before : ℕ → ℕ → Bool
  float_before = nans_last is_nan floats.lt

  unfoldable pub number_before : ℕ → ℕ → ℕ → Bool
  number_before t v w = if t == type_float64 then float_before v w else ltb_i64 v w

  unfoldable pub value_before : ℕ → ℕ → SortRow → SortRow → Bool
  unfolding number_before
  value_before t i a b =
      if t == type_string
      then ltb_bytes (get_or a.str_values i []) (get_or b.str_values i [])
      else number_before t (get_or a.values i 0) (get_or b.values i 0)

  unfoldable pub key_before : ℕ → SortKey → SortRow → SortRow → Bool
  unfolding value_before
  key_before t key =
      nulls_first (λ r. get_or r.nulls key.col_idx false)
        (toward key.descending (value_before t key.col_idx))

  -- The order by all keys.
  unfoldable pub row_before : List Field → List SortKey → SortRow → SortRow → Bool
  unfolding key_before
  row_before fields [] a b = false
  row_before fields (key ∷ keys) a b =
      then_by (key_before (type_at fields key.col_idx) key) (row_before fields keys) a b

module _ (floats : Order) (is_nan : ℕ → Bool) (is_order : IsFloatOrder floats is_nan) where
  float_verdict_lem :
      (d : Bool) (v w : ℕ)
      → float_verdict floats is_nan d v w ≡ verdict_of (toward d (float_before floats is_nan)) v w
  unfolding float_verdict directed verdict_of toward nans_last
  float_verdict_lem true v w = ground (arith, is_order.number_eq v w, is_order.nan_eq v w)
  float_verdict_lem false v w = ground (arith, is_order.number_eq v w, is_order.nan_eq v w)

  ordered-verdict_of :
      (t : ℕ) (d : Bool) (v w : ℕ)
      → v < u64
      → w < u64
      → ordered floats is_nan t d v w ≡ verdict_of (toward d (number_before floats is_nan t)) v w
  unfolding ordered
  ordered-verdict_of t d v w h h' = elim (Bool-cases (t == type_float64)) [
    | inl e ↦ rw e (
        float_verdict_lem d v w
        ∙ verdict_of_same d (float_before floats is_nan) (number_before floats is_nan t) v w v w
            (unfold number_before in rw e refl) (unfold number_before in rw e refl))
    | inr e ↦ rw e (
        directed-verdict_of d ltb_i64 v w (v == w) (ltb_i64-equal v w h h')
        ∙ verdict_of_same d ltb_i64 (number_before floats is_nan t) v w v w
            (unfold number_before in rw e refl) (unfold number_before in rw e refl))
  ]

  value_verdict_lem :
      (fields : List Field) (t : ℕ) (key : SortKey) (a b : SortRow)
      → key.col_idx < length fields
      → HasCells fields a
      → HasCells fields b
      → value_verdict floats is_nan t key a b
        ≡ ok (verdict_of (toward key.descending (value_before floats is_nan t key.col_idx)) a b)
  unfolding value_verdict
  value_verdict_lem fields t key a b inside ca cb =
      let i : ℕ = key.col_idx in
      elim (Bool-cases (t == type_string)) [
        | inl e ↦
            let s = index-get_or a.str_values i [] (omega (arith, inside, ca.string_size)) in
            let s' = index-get_or b.str_values i [] (omega (arith, inside, cb.string_size)) in
            rw (e, s, s')
              (ap ok (
                directed-verdict_of key.descending ltb_bytes _ _ _ (ltb_bytes-equal _ _)
                ∙ verdict_of_same key.descending ltb_bytes (value_before floats is_nan t i)
                    (get_or a.str_values i []) (get_or b.str_values i []) a b
                    (unfold value_before in rw e refl) (unfold value_before in rw e refl)))
        | inr e ↦
            let v = index-get_or a.values i 0 (omega (arith, inside, ca.value_size)) in
            let v' = index-get_or b.values i 0 (omega (arith, inside, cb.value_size)) in
            rw (e, v, v')
              (ap ok (
                ordered-verdict_of t key.descending _ _ (word a.values i ca.words)
                  (word b.values i cb.words)
                ∙ verdict_of_same key.descending (number_before floats is_nan t)
                    (value_before floats is_nan t i) (get_or a.values i 0) (get_or b.values i 0) a b
                    (unfold value_before in rw e refl) (unfold value_before in rw e refl)))
      ]
    where
      word : (vs : List ℕ) (i : ℕ) → All (λ v. v < u64) vs → get_or vs i 0 < u64
      word [] i h = omega arith
      word (v ∷ vs) zero h = h.0
      word (v ∷ vs) (suc i) h = word vs i h.1

  key_verdict_lem :
      (fields : List Field) (key : SortKey) (a b : SortRow)
      → key.col_idx < length fields
      → HasCells fields a
      → HasCells fields b
      → key_verdict floats is_nan fields key a b
        ≡ ok (verdict_of (key_before floats is_nan (type_at fields key.col_idx) key) a b)
  unfolding key_verdict key_before
  key_verdict_lem fields key a b inside ca cb =
      let i : ℕ = key.col_idx in
      let na = index-get_or a.nulls i false (omega (arith, inside, ca.null_size)) in
      let nb = index-get_or b.nulls i false (omega (arith, inside, cb.null_size)) in
      let (f, e, same) = index-type_at fields i inside in
      let value = value_verdict_lem fields f.data_type key a b inside ca cb in
      rw (na, nb, e, value, same)
        (null_verdict (λ r. get_or r.nulls i false)
          (toward key.descending (value_before floats is_nan (type_at fields i) i)) a b)

  value_before-IsStrictWeak : (t i : ℕ) → IsStrictWeak (value_before floats is_nan t i)
  value_before-IsStrictWeak t i = elim (Bool-cases (t == type_string)) [
    | inl e ↦
        IsStrictWeak-same (value_before floats is_nan t i)
          (by_image-IsStrictWeak (λ r. get_or r.str_values i []) ltb_bytes ltb_bytes-IsStrictWeak)
          (λ a b. unfold value_before in rw e refl)
    | inr e ↦ elim (Bool-cases (t == type_float64)) [
      | inl e' ↦
          IsStrictWeak-same (value_before floats is_nan t i)
            (by_image-IsStrictWeak (λ r. get_or r.values i 0) (float_before floats is_nan)
              (nans_last-IsStrictWeak is_nan floats.lt is_order.asym is_order.cotrans))
            (λ a b. unfold value_before number_before in rw (e, e') refl)
      | inr e' ↦
          IsStrictWeak-same (value_before floats is_nan t i)
            (by_image-IsStrictWeak (λ r. (get_or r.values i 0 + 2 ^ 63) % u64) ltb ltb-IsStrictWeak)
            (λ a b. unfold value_before number_before in rw (e, e') refl)
    ]
  ]

  pub row_before-IsStrictWeak :
      (fields : List Field) (keys : List SortKey)
      → IsStrictWeak (row_before floats is_nan fields keys)
  unfolding row_before key_before
  row_before-IsStrictWeak fields [] = record { asym = λ a b h. refl; cotrans = λ a b c h n. cc }
  row_before-IsStrictWeak fields (key ∷ keys) =
      then_by-IsStrictWeak _ _
        (nulls_first-IsStrictWeak _ _ (
          toward-IsStrictWeak key.descending _
            (value_before-IsStrictWeak (type_at fields key.col_idx) key.col_idx)))
        (row_before-IsStrictWeak fields keys)

  verdict_less :
      (lt : SortRow → SortRow → Bool) (a b : SortRow) (rest : Result Bool) (later : Bool)
      → rest ≡ ok later
      → elim (verdict_of lt a b) [ some below ↦ ok below | none ↦ rest ]
        ≡ ok (if lt a b then true else if lt b a then false else later)
  unfolding verdict_of
  verdict_less lt a b rest later h = elim (Bool-cases (lt a b)) [
    | inl e ↦ rw e refl
    | inr e ↦ elim (Bool-cases (lt b a)) [ inl e' ↦ rw (e, e') refl | inr e' ↦ rw (e, e') h ]
  ]

  pub less_lem :
      (fields : List Field) (keys : List SortKey)
      → All (λ key. key.col_idx < length fields) keys
      → (a b : SortRow) → HasCells fields a
      → HasCells fields b
      → less floats is_nan fields keys a b ≡ ok (row_before floats is_nan fields keys a b)
  unfolding less row_before then_by
  less_lem fields [] inside a b ca cb = refl
  less_lem fields (key ∷ keys) (h, hs) a b ca cb = rw (key_verdict_lem fields key a b h ca cb) (
      verdict_less (key_before floats is_nan (type_at fields key.col_idx) key) a b _ _
        (less_lem fields keys hs a b ca cb))

  -- For rows with a cell for each field, keys within the schema and float64 comparison as IEEE 754
  -- has it, less does not panic and decides the order by one key after the other, with NULL before
  -- every value, values in the direction of the key and NaN behind the numbers in ascending order,
  -- and that order is a strict weak order.
  pub less-row_before :
      (fields : List Field) (keys : List SortKey)
      → All (λ key. key.col_idx < length fields) keys
      → (a b : SortRow) → HasCells fields a
      → HasCells fields b
      → (less floats is_nan fields keys a b ≡ ok (row_before floats is_nan fields keys a b))
        × IsStrictWeak (row_before floats is_nan fields keys)
  less-row_before fields keys inside a b ca cb =
      (less_lem fields keys inside a b ca cb, row_before-IsStrictWeak fields keys)
