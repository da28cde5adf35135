-- ===== src/Exec/Sort.antt =====
-- exec/sort.go (`SortKey`, `sortRow`, `less`, the row loop of `consumeAndSort`): the rows to be sorted
-- and their order. What float64 values do under `==` and `<`, and `math.IsNaN`, are parameters.
pub mod Keys
pub mod Verdicts
pub mod Lexical
pub mod Emit
pub mod Operator
pub mod Consumed
pub mod Sorted
use vexq.Prelude.{
  ◌>>=◌, ltb, leb, ◌==◌, if◌then◌else◌, ltb→lt, lt→ltb, leb→le, ==_iff, tests, Bool-cases,
  Option-cases, codes, bytes_eq, bytes_eq→eq, bytes_eq_refl, bytes_eq_iff, length, get_elem?, set,
  length-append, length-set, get_elem?-set_self, get_elem?-set_ne, get_or, take, drop, replicate,
  take-append-drop, length-take, length-drop, length-replicate, length-map, append_cancel,
  take_append, All, All-append, drop_all, drop_some, take_all, take_some, map-drop, map-take,
  take_full, drop-drop, take-take, take-drop-take, Bytes, IsByte, u16, u32, u64, ltb_i64, ltb_i32,
  Error, checksum, corrupt_footer, bad_magic, type_mismatch, column_complete, row_group_open,
  missing_columns, index_out_of_range, unexpected_eof, eof, canceled, unsupported_type,
  no_sort_keys, Result, ok, err, panic, reject_if, Safe, Safe-bind, Safe-reject_if, ℕ, zero, suc,
  ◌+◌, ◌-◌, ◌*◌, ◌/◌, ◌%◌, ◌^◌, ◌≤◌, ◌<◌, min, ◌≡◌, refl, sym, ap, ap₂, ◌∙◌, subst, fun_ext, ◌≢◌,
  ◌↔◌, ◌⊎◌, inl, inr, Bool, true, false, not, ◌&&◌, ◌||◌, Option, none, some, List, [], ◌∷◌, ◌++◌,
  map, append-nil, append_assoc, foldl, arith,
}
use vexq.Storage.Bitmap.{index, is_null_bit}
use vexq.Storage.Schema.{Field, type_float64, type_string}
use vexq.Exec.Vector.{get_value}
use vexq.Exec.Compare.{Order}
use vexq.Exec.Predicates.{
  Vector, int64_vector, float64_vector, date_vector, string_vector, bool_vector, nulls_of,
}

pub record SortKey : Type 0 where
  pub col_idx : ℕ
  pub descending : Bool

-- The values are bit patterns of 64 bits.
pub record SortRow : Type 0 where
  pub values : List ℕ
  pub nulls : List Bool
  pub str_values : List Bytes

-- A string is below another byte by byte.
unfoldable pub ltb_bytes : Bytes → Bytes → Bool
ltb_bytes s [] = false
ltb_bytes [] (y ∷ t) = true
ltb_bytes (x ∷ s) (y ∷ t) = let later = ltb_bytes s t in if x == y then later else ltb x y

-- Equal values leave the answer to the next key.
unfoldable pub directed : Bool → Bool → Bool → Bool → Option Bool
directed descending equal below above =
    if equal then none else if descending then some above else some below

module _ (floats : Order) (is_nan : ℕ → Bool) where
  unfoldable pub float_verdict : Bool → ℕ → ℕ → Option Bool
  unfolding directed
  float_verdict descending a b =
      if floats.eq a b || (is_nan a && is_nan b)
      then none
      else if is_nan a || is_nan b
      then some (if descending then not (is_nan b) else is_nan b)
      else directed descending false (floats.lt a b) (floats.lt b a)

  unfoldable pub ordered : ℕ → Bool → ℕ → ℕ → Option Bool
  unfolding float_verdict directed
  ordered t descending a b =
      if t == type_float64
      then float_verdict descending a b
      else directed descending (a == b) (ltb_i64 a b) (ltb_i64 b a)

  -- What the values of a column say that are both not NULL; `none` goes on to the next key.
  unfoldable pub value_verdict : ℕ → SortKey → SortRow → SortRow → Result (Option Bool)
  unfolding ltb_bytes ordered directed
  value_verdict t key a b =
      if t == type_string
      then (do
        s ← index a.str_values key.col_idx
        s' ← index b.str_values key.col_idx
        ok (directed key.descending (bytes_eq s s') (ltb_bytes s s') (ltb_bytes s' s)))
      else (do
        v ← index a.values key.col_idx
        v' ← index b.values key.col_idx
        ok (ordered t key.descending v v'))

  -- NULLs come first, whatever the direction.
  unfoldable pub key_verdict : List Field → SortKey → SortRow → SortRow → Result (Option Bool)
  unfolding value_verdict
  key_verdict fields key a b = do
    a_null ← index a.nulls key.col_idx
    b_null ← index b.nulls key.col_idx
    let compared = (do field ← index fields key.col_idx; value_verdict field.data_type key a b)
    (if a_null && b_null
        then ok none
        else if a_null
        then ok (some true)
        else if b_null
        then ok (some false)
        else compared)

  unfoldable pub less : List Field → List SortKey → SortRow → SortRow → Result Bool
  unfolding key_verdict
  less fields [] a b = ok false
  less fields (key ∷ keys) a b = do
    verdict ← key_verdict fields key a b
    elim verdict [ some below ↦ ok below | none ↦ less fields keys a b ]

-- An int32 as an int64.
unfoldable pub widen : ℕ → ℕ
widen v = if ltb v (2 ^ 31) then v else v + (u64 - u32)

-- `extractInt64`: the bits of a value.
unfoldable pub extract_int64 : Vector → ℕ → Result ℕ
unfolding widen
extract_int64 (int64_vector values nulls) i = index values i
extract_int64 (float64_vector values nulls) i = index values i
extract_int64 (date_vector values nulls) i = do v ← index values i; ok (widen v)
extract_int64 (string_vector strings rows nulls) i = ok 0
extract_int64 (bool_vector v) i = do val ← get_value v i; ok (if val then 1 else 0)

unfoldable pub extract_string : Vector → ℕ → Result Bytes
extract_string (int64_vector values nulls) i = ok []
extract_string (float64_vector values nulls) i = ok []
extract_string (date_vector values nulls) i = ok []
extract_string (string_vector strings rows nulls) i = strings i
extract_string (bool_vector v) i = ok []

add_cell : ℕ → Bool → Bytes → SortRow → SortRow
add_cell v null s row = record {
  values = v ∷ row.values;
  nulls = null ∷ row.nulls;
  str_values = s ∷ row.str_values;
}

-- One row of the vectors, a cell for each field of the schema.
unfoldable pub sort_row : List Field → List Vector → ℕ → Result SortRow
unfolding extract_int64 extract_string add_cell
sort_row [] vectors i = ok (record { values = []; nulls = []; str_values = [] })
sort_row (f ∷ fields) [] i = panic
sort_row (f ∷ fields) (v ∷ vectors) i = do
  null ← is_null_bit (nulls_of v) i
  value ← (if null then ok 0 else extract_int64 v i)
  s ← (if null then ok [] else extract_string v i)
  row ← sort_row fields vectors i
  ok (add_cell value null s row)

unfoldable pub sort_rows : List Field → List Vector → List ℕ → Result (List SortRow)
unfolding sort_row
sort_rows fields vectors [] = ok []
sort_rows fields vectors (i ∷ is) = do
  row ← sort_row fields vectors i
  rows ← sort_rows fields vectors is
  ok (row ∷ rows)
