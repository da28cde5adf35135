-- ===== src/Exec/Predicates.antt =====
-- exec/expr.go: the predicates that walk their rows one by one (`InExpr`, `LikeExpr`, `StringEqExpr`,
-- `IsNullExpr`, `IsNotNullExpr`). A STRING column is what `Get` answers for each row, and its bitmap.
pub mod Meaning
pub mod NullTests
use vexq.Prelude.{
  ◌>>=◌, ltb, leb, ◌==◌, if◌then◌else◌, ltb→lt, lt→ltb, leb→le, ==_iff, tests, Bool-cases,
  Option-cases, codes, bytes_eq, bytes_eq→eq, bytes_eq_refl, bytes_eq_iff, length, get_elem?, set,
  length-append, length-set, get_elem?-set_self, get_elem?-set_ne, get_or, take, drop, replicate,
  take-append-drop, length-take, length-drop, length-replicate, length-map, append_cancel,
  take_append, All, All-append, drop_all, drop_some, take_all, take_some, map-drop, map-take,
  take_full, Bytes, IsByte, u16, u32, u64, ltb_i64, ltb_i32, Error, checksum, corrupt_footer,
  bad_magic, type_mismatch, column_complete, row_group_open, missing_columns, index_out_of_range,
  unexpected_eof, eof, canceled, unsupported_type, Result, ok, err, panic, reject_if, Safe,
  Safe-bind, Safe-reject_if, ℕ, zero, suc, ◌+◌, ◌-◌, ◌*◌, ◌/◌, ◌%◌, ◌^◌, ◌≤◌, ◌<◌, min, ◌≡◌, refl,
  sym, ap, ap₂, ◌∙◌, subst, fun_ext, ◌≢◌, ◌↔◌, ◌⊎◌, inl, inr, Bool, true, false, not, ◌&&◌, ◌||◌,
  Option, none, some, List, [], ◌∷◌, ◌++◌, map, append-nil, append_assoc, foldl, arith,
}
use vexq.Storage.Bitmap.{index, is_null_bit, set_valid_bit}
use vexq.Exec.Vector.{
  copy_bytes, BoolVector, acquire_bool_vector, set_value, set_all_valid, get_value,
}
use vexq.Exec.Like.{like_match}
use vexq.Exec.Compare.{Order}

-- The loop over the rows from `i` on; a row with no answer stays NULL.
unfoldable pub mark_rows : (ℕ → Result (Option Bool)) → ℕ → ℕ → BoolVector → Result BoolVector
mark_rows row zero i out = ok out
mark_rows row (suc left) i out = do
  answer ← row i
  out ← elim answer [
    | none ↦ ok out
    | some val ↦ (do
      nulls ← set_valid_bit out.null_bitmap i
      set_value (record out { null_bitmap = nulls }) i val)
  ]
  mark_rows row left (i + 1) out

-- A NULL row has no answer, and a `false` that NULL in the list makes unknown has none.
unfoldable pub row_answer : Bytes → (ℕ → Result Bool) → Bool → ℕ → Result (Option Bool)
row_answer nulls test unknown i = do
  null ← is_null_bit nulls i
  let asked = (do found ← test i; ok (if not found && unknown then none else some found))
  (if null then ok none else asked)

-- The literals of an IN list. Numbers are bit patterns.
pub data Literal : Type 0 where
  int64_literal float64_literal date_literal : ℕ → Literal
  string_literal : Bytes → Literal
  bool_literal : Bool → Literal

pub data Vector : Type 0 where
  int64_vector float64_vector date_vector : List ℕ → Bytes → Vector
  string_vector : (ℕ → Result Bytes) → ℕ → Bytes → Vector
  bool_vector : BoolVector → Vector

unfoldable pub vector_len : Vector → ℕ
vector_len (int64_vector values nulls) = length values
vector_len (float64_vector values nulls) = length values
vector_len (date_vector values nulls) = length values
vector_len (string_vector strings rows nulls) = rows
vector_len (bool_vector v) = v.rows

unfoldable pub nulls_of : Vector → Bytes
nulls_of (int64_vector values nulls) = nulls
nulls_of (float64_vector values nulls) = nulls
nulls_of (date_vector values nulls) = nulls
nulls_of (string_vector strings rows nulls) = nulls
nulls_of (bool_vector v) = v.null_bitmap

same_int64 : ℕ → Literal → Bool
same_int64 a (int64_literal b) = a == b
same_int64 a (float64_literal b) = false
same_int64 a (date_literal b) = false
same_int64 a (string_literal s) = false
same_int64 a (bool_literal b) = false

same_float64 : Order → ℕ → Literal → Bool
same_float64 o a (int64_literal b) = false
same_float64 o a (float64_literal b) = o.eq a b
same_float64 o a (date_literal b) = false
same_float64 o a (string_literal s) = false
same_float64 o a (bool_literal b) = false

same_date : ℕ → Literal → Bool
same_date a (int64_literal b) = false
same_date a (float64_literal b) = false
same_date a (date_literal b) = a == b
same_date a (string_literal s) = false
same_date a (bool_literal b) = false

same_string : Bytes → Literal → Bool
same_string a (int64_literal b) = false
same_string a (float64_literal b) = false
same_string a (date_literal b) = false
same_string a (string_literal s) = bytes_eq a s
same_string a (bool_literal b) = false

same_bool : Bool → Literal → Bool
same_bool a (int64_literal b) = false
same_bool a (float64_literal b) = false
same_bool a (date_literal b) = false
same_bool a (string_literal s) = false
same_bool a (bool_literal b) = if a then b else not b

-- Whether a test holds of a literal of the list.
unfoldable pub any_literal : (Literal → Bool) → List Literal → Bool
any_literal test [] = false
any_literal test (v ∷ set) = test v || any_literal test set

-- The value of a row, to be looked for in the list; `Order` gives the equality of float64 values.
unfoldable pub equals_row : Order → Vector → ℕ → Result (Literal → Bool)
unfolding same_int64 same_float64 same_date same_string same_bool
equals_row o (int64_vector values nulls) i = do v ← index values i; ok (same_int64 v)
equals_row o (float64_vector values nulls) i = do v ← index values i; ok (same_float64 o v)
equals_row o (date_vector values nulls) i = do v ← index values i; ok (same_date v)
equals_row o (string_vector strings rows nulls) i = do s ← strings i; ok (same_string s)
equals_row o (bool_vector v) i = do b ← get_value v i; ok (same_bool b)

-- `InExpr` on its child's vector; `set` is looked through only when the row has a value.
unfoldable pub eval_in : Order → Vector → List Literal → Bool → Result BoolVector
unfolding mark_rows row_answer vector_len nulls_of any_literal equals_row acquire_bool_vector
eval_in o v set has_null =
    let n = vector_len v in
    mark_rows
      (row_answer (nulls_of v) (λ i. do same ← equals_row o v i; ok (any_literal same set))
        has_null)
      n 0 (acquire_bool_vector n)

-- `LikeExpr` on a STRING column.
unfoldable pub eval_like : (ℕ → Result Bytes) → ℕ → Bytes → Bytes → Result BoolVector
unfolding mark_rows row_answer acquire_bool_vector like_match
eval_like strings n nulls pattern =
    mark_rows (row_answer nulls (λ i. do s ← strings i; ok (like_match pattern s)) false) n 0
      (acquire_bool_vector n)

-- `StringEqExpr` on a column of codes: `has_dict` tells whether it has a dictionary, and `code` is
-- what the dictionary's `Lookup` answers for the literal.
unfoldable pub eval_string_eq : List ℕ → Bytes → Bool → Option ℕ → Bool → Result BoolVector
unfolding mark_rows row_answer acquire_bool_vector set_all_valid
eval_string_eq codes nulls has_dict code negate =
    let n = length codes in
    let out = acquire_bool_vector n in
    if not has_dict then ok out else elim code [
      | none ↦
          if negate
          then (let valid = set_all_valid out.null_bitmap n in
              ok (record out { null_bitmap = valid; bits = copy_bytes out.bits valid }))
          else ok out
      | some code ↦
          mark_rows
            (row_answer nulls
              (λ i. do c ← index codes i; ok (if negate then not (c == code) else c == code)) false)
            n 0 out
    ]

-- `IsNullExpr` and, negated, `IsNotNullExpr`: every row is valid, and its bit is set from row `i` on.
unfoldable pub null_rows : Bool → Bytes → ℕ → ℕ → BoolVector → Result BoolVector
null_rows negate nulls zero i out = ok out
null_rows negate nulls (suc left) i out = do
  null ← is_null_bit nulls i
  out ← set_value out i (if negate then not null else null)
  null_rows negate nulls left (i + 1) out

unfoldable pub eval_is_null : Bool → Bytes → ℕ → Result BoolVector
unfolding null_rows acquire_bool_vector set_all_valid
eval_is_null negate nulls n =
    let out = acquire_bool_vector n in
    null_rows negate nulls n 0 (record out { null_bitmap = set_all_valid out.null_bitmap n })
