-- ===== src/Planner/Zones/Meaning.antt =====
-- What a predicate says of one row, as exec/expr.go compares a cell with a literal.
use mathlib.Core.Option
use vexq.Prelude.{
  ◌==◌, if◌then◌else◌, get_elem?, Bytes, ℕ, Bool, true, false, not, ◌&&◌, ◌||◌, Option, none, some,
  List,
}
use vexq.Sql.Ast.{Expr, float_literal, binary_expr, between_expr, BinOp, op_and, op_or}
use vexq.Storage.Schema.{Field, index_of, type_int64, type_float64, type_date}
use vexq.Exec.Compare.{Order, BinOpKind, bin_le, bin_ge, cmp, int64_order, date_order}
use vexq.Planner.Constants.{
  FloatOps, Numeric, int_value, float_value, zone_literal, date_days, fold_constant, exact_int64,
  comparison_kind,
}
use vexq.Planner.Zones.{float64_of, column_name}

-- A row's cells by the column's index; `none` is NULL.
abbrev pub Row : Type 0
Row = ℕ → Option ℕ

-- `cell OP literal`, or `literal OP cell`.
abbrev pub sides : Order → BinOpKind → Bool → ℕ → ℕ → Bool
sides o kind false a v = cmp o kind a v
sides o kind true a v = cmp o kind v a

-- A literal without a sign is coerced to the column's type (`coerceOneSide`); one with a sign is a
-- product for exec.
unfoldable pub is_unsigned_float : Expr → Bool
is_unsigned_float (float_literal f) = true
is_unsigned_float _ = false

unfoldable pub is_int : Option Numeric → Bool
is_int none = false
is_int (some (int_value v)) = true
is_int (some (float_value f)) = false

unfoldable pub is_float : Option Numeric → Bool
is_float none = false
is_float (some (int_value v)) = false
is_float (some (float_value f)) = true

module _ (fl : FloatOps) (parse_time : Bytes → Option ℕ) where
  -- The number that an INT64 cell is compared with, as one of its own type.
  unfoldable pub int64_operand : Bool → Numeric → Numeric
  int64_operand unsigned (int_value v) = int_value v
  int64_operand false (float_value f) = float_value f
  int64_operand true (float_value f) = elim (exact_int64 fl f) [
    | none ↦ float_value f
    | some v ↦ int_value v
  ]

  unfoldable pub int64_literal : Expr → Option Numeric
  unfolding int64_operand is_unsigned_float
  int64_literal lit = Option.map (int64_operand (is_unsigned_float lit)) (zone_literal fl lit)

  -- An INT64 cell beside a number of its own type, or both as floats.
  unfoldable pub int64_passes : BinOpKind → Bool → Option Numeric → ℕ → Bool
  int64_passes kind s none a = true
  int64_passes kind s (some (int_value v)) a = sides int64_order kind s a v
  int64_passes kind s (some (float_value f)) a = sides fl.order kind s (fl.of_int a) f

  unfoldable pub float64_passes : BinOpKind → Bool → Option Numeric → ℕ → Bool
  float64_passes kind s none a = true
  float64_passes kind s (some v) a = sides fl.order kind s a (float64_of fl parse_time v)

  unfoldable pub date_passes : BinOpKind → Bool → Option ℕ → ℕ → Bool
  date_passes kind s none a = true
  date_passes kind s (some d) a = sides date_order kind s a d

  unfoldable pub cell_passes : BinOpKind → Bool → Expr → ℕ → ℕ → Bool
  unfolding int64_passes int64_literal float64_passes date_passes
  cell_passes kind s lit t a =
      if t == type_int64
      then int64_passes kind s (int64_literal lit) a
      else if t == type_float64
      then float64_passes kind s (zone_literal fl lit) a
      else if t == type_date
      then date_passes kind s (date_days parse_time (fold_constant fl lit)) a
      else true

  -- A NULL cell passes no comparison.
  unfoldable pub field_passes : BinOpKind → Bool → Expr → Option Field → Option ℕ → Bool
  unfolding cell_passes
  field_passes kind s lit (some field) none = false
  field_passes kind s lit (some field) (some a) = cell_passes kind s lit field.data_type a
  field_passes kind s lit none cell = true

  unfoldable pub named_passes : BinOpKind → Bool → Bytes → Expr → List Field → Row → Bool
  unfolding field_passes
  named_passes kind s name lit schema row = elim (index_of schema name) [
    | none ↦ true
    | some i ↦ field_passes kind s lit (get_elem? schema i) (row i)
  ]

  -- A comparison of a column with anything.
  unfoldable pub passes : BinOp → Expr → Expr → List Field → Row → Bool
  unfolding named_passes
  passes op l r schema row = elim (comparison_kind op) [
    | none ↦ true
    | some kind ↦ elim (column_name l) [
      | some name ↦ named_passes kind false name r schema row
      | none ↦ elim (column_name r) [
        | some name ↦ named_passes kind true name l schema row
        | none ↦ true
      ]
    ]
  ]

  -- `col >= lo AND col <= hi` with an INT64 cell: as floats once a bound is one. Of a bound that is no
  -- literal the type is open, so the row may pass either way.
  unfoldable pub between_int64 : Option Numeric → Option Numeric → ℕ → Bool
  unfolding int64_passes float64_passes is_int is_float
  between_int64 lo hi a =
      let ints = int64_passes bin_ge false lo a && int64_passes bin_le false hi a in
      let floats =
        float64_passes bin_ge false lo (fl.of_int a)
        && float64_passes bin_le false hi (fl.of_int a) in
      if is_float lo || is_float hi
      then floats
      else if is_int lo && is_int hi
      then ints
      else ints || floats

  unfoldable pub field_between : Expr → Expr → Option Field → Option ℕ → Bool
  unfolding cell_passes between_int64
  field_between lo hi (some field) none = false
  field_between lo hi (some field) (some a) =
      if field.data_type == type_int64
      then between_int64 (int64_literal lo) (int64_literal hi) a
      else cell_passes bin_ge false lo field.data_type a
        && cell_passes bin_le false hi field.data_type a
  field_between lo hi none cell = true

  unfoldable pub between : Option Bytes → Expr → Expr → List Field → Row → Bool
  unfolding field_between
  between none lo hi schema row = true
  between (some name) lo hi schema row = elim (index_of schema name) [
    | none ↦ true
    | some i ↦ field_between lo hi (get_elem? schema i) (row i)
  ]

  -- False only if the predicate is not TRUE on the row; what is no AND, OR, comparison of a column
  -- with a literal or BETWEEN on a column may hold of any row.
  unfoldable pub may_pass : Expr → List Field → Row → Bool
  unfolding passes between
  may_pass (binary_expr op l r) schema row =
      let p = may_pass l schema row in
      let q = may_pass r schema row in
      elim op [ op_and ↦ p && q | op_or ↦ p || q | other ↦ passes other l r schema row ]
  may_pass (between_expr e lo hi negate) schema row =
      negate || between (column_name e) lo hi schema row
  may_pass _ schema row = true

  unfoldable pub field_uniform : Expr → Expr → Option Field → Bool
  unfolding int64_literal is_int
  field_uniform lo hi none = true
  field_uniform lo hi (some field) =
      not (field.data_type == type_int64)
      || (if is_int (int64_literal lo)
          then is_int (int64_literal hi)
          else not (is_int (int64_literal hi)))

  unfoldable pub between_uniform : Option Bytes → Expr → Expr → List Field → Bool
  unfolding field_uniform
  between_uniform none lo hi schema = false
  between_uniform (some name) lo hi schema = elim (index_of schema name) [
    | none ↦ true
    | some i ↦ field_uniform lo hi (get_elem? schema i)
  ]

  -- Every BETWEEN is on a column, and on an INT64 column both bounds are int64 literals, once they are
  -- coerced, or neither is.
  unfoldable pub is_uniform : Expr → List Field → Bool
  unfolding between_uniform
  is_uniform (binary_expr op l r) schema = is_uniform l schema && is_uniform r schema
  is_uniform (between_expr e lo hi negate) schema =
      negate || between_uniform (column_name e) lo hi schema
  is_uniform _ schema = true
