-- ===== src/Planner/Zones.antt =====
-- planner/physical.go (`zonePredEval`, `zoneRangePred`): whether a row group may hold a row that
-- passes the predicate, from the bounds of its columns.
pub mod Meaning
pub mod Order
pub mod Columns
pub mod Between
pub mod Sound
use vexq.Prelude.{
  ◌==◌, if◌then◌else◌, get_elem?, Bytes, u32, u64, ltb_i64, ℕ, ◌-◌, ◌%◌, ◌^◌, Bool, true, false,
  not, ◌&&◌, ◌||◌, Option, none, some, List,
}
use vexq.Sql.Ast.{
  Expr, column_ref, binary_expr, between_expr, BinOp, op_eq, op_ne, op_lt, op_le, op_gt, op_ge,
  op_and, op_or, op_add, op_sub, op_mul, op_div,
}
use vexq.Storage.Schema.{
  ColumnSectionMeta, Field, ZoneMap, RowGroupMeta, index_of, type_int64, type_float64, type_date,
}
use vexq.Planner.Constants.{
  sign_extend, FloatOps, Numeric, int_value, float_value, zone_literal, zone_date_literal,
}

-- What `cmpOrdered` answers: -1, 0 or 1.
pub data Sign : Type 0 where
  minus_one nought plus_one : Sign

unfoldable pub cmp_ordered : (ℕ → ℕ → Bool) → ℕ → ℕ → Sign
cmp_ordered lt a b = if lt a b then minus_one else if lt b a then plus_one else nought

is_minus : Sign → Bool
is_minus minus_one = true
is_minus nought = false
is_minus plus_one = false

is_plus : Sign → Bool
is_plus minus_one = false
is_plus nought = false
is_plus plus_one = true

-- An int64 of magnitude at most 2^53.
unfoldable pub exact_float : ℕ → Bool
exact_float v = not (ltb_i64 v (u64 - 2 ^ 53)) && not (ltb_i64 (2 ^ 53) v)

unfoldable pub column_name : Expr → Option Bytes
column_name (column_ref table name) = some name
column_name _ = none

-- `literal OP col` as `col OP' literal`.
unfoldable pub flip : BinOp → BinOp
flip op_lt = op_gt
flip op_le = op_ge
flip op_gt = op_lt
flip op_ge = op_le
flip op = op

unfoldable pub bounds_answer : BinOp → Sign → Sign → Bool
unfolding is_minus is_plus
bounds_answer op_eq lo hi = not (is_plus lo) && not (is_minus hi)
bounds_answer op_lt lo hi = is_minus lo
bounds_answer op_le lo hi = not (is_plus lo)
bounds_answer op_gt lo hi = is_plus hi
bounds_answer op_ge lo hi = not (is_minus hi)
bounds_answer _ lo hi = true

module _ (fl : FloatOps) (parse_time : Bytes → Option ℕ) where
  -- `minCmp` and `maxCmp`; nothing where they are not known.
  pub int64_bounds : ZoneMap → Option Numeric → Option (Sign × Sign)
  unfolding cmp_ordered exact_float
  int64_bounds zm none = none
  int64_bounds zm (some (int_value v)) =
      some (cmp_ordered ltb_i64 zm.minimum v, cmp_ordered ltb_i64 zm.maximum v)
  int64_bounds zm (some (float_value f)) =
      if fl.is_nan f || not (exact_float zm.minimum) || not (exact_float zm.maximum)
      then none
      else some (
        cmp_ordered fl.order.lt (fl.of_int zm.minimum) f,
        cmp_ordered fl.order.lt (fl.of_int zm.maximum) f,
      )

  unfoldable pub float64_of : Numeric → ℕ
  float64_of (int_value v) = fl.of_int v
  float64_of (float_value f) = f

  pub float64_bounds : ZoneMap → Option Numeric → Option (Sign × Sign)
  unfolding cmp_ordered float64_of
  float64_bounds zm none = none
  float64_bounds zm (some v) =
      if fl.is_nan (float64_of v) || fl.is_nan zm.minimum || fl.is_nan zm.maximum
      then none
      else some (
        cmp_ordered fl.order.lt zm.minimum (float64_of v),
        cmp_ordered fl.order.lt zm.maximum (float64_of v),
      )

  pub date_bounds : ZoneMap → Option ℕ → Option (Sign × Sign)
  unfolding cmp_ordered
  date_bounds zm none = none
  date_bounds zm (some days) = some (
    cmp_ordered ltb_i64 (sign_extend (zm.minimum % u32)) days,
    cmp_ordered ltb_i64 (sign_extend (zm.maximum % u32)) days,
  )

  pub zone_bounds : ℕ → ZoneMap → Expr → Option (Sign × Sign)
  unfolding int64_bounds float64_bounds date_bounds
  zone_bounds t zm lit =
      if t == type_int64
      then int64_bounds zm (zone_literal fl lit)
      else if t == type_float64
      then float64_bounds zm (zone_literal fl lit)
      else if t == type_date
      then date_bounds zm (zone_date_literal fl parse_time lit)
      else none

  pub is_ne : BinOp → Bool
  is_ne op_ne = true
  is_ne _ = false

  -- A column of the file, by its field and its section.
  pub column_range : BinOp → Expr → Option Field → Option ColumnSectionMeta → Bool
  unfolding zone_bounds bounds_answer is_ne
  column_range op lit (some field) (some col) =
      if not col.stats.has_min_max || is_ne op
      then true
      else elim (zone_bounds field.data_type col.stats lit) [
        | none ↦ true
        | some (lo, hi) ↦ bounds_answer op lo hi
      ]
  column_range op lit _ _ = true

  -- `col OP literal`.
  pub named_range : BinOp → Bytes → Expr → List Field → RowGroupMeta → Bool
  unfolding column_range
  named_range op name lit schema rg = elim (index_of schema name) [
    | none ↦ true
    | some i ↦ column_range op lit (get_elem? schema i) (get_elem? rg.columns i)
  ]

  unfoldable pub zone_range_pred : BinOp → Expr → Expr → List Field → RowGroupMeta → Bool
  unfolding named_range column_name flip
  zone_range_pred op l r schema rg = elim (column_name l) [
    | some name ↦ named_range op name r schema rg
    | none ↦ elim (column_name r) [
      | some name ↦ named_range (flip op) name l schema rg
      | none ↦ true
    ]
  ]

  -- The answer for an operator, from those of its operands and of the comparison.
  zone_binary : BinOp → Bool → Bool → Bool → Bool
  zone_binary op_and l r c = l && r
  zone_binary op_or l r c = l || r
  zone_binary op_add l r c = true
  zone_binary op_sub l r c = true
  zone_binary op_mul l r c = true
  zone_binary op_div l r c = true
  zone_binary _ l r c = c

  unfoldable pub zone_pred_eval : Expr → List Field → RowGroupMeta → Bool
  unfolding zone_binary zone_range_pred
  zone_pred_eval (binary_expr op l r) schema rg =
      zone_binary op (zone_pred_eval l schema rg) (zone_pred_eval r schema rg)
        (zone_range_pred op l r schema rg)
  zone_pred_eval (between_expr e lo hi negate) schema rg =
      negate || (zone_range_pred op_ge e lo schema rg && zone_range_pred op_le e hi schema rg)
  zone_pred_eval _ schema rg = true
