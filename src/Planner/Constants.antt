-- ===== src/Planner/Constants.antt =====
-- planner/physical.go: the constants of a predicate (`foldConstant`, `zoneLiteral`, the days of a date)
-- and the operator of a comparison.
use vexq.Sql.Ast.{
  Expr, int_literal, float_literal, string_literal, unary_expr, op_minus, BinOp, op_eq, op_ne,
  op_lt, op_le, op_gt, op_ge,
}
use mathlib.Core.Option
use vexq.Prelude.{
  ltb, ◌==◌, if◌then◌else◌, Bytes, u32, u64, ℕ, ◌+◌, ◌-◌, ◌*◌, ◌/◌, ◌%◌, ◌^◌, Bool, not, ◌||◌,
  Option, none, some,
}
use vexq.Exec.Compare.{Order, BinOpKind, bin_eq, bin_ne, bin_lt, bin_le, bin_gt, bin_ge}

-- Go's float64, on bit patterns: its comparisons, the sign change, the conversions from and to int64,
-- and `math.Trunc`.
pub record FloatOps : Type 0 where
  pub order : Order
  pub is_nan : ℕ → Bool
  pub neg : ℕ → ℕ
  pub of_int : ℕ → ℕ
  pub to_int : ℕ → ℕ
  pub trunc : ℕ → ℕ

negated : FloatOps → Expr → Expr → Expr
negated fl e (int_literal v) = if v == 2 ^ 63 then e else int_literal ((u64 - v) % u64)
negated fl e (float_literal f) = float_literal (fl.neg f)
negated fl e _ = e

unfoldable pub fold_constant : FloatOps → Expr → Expr
unfolding negated
fold_constant fl (unary_expr op_minus e) = negated fl (unary_expr op_minus e) (fold_constant fl e)
fold_constant fl e = e

-- A numeric literal's value.
pub data Numeric : Type 0 where
  int_value : ℕ → Numeric
  float_value : ℕ → Numeric

unfoldable pub numeric : Expr → Option Numeric
numeric (int_literal v) = some (int_value v)
numeric (float_literal f) = some (float_value f)
numeric _ = none

unfoldable pub zone_literal : FloatOps → Expr → Option Numeric
unfolding numeric fold_constant
zone_literal fl e = numeric (fold_constant fl e)

-- An int32 as an int64.
unfoldable pub sign_extend : ℕ → ℕ
sign_extend d = if ltb d (2 ^ 31) then d else d + (u64 - u32)

-- `int32(v)`, if that is `v` again.
unfoldable pub exact_date_days : ℕ → Option ℕ
unfolding sign_extend
exact_date_days v = let days = v % u32 in if sign_extend days == v then some days else none

-- The quotient of an int64 by a positive number, rounded towards zero.
quotient : ℕ → ℕ → ℕ
quotient v d = if ltb v (2 ^ 63) then v / d else (u64 - (u64 - v) / d) % u64

unfoldable pub epoch_days : Option ℕ → Option ℕ
unfolding quotient exact_date_days
epoch_days none = none
epoch_days (some t) = exact_date_days (quotient t (24 * 60 * 60))

-- `parse_time` is time.ParseInLocation on a date, in seconds since the epoch.
unfoldable pub parse_date_days : (Bytes → Option ℕ) → Bytes → Option ℕ
unfolding epoch_days
parse_date_days parse_time s = epoch_days (parse_time s)

unfoldable pub date_days : (Bytes → Option ℕ) → Expr → Option ℕ
unfolding exact_date_days parse_date_days
date_days parse_time (int_literal v) = exact_date_days v
date_days parse_time (string_literal s) = parse_date_days parse_time s
date_days parse_time _ = none

-- The days of a literal beside a DATE column, as an int64.
unfoldable pub zone_date_literal : FloatOps → (Bytes → Option ℕ) → Expr → Option ℕ
unfolding date_days fold_constant sign_extend
zone_date_literal fl parse_time e =
    Option.map sign_extend (date_days parse_time (fold_constant fl e))

-- An integral float that an int64 holds; the bounds are the patterns of -2^63 and 2^63.
unfoldable pub exact_int64 : FloatOps → ℕ → Option ℕ
exact_int64 fl f =
    if not (fl.order.eq f (fl.trunc f))
      || fl.order.lt f 0xC3E0000000000000
      || fl.order.le 0x43E0000000000000 f
    then none
    else some (fl.to_int f)

-- `sqlOpToExecOp` on the comparisons.
unfoldable pub comparison_kind : BinOp → Option BinOpKind
comparison_kind op_eq = some bin_eq
comparison_kind op_ne = some bin_ne
comparison_kind op_lt = some bin_lt
comparison_kind op_le = some bin_le
comparison_kind op_gt = some bin_gt
comparison_kind op_ge = some bin_ge
comparison_kind _ = none
