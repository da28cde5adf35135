-- ===== src/Sql/Format.antt =====
-- sql/format.go: an expression as text, for the headers of unnamed columns.
pub mod Precedence
use vexq.Prelude.{
  ltb, ◌==◌, if◌then◌else◌, codes, Bytes, ℕ, Bool, true, false, ◌&&◌, ◌||◌, [], ◌∷◌, ◌++◌,
}
use vexq.Sql.Token.{to_upper}
use vexq.Sql.Ast.{
  BinOp, op_eq, op_ne, op_lt, op_le, op_gt, op_ge, op_and, op_or, op_add, op_sub, op_mul, op_div,
  UnaryOp, op_not, op_minus, Expr, column_ref, star_expr, int_literal, float_literal,
  string_literal, bool_literal, null_literal, binary_expr, unary_expr, is_null_expr, between_expr,
  in_expr, like_expr, agg_func_expr, func_expr, case_expr, subquery_expr, OptExpr, absent, present,
  Exprs, no_exprs, more_exprs, Whens, no_whens, more_whens,
}
use vexq.Sql.Lexer.Quoting.{quote_string}

unfoldable pub bin_prec : BinOp → ℕ
bin_prec op_or = 1
bin_prec op_and = 2
bin_prec op_eq = 3
bin_prec op_ne = 3
bin_prec op_lt = 3
bin_prec op_le = 3
bin_prec op_gt = 3
bin_prec op_ge = 3
bin_prec op_add = 4
bin_prec op_sub = 4
bin_prec op_mul = 5
bin_prec op_div = 5

-- The operator's text.
unfoldable pub bin_text : BinOp → Bytes
bin_text op_or = codes "OR"
bin_text op_and = codes "AND"
bin_text op_eq = codes "="
bin_text op_ne = codes "<>"
bin_text op_lt = codes "<"
bin_text op_le = codes "<="
bin_text op_gt = codes ">"
bin_text op_ge = codes ">="
bin_text op_add = codes "+"
bin_text op_sub = codes "-"
bin_text op_mul = codes "*"
bin_text op_div = codes "/"

parenthesise : Bytes → Bytes
parenthesise s = codes "(" ++ s ++ codes ")"

-- `binOperand`, with the child's own text.
unfoldable pub bin_operand : Expr → Bytes → ℕ → Bool → Bytes
unfolding bin_prec parenthesise
bin_operand (binary_expr op a b) s parent_prec is_right =
    let p = bin_prec op in
    if ltb p parent_prec || is_right && p == parent_prec then parenthesise s else s
bin_operand _ s parent_prec is_right = s

unfoldable pub wraps_as_operand : Expr → Bool
wraps_as_operand (binary_expr op a b) = true
wraps_as_operand (is_null_expr e n) = true
wraps_as_operand (between_expr e lo hi n) = true
wraps_as_operand (in_expr e list n) = true
wraps_as_operand (like_expr e pattern n) = true
wraps_as_operand _ = false

unary_text : UnaryOp → Bytes → Bytes
unary_text op_not inner = codes "NOT " ++ inner
unary_text op_minus inner = codes "-" ++ inner

qualified : Bytes → Bytes → Bytes
qualified [] name = name
qualified (c ∷ table) name = (c ∷ table) ++ codes "." ++ name

-- `strconv.FormatInt` and `strconv.FormatFloat`, on bit patterns.
module _ (format_int format_float : ℕ → Bytes) where
  unfoldable mutual
    unfolding qualified unary_text parenthesise bin_operand wraps_as_operand bin_text bin_prec
        quote_string to_upper

    pub format_expr : Expr → Bytes
    format_expr (column_ref table name) = qualified table name
    format_expr star_expr = codes "*"
    format_expr (int_literal v) = format_int v
    format_expr (float_literal v) = format_float v
    format_expr (string_literal v) = quote_string v
    format_expr (bool_literal v) = if v then codes "TRUE" else codes "FALSE"
    format_expr null_literal = codes "NULL"
    format_expr (binary_expr op a b) =
        bin_operand a (format_expr a) (bin_prec op) false
        ++ codes " "
        ++ bin_text op
        ++ codes " "
        ++ bin_operand b (format_expr b) (bin_prec op) true
    format_expr (unary_expr op e) =
        let s = format_expr e in unary_text op (if wraps_as_operand e then parenthesise s else s)
    format_expr (is_null_expr e is_not) =
        format_expr e ++ (if is_not then codes " IS NOT NULL" else codes " IS NULL")
    format_expr (between_expr e lo hi negated) =
        format_expr e
        ++ (if negated then codes " NOT BETWEEN " else codes " BETWEEN ")
        ++ format_expr lo
        ++ codes " AND "
        ++ format_expr hi
    format_expr (in_expr e list negated) =
        format_expr e
        ++ (if negated then codes " NOT IN (" else codes " IN (")
        ++ format_list list
        ++ codes ")"
    format_expr (like_expr e pattern negated) =
        format_expr e
        ++ (if negated then codes " NOT LIKE " else codes " LIKE ")
        ++ format_expr pattern
    format_expr (agg_func_expr func arg distinct) = to_upper func ++ format_arg arg distinct
    format_expr (func_expr func args) = func ++ codes "(" ++ format_list args ++ codes ")"
    format_expr (case_expr whens else_expr) =
        codes "CASE" ++ format_whens whens ++ format_else else_expr ++ codes " END"
    format_expr (subquery_expr query) = codes "(subquery)"

    -- No argument stands for `*`.
    format_arg : OptExpr → Bool → Bytes
    format_arg absent distinct = codes "(*)"
    format_arg (present e) distinct =
        (if distinct then codes "(DISTINCT " else codes "(") ++ format_expr e ++ codes ")"

    format_else : OptExpr → Bytes
    format_else absent = []
    format_else (present e) = codes " ELSE " ++ format_expr e

    format_whens : Whens → Bytes
    format_whens no_whens = []
    format_whens (more_whens cond result whens) =
        codes " WHEN "
        ++ format_expr cond
        ++ codes " THEN "
        ++ format_expr result
        ++ format_whens whens

    pub format_list : Exprs → Bytes
    format_list no_exprs = []
    format_list (more_exprs e es) = format_expr e ++ format_tail es

    -- What `strings.Join` puts behind the first part.
    format_tail : Exprs → Bytes
    format_tail no_exprs = []
    format_tail (more_exprs e es) = codes ", " ++ format_expr e ++ format_tail es
