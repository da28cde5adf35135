-- ===== src/Planner/Walk/Columns.antt =====
-- The columns that the walk collects, against a description by recursion on the expression.
use vexq.Prelude.{Bytes, ◌≡◌, refl, sym, List, [], ◌∷◌, ◌++◌, append-nil, append_assoc}
use vexq.Sql.Ast.{
  Expr, OptExpr, Exprs, Whens, column_ref, star_expr, int_literal, float_literal, string_literal,
  bool_literal, null_literal, binary_expr, unary_expr, is_null_expr, between_expr, in_expr,
  like_expr, agg_func_expr, func_expr, case_expr, subquery_expr, absent, present, no_exprs,
  more_exprs, no_whens, more_whens,
}
use vexq.Planner.Walk.{walk_expr, walk_opt, walk_exprs, walk_whens, add_column, collect_cols}

-- The columns of an expression from left to right; those of a subquery are not its own.
unfoldable mutual
  pub columns_of : Expr → List Bytes
  columns_of (column_ref table name) = name ∷ []
  columns_of (binary_expr op l r) = columns_of l ++ columns_of r
  columns_of (unary_expr op e) = columns_of e
  columns_of (is_null_expr e negate) = columns_of e
  columns_of (between_expr e lo hi negate) = columns_of e ++ columns_of lo ++ columns_of hi
  columns_of (in_expr e items negate) = columns_of e ++ columns_of_all items
  columns_of (like_expr e pat negate) = columns_of e ++ columns_of pat
  columns_of (agg_func_expr name arg distinct) = columns_of_opt arg
  columns_of (func_expr name args) = columns_of_all args
  columns_of (case_expr whens other) = columns_of_whens whens ++ columns_of_opt other
  columns_of star_expr = []
  columns_of (int_literal v) = []
  columns_of (float_literal v) = []
  columns_of (string_literal v) = []
  columns_of (bool_literal v) = []
  columns_of null_literal = []
  columns_of (subquery_expr q) = []

  pub columns_of_opt : OptExpr → List Bytes
  columns_of_opt absent = []
  columns_of_opt (present e) = columns_of e

  pub columns_of_all : Exprs → List Bytes
  columns_of_all no_exprs = []
  columns_of_all (more_exprs e es) = columns_of e ++ columns_of_all es

  pub columns_of_whens : Whens → List Bytes
  columns_of_whens no_whens = []
  columns_of_whens (more_whens cond result ws) =
      columns_of cond ++ columns_of result ++ columns_of_whens ws

ruleset append_laws = (append-nil, append_assoc)

mutual
  unfolding walk_expr columns_of add_column

  walk-columns : (e : Expr) (s : List Bytes) → walk_expr add_column e s ≡ s ++ columns_of e
  walk-columns (column_ref table name) s = refl
  walk-columns (binary_expr op l r) s = simp (walk-columns r, walk-columns l, append_laws)
  walk-columns (unary_expr op e) s = walk-columns e s
  walk-columns (is_null_expr e negate) s = walk-columns e s
  walk-columns (between_expr e lo hi negate) s =
      simp (walk-columns hi, walk-columns lo, walk-columns e, append_laws)
  walk-columns (in_expr e items negate) s =
      simp (walk_exprs-columns items, walk-columns e, append_laws)
  walk-columns (like_expr e pat negate) s = simp (walk-columns pat, walk-columns e, append_laws)
  walk-columns (agg_func_expr name arg distinct) s = walk_opt-columns arg s
  walk-columns (func_expr name args) s = walk_exprs-columns args s
  walk-columns (case_expr whens other) s =
      simp (walk_opt-columns other, walk_whens-columns whens, append_laws)
  walk-columns star_expr s = sym (append-nil s)
  walk-columns (int_literal v) s = sym (append-nil s)
  walk-columns (float_literal v) s = sym (append-nil s)
  walk-columns (string_literal v) s = sym (append-nil s)
  walk-columns (bool_literal v) s = sym (append-nil s)
  walk-columns null_literal s = sym (append-nil s)
  walk-columns (subquery_expr q) s = sym (append-nil s)

  walk_opt-columns :
      (o : OptExpr) (s : List Bytes) → walk_opt add_column o s ≡ s ++ columns_of_opt o
  walk_opt-columns absent s = sym (append-nil s)
  walk_opt-columns (present e) s = walk-columns e s

  walk_exprs-columns :
      (es : Exprs) (s : List Bytes) → walk_exprs add_column es s ≡ s ++ columns_of_all es
  walk_exprs-columns no_exprs s = sym (append-nil s)
  walk_exprs-columns (more_exprs e es) s = simp (walk_exprs-columns es, walk-columns e, append_laws)

  walk_whens-columns :
      (ws : Whens) (s : List Bytes) → walk_whens add_column ws s ≡ s ++ columns_of_whens ws
  walk_whens-columns no_whens s = sym (append-nil s)
  walk_whens-columns (more_whens cond result ws) s =
      simp (walk_whens-columns ws, walk-columns result, walk-columns cond, append_laws)

-- collectCols appends the columns of an expression, from left to right, to those that it is given.
pub collect_cols-columns_of :
    (e : Expr) (out : List Bytes) → collect_cols e out ≡ out ++ columns_of e
unfolding collect_cols
collect_cols-columns_of e out = walk-columns e out
