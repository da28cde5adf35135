-- ===== src/Planner/Walk.antt =====
-- planner/exprwalk.go: the walk over an expression and its rewriting; planner/optimizer.go
-- (`predicateCols`, `collectCols`): the columns that an expression names.
pub mod Columns
pub mod Renaming
use vexq.Prelude.{
  Bytes, Bool, true, false, List, [], ◌∷◌, ◌++◌, Result, ok, err, panic, unsupported_type, Option,
  none, some, ◌>>=◌,
}
use vexq.Sql.Ast.{
  Expr, OptExpr, Exprs, Whens, column_ref, star_expr, int_literal, float_literal, string_literal,
  bool_literal, null_literal, binary_expr, unary_expr, is_null_expr, between_expr, in_expr,
  like_expr, agg_func_expr, func_expr, case_expr, subquery_expr, absent, present, no_exprs,
  more_exprs, no_whens, more_whens,
}

-- `visit` takes what the visits before it left; a parent is visited before its children.
module _ {S : Type 0} (visit : Expr → S → S) where
  unfoldable mutual
    pub walk_expr : Expr → S → S
    walk_expr (binary_expr op l r) s = walk_expr r (walk_expr l (visit (binary_expr op l r) s))
    walk_expr (unary_expr op e) s = walk_expr e (visit (unary_expr op e) s)
    walk_expr (is_null_expr e negate) s = walk_expr e (visit (is_null_expr e negate) s)
    walk_expr (between_expr e lo hi negate) s =
        walk_expr hi (walk_expr lo (walk_expr e (visit (between_expr e lo hi negate) s)))
    walk_expr (in_expr e items negate) s =
        walk_exprs items (walk_expr e (visit (in_expr e items negate) s))
    walk_expr (like_expr e pat negate) s =
        walk_expr pat (walk_expr e (visit (like_expr e pat negate) s))
    walk_expr (agg_func_expr name arg distinct) s =
        walk_opt arg (visit (agg_func_expr name arg distinct) s)
    walk_expr (func_expr name args) s = walk_exprs args (visit (func_expr name args) s)
    walk_expr (case_expr whens other) s =
        walk_opt other (walk_whens whens (visit (case_expr whens other) s))
    walk_expr (column_ref table name) s = visit (column_ref table name) s
    walk_expr star_expr s = visit star_expr s
    walk_expr (int_literal v) s = visit (int_literal v) s
    walk_expr (float_literal v) s = visit (float_literal v) s
    walk_expr (string_literal v) s = visit (string_literal v) s
    walk_expr (bool_literal v) s = visit (bool_literal v) s
    walk_expr null_literal s = visit null_literal s
    walk_expr (subquery_expr q) s = visit (subquery_expr q) s

    pub walk_opt : OptExpr → S → S
    walk_opt absent s = s
    walk_opt (present e) s = walk_expr e s

    pub walk_exprs : Exprs → S → S
    walk_exprs no_exprs s = s
    walk_exprs (more_exprs e es) s = walk_exprs es (walk_expr e s)

    pub walk_whens : Whens → S → S
    walk_whens no_whens s = s
    walk_whens (more_whens cond result ws) s = walk_whens ws (walk_expr result (walk_expr cond s))

unfoldable pub add_column : Expr → List Bytes → List Bytes
add_column (column_ref table name) out = out ++ name ∷ []
add_column _ out = out

unfoldable pub collect_cols : Expr → List Bytes → List Bytes
unfolding add_column walk_expr
collect_cols e out = walk_expr add_column e out

unfoldable pub predicate_cols : OptExpr → List Bytes
unfolding collect_cols
predicate_cols absent = []
predicate_cols (present e) = collect_cols e []

note_aggregate : Expr → Bool → Bool
note_aggregate (agg_func_expr name arg distinct) found = true
note_aggregate _ found = found

unfoldable pub contains_aggregate : Expr → Bool
unfolding note_aggregate walk_expr
contains_aggregate e = walk_expr note_aggregate e false

-- What `fn` answers of a node: an error, a replacement, or nothing, and then the node is rebuilt.
pub handled : Result (Option Expr) → Result Expr → Result Expr
handled (ok none) r = r
handled (ok (some e)) r = ok e
handled (err e) r = err e
handled panic r = panic

module _ (fn : Expr → Result (Option Expr)) where
  unfoldable mutual
    unfolding handled

    pub rewrite_expr : Expr → Result Expr
    rewrite_expr (column_ref table name) =
        handled (fn (column_ref table name)) (ok (column_ref table name))
    rewrite_expr star_expr = handled (fn star_expr) (ok star_expr)
    rewrite_expr (int_literal v) = handled (fn (int_literal v)) (ok (int_literal v))
    rewrite_expr (float_literal v) = handled (fn (float_literal v)) (ok (float_literal v))
    rewrite_expr (string_literal v) = handled (fn (string_literal v)) (ok (string_literal v))
    rewrite_expr (bool_literal v) = handled (fn (bool_literal v)) (ok (bool_literal v))
    rewrite_expr null_literal = handled (fn null_literal) (ok null_literal)
    rewrite_expr (binary_expr op l r) =
        handled (fn (binary_expr op l r))
          (do l' ← rewrite_expr l; r' ← rewrite_expr r; ok (binary_expr op l' r'))
    rewrite_expr (unary_expr op e) =
        handled (fn (unary_expr op e)) (do e' ← rewrite_expr e; ok (unary_expr op e'))
    rewrite_expr (is_null_expr e negate) =
        handled (fn (is_null_expr e negate)) (do e' ← rewrite_expr e; ok (is_null_expr e' negate))
    rewrite_expr (between_expr e lo hi negate) = handled (fn (between_expr e lo hi negate)) (do
      e' ← rewrite_expr e
      lo' ← rewrite_expr lo
      hi' ← rewrite_expr hi
      ok (between_expr e' lo' hi' negate))
    rewrite_expr (in_expr e items negate) =
        handled (fn (in_expr e items negate))
          (do e' ← rewrite_expr e; items' ← rewrite_exprs items; ok (in_expr e' items' negate))
    rewrite_expr (like_expr e pat negate) =
        handled (fn (like_expr e pat negate))
          (do e' ← rewrite_expr e; pat' ← rewrite_expr pat; ok (like_expr e' pat' negate))
    rewrite_expr (agg_func_expr name arg distinct) =
        handled (fn (agg_func_expr name arg distinct))
          (do arg' ← rewrite_opt arg; ok (agg_func_expr name arg' distinct))
    rewrite_expr (func_expr name args) =
        handled (fn (func_expr name args))
          (do args' ← rewrite_exprs args; ok (func_expr name args'))
    rewrite_expr (case_expr whens other) =
        handled (fn (case_expr whens other)) (do
          whens' ← rewrite_whens whens
          other' ← rewrite_opt other
          ok (case_expr whens' other'))
    rewrite_expr (subquery_expr q) = handled (fn (subquery_expr q)) (err unsupported_type)

    pub rewrite_opt : OptExpr → Result OptExpr
    rewrite_opt absent = ok absent
    rewrite_opt (present e) = do e' ← rewrite_expr e; ok (present e')

    pub rewrite_exprs : Exprs → Result Exprs
    rewrite_exprs no_exprs = ok no_exprs
    rewrite_exprs (more_exprs e es) = do
      e' ← rewrite_expr e
      es' ← rewrite_exprs es
      ok (more_exprs e' es')

    pub rewrite_whens : Whens → Result Whens
    rewrite_whens no_whens = ok no_whens
    rewrite_whens (more_whens cond result ws) = do
      cond' ← rewrite_expr cond
      result' ← rewrite_expr result
      ws' ← rewrite_whens ws
      ok (more_whens cond' result' ws')
