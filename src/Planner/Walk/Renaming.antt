-- ===== src/Planner/Walk/Renaming.antt =====
-- The rewriting of an expression's columns.
use vexq.Prelude.{Bytes, Result, ok, ◌≡◌, refl, sym, ap₂, ◌∙◌, Option, none, some, List, ◌++◌, map}
use mathlib.Core.List.{map-append}
use vexq.Sql.Ast.{
  Expr, OptExpr, Exprs, Whens, column_ref, star_expr, int_literal, float_literal, string_literal,
  bool_literal, null_literal, binary_expr, unary_expr, is_null_expr, between_expr, in_expr,
  like_expr, agg_func_expr, func_expr, case_expr, subquery_expr, absent, present, no_exprs,
  more_exprs, no_whens, more_whens,
}
use vexq.Planner.Walk.{rewrite_expr, rewrite_opt, rewrite_exprs, rewrite_whens, handled}
use vexq.Planner.Walk.Columns.{columns_of, columns_of_opt, columns_of_all, columns_of_whens}

-- Each column reference is replaced by one of the new name, and no other node is handled.
pub renaming : (Bytes → Bytes) → Expr → Result (Option Expr)
renaming to (column_ref table name) = ok (some (column_ref table (to name)))
renaming to _ = ok none

-- No subquery stands in the expression.
unfoldable mutual
  pub SubqueryFree : Expr → Type 0
  SubqueryFree (binary_expr op l r) = SubqueryFree l × SubqueryFree r
  SubqueryFree (unary_expr op e) = SubqueryFree e
  SubqueryFree (is_null_expr e negate) = SubqueryFree e
  SubqueryFree (between_expr e lo hi negate) = SubqueryFree e × SubqueryFree lo × SubqueryFree hi
  SubqueryFree (in_expr e items negate) = SubqueryFree e × AllFree items
  SubqueryFree (like_expr e pat negate) = SubqueryFree e × SubqueryFree pat
  SubqueryFree (agg_func_expr name arg distinct) = OptFree arg
  SubqueryFree (func_expr name args) = AllFree args
  SubqueryFree (case_expr whens other) = WhensFree whens × OptFree other
  SubqueryFree (column_ref table name) = Unit
  SubqueryFree star_expr = Unit
  SubqueryFree (int_literal v) = Unit
  SubqueryFree (float_literal v) = Unit
  SubqueryFree (string_literal v) = Unit
  SubqueryFree (bool_literal v) = Unit
  SubqueryFree null_literal = Unit
  SubqueryFree (subquery_expr q) = ⊥

  pub OptFree : OptExpr → Type 0
  OptFree absent = Unit
  OptFree (present e) = SubqueryFree e

  pub AllFree : Exprs → Type 0
  AllFree no_exprs = Unit
  AllFree (more_exprs e es) = SubqueryFree e × AllFree es

  pub WhensFree : Whens → Type 0
  WhensFree no_whens = Unit
  WhensFree (more_whens cond result ws) = SubqueryFree cond × SubqueryFree result × WhensFree ws

-- A result whose columns are the given ones.
abbrev pub Renamed {ℓ} : {A : Type ℓ} → (A → List Bytes) → Result A → List Bytes → Type ℓ
Renamed {A = A} cols r names = (a : A) × (r ≡ ok a) × (cols a ≡ names)

join :
    (to : Bytes → Bytes) (xs ys xs' ys' : List Bytes)
    → xs' ≡ map to xs
    → ys' ≡ map to ys
    → xs' ++ ys' ≡ map to (xs ++ ys)
join to xs ys xs' ys' p q = ap₂ (◌++◌) p q ∙ sym (map-append to xs ys)

module _ (to : Bytes → Bytes) where
  mutual
    unfolding rewrite_expr columns_of SubqueryFree renaming handled

    rewrite-Renamed :
        (e : Expr)
        → SubqueryFree e
        → Renamed columns_of (rewrite_expr (renaming to) e) (map to (columns_of e))
    rewrite-Renamed (column_ref table name) h = (column_ref table (to name), refl, refl)
    rewrite-Renamed (binary_expr op l r) (hl, hr) =
        let (l', el, cl) = rewrite-Renamed l hl in
        let (r', er, cr) = rewrite-Renamed r hr in
        (binary_expr op l' r', rw (el, er) refl, join to _ _ _ _ cl cr)
    rewrite-Renamed (unary_expr op e) h =
        let (e', ee, c) = rewrite-Renamed e h in (unary_expr op e', rw ee refl, c)
    rewrite-Renamed (is_null_expr e negate) h =
        let (e', ee, c) = rewrite-Renamed e h in (is_null_expr e' negate, rw ee refl, c)
    rewrite-Renamed (between_expr e lo hi negate) (h, hl, hh) =
        let (e', ee, c) = rewrite-Renamed e h in
        let (lo', el, cl) = rewrite-Renamed lo hl in
        let (hi', eh, ch) = rewrite-Renamed hi hh in
        (
          between_expr e' lo' hi' negate,
          rw (ee, el, eh) refl,
          join to _ _ _ _ (join to _ _ _ _ c cl) ch,
        )
    rewrite-Renamed (in_expr e items negate) (h, hs) =
        let (e', ee, c) = rewrite-Renamed e h in
        let (items', es, cs) = rewrite_exprs-Renamed items hs in
        (in_expr e' items' negate, rw (ee, es) refl, join to _ _ _ _ c cs)
    rewrite-Renamed (like_expr e pat negate) (h, hp) =
        let (e', ee, c) = rewrite-Renamed e h in
        let (pat', ep, cp) = rewrite-Renamed pat hp in
        (like_expr e' pat' negate, rw (ee, ep) refl, join to _ _ _ _ c cp)
    rewrite-Renamed (agg_func_expr name arg distinct) h =
        let (arg', ea, c) = rewrite_opt-Renamed arg h in
        (agg_func_expr name arg' distinct, rw ea refl, c)
    rewrite-Renamed (func_expr name args) h =
        let (args', ea, c) = rewrite_exprs-Renamed args h in (func_expr name args', rw ea refl, c)
    rewrite-Renamed (case_expr whens other) (hw, ho) =
        let (whens', ew, cw) = rewrite_whens-Renamed whens hw in
        let (other', eo, co) = rewrite_opt-Renamed other ho in
        (case_expr whens' other', rw (ew, eo) refl, join to _ _ _ _ cw co)
    rewrite-Renamed star_expr h = (star_expr, refl, refl)
    rewrite-Renamed (int_literal v) h = (int_literal v, refl, refl)
    rewrite-Renamed (float_literal v) h = (float_literal v, refl, refl)
    rewrite-Renamed (string_literal v) h = (string_literal v, refl, refl)
    rewrite-Renamed (bool_literal v) h = (bool_literal v, refl, refl)
    rewrite-Renamed null_literal h = (null_literal, refl, refl)
    rewrite-Renamed (subquery_expr q) h = absurd h

    rewrite_opt-Renamed :
        (o : OptExpr)
        → OptFree o
        → Renamed columns_of_opt (rewrite_opt (renaming to) o) (map to (columns_of_opt o))
    rewrite_opt-Renamed absent h = (absent, refl, refl)
    rewrite_opt-Renamed (present e) h =
        let (e', ee, c) = rewrite-Renamed e h in (present e', rw ee refl, c)

    rewrite_exprs-Renamed :
        (es : Exprs)
        → AllFree es
        → Renamed columns_of_all (rewrite_exprs (renaming to) es) (map to (columns_of_all es))
    rewrite_exprs-Renamed no_exprs h = (no_exprs, refl, refl)
    rewrite_exprs-Renamed (more_exprs e es) (h, hs) =
        let (e', ee, c) = rewrite-Renamed e h in
        let (es', er, cs) = rewrite_exprs-Renamed es hs in
        (more_exprs e' es', rw (ee, er) refl, join to _ _ _ _ c cs)

    rewrite_whens-Renamed :
        (ws : Whens)
        → WhensFree ws
        → Renamed columns_of_whens (rewrite_whens (renaming to) ws) (map to (columns_of_whens ws))
    rewrite_whens-Renamed no_whens h = (no_whens, refl, refl)
    rewrite_whens-Renamed (more_whens cond result ws) (hc, hr, hs) =
        let (cond', ec, cc') = rewrite-Renamed cond hc in
        let (result', er, cr) = rewrite-Renamed result hr in
        let (ws', es, cs) = rewrite_whens-Renamed ws hs in
        (
          more_whens cond' result' ws',
          rw (ec, er, es) refl,
          join to _ _ _ _ (join to _ _ _ _ cc' cr) cs,
        )

-- rewriteExpr with a renaming of the columns succeeds on an expression without subqueries, and the
-- columns of what it answers are the renamed ones, in the same order.
pub rewrite_expr-renaming :
    (to : Bytes → Bytes) (e : Expr)
    → SubqueryFree e
    → (e' : Expr) × (rewrite_expr (renaming to) e ≡ ok e') × (columns_of e' ≡ map to (columns_of e))
rewrite_expr-renaming to e h = rewrite-Renamed to e h
