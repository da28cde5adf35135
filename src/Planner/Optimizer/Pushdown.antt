-- ===== src/Planner/Optimizer/Pushdown.antt =====
-- What a logical plan means, as the rows that it puts out, and that push-down keeps it.
use vexq.Prelude.{
  if◌then◌else◌, Bytes, ℕ, ◌≡◌, refl, ap, ap₂, ◌∙◌, Bool, ◌&&◌, List, [], ◌∷◌, arith,
}
use vexq.Sql.Ast.{Expr, OptExpr, OrderByItems, absent, present, binary_expr, op_and}
use vexq.Planner.Logical.{
  ProjectItem, AggItem, LogicalNode, logical_scan, logical_filter, logical_project,
  logical_aggregate, logical_sort, logical_limit, logical_distinct, logical_join,
}
use vexq.Planner.Optimizer.{push_into, push_predicates, conjoined}

-- What the operators do with rows: a table's rows, whether a predicate is TRUE on a row, and the
-- operators other than a filter.
pub record Operators (Row : Type 0) : Type 0 where
  pub table : Bytes → Bytes → List Row
  pub is_true : Expr → Row → Bool
  pub project : List ProjectItem → List Row → List Row
  pub aggregate : List Expr → List AggItem → List Row → List Row
  pub sort : OrderByItems → List Row → List Row
  pub limit : ℕ → ℕ → List Row → List Row
  pub distinct : List Row → List Row
  pub join : Expr → List Row → List Row → List Row

module _ {Row : Type 0} (ops : Operators Row) where
  unfoldable pub filter_rows : Expr → List Row → List Row
  filter_rows p [] = []
  filter_rows p (r ∷ rows) =
      let rest = filter_rows p rows in if ops.is_true p r then r ∷ rest else rest

  -- The rows of a scan, of which its predicate keeps those on which it is TRUE.
  scan_rows : OptExpr → List Row → List Row
  unfolding filter_rows
  scan_rows absent rows = rows
  scan_rows (present p) rows = filter_rows p rows

  pub rows_of : LogicalNode → List Row
  unfolding scan_rows
  rows_of (logical_scan s) = scan_rows s.predicate (ops.table s.table_name s.file_path)
  rows_of (logical_filter child p) = filter_rows p (rows_of child)
  rows_of (logical_project child exprs) = ops.project exprs (rows_of child)
  rows_of (logical_aggregate child group_by aggs) = ops.aggregate group_by aggs (rows_of child)
  rows_of (logical_sort child order_by) = ops.sort order_by (rows_of child)
  rows_of (logical_limit child count offset) = ops.limit count offset (rows_of child)
  rows_of (logical_distinct child) = ops.distinct (rows_of child)
  rows_of (logical_join l r cond) = ops.join cond (rows_of l) (rows_of r)

-- No filter stands on a scan.
pub FilterFree : LogicalNode → Type 0
FilterFree (logical_scan s) = Unit
FilterFree (logical_filter (logical_scan s) p) = ⊥
FilterFree (logical_filter child p) = FilterFree child
FilterFree (logical_project child exprs) = FilterFree child
FilterFree (logical_aggregate child group_by aggs) = FilterFree child
FilterFree (logical_sort child order_by) = FilterFree child
FilterFree (logical_limit child count offset) = FilterFree child
FilterFree (logical_distinct child) = FilterFree child
FilterFree (logical_join l r cond) = FilterFree l × FilterFree r

push_into-FilterFree : (n : LogicalNode) (p : Expr) → FilterFree n → FilterFree (push_into n p)
unfolding push_into FilterFree
push_into-FilterFree (logical_scan s) p h = tt
push_into-FilterFree n p h = h

push_predicates-FilterFree : (n : LogicalNode) → FilterFree (push_predicates n)
unfolding push_predicates FilterFree
push_predicates-FilterFree (logical_scan s) = tt
push_predicates-FilterFree (logical_filter child p) =
    push_into-FilterFree (push_predicates child) p (push_predicates-FilterFree child)
push_predicates-FilterFree (logical_project child exprs) = push_predicates-FilterFree child
push_predicates-FilterFree (logical_aggregate child group_by aggs) =
    push_predicates-FilterFree child
push_predicates-FilterFree (logical_sort child order_by) = push_predicates-FilterFree child
push_predicates-FilterFree (logical_limit child count offset) = push_predicates-FilterFree child
push_predicates-FilterFree (logical_distinct child) = push_predicates-FilterFree child
push_predicates-FilterFree (logical_join l r cond) =
    (push_predicates-FilterFree l, push_predicates-FilterFree r)

module _ {Row : Type 0} (ops : Operators Row)
    (and_true : (p q : Expr) (r : Row)
      → ops.is_true (binary_expr op_and p q) r ≡ (ops.is_true p r && ops.is_true q r)) where
  filter_rows-and :
      (p q : Expr) (rows : List Row)
      → filter_rows ops (binary_expr op_and p q) rows ≡ filter_rows ops q (filter_rows ops p rows)
  unfolding filter_rows
  filter_rows-and p q [] = refl
  filter_rows-and p q (r ∷ rows) = ground (arith, filter_rows-and p q rows, and_true p q r)

  rows_of-push_into :
      (n : LogicalNode) (p : Expr) → rows_of ops (push_into n p) ≡ filter_rows ops p (rows_of ops n)
  unfolding rows_of push_into
  rows_of-push_into (logical_scan s) p =
      by_predicate s.predicate (ops.table s.table_name s.file_path)
    where
      by_predicate :
          (q : OptExpr) (rows : List Row)
          → scan_rows ops (present (conjoined q p)) rows ≡ filter_rows ops p (scan_rows ops q rows)
      by_predicate absent rows = refl
      by_predicate (present q) rows = filter_rows-and q p rows
  rows_of-push_into n p = refl

  rows_of-push : (n : LogicalNode) → rows_of ops (push_predicates n) ≡ rows_of ops n
  unfolding rows_of push_predicates
  rows_of-push (logical_scan s) = refl
  rows_of-push (logical_filter child p) =
      rows_of-push_into (push_predicates child) p ∙ ap (filter_rows ops p) (rows_of-push child)
  rows_of-push (logical_project child exprs) = ap (ops.project exprs) (rows_of-push child)
  rows_of-push (logical_aggregate child group_by aggs) =
      ap (ops.aggregate group_by aggs) (rows_of-push child)
  rows_of-push (logical_sort child order_by) = ap (ops.sort order_by) (rows_of-push child)
  rows_of-push (logical_limit child count offset) = ap (ops.limit count offset) (rows_of-push child)
  rows_of-push (logical_distinct child) = ap ops.distinct (rows_of-push child)
  rows_of-push (logical_join l r cond) = ap₂ (ops.join cond) (rows_of-push l) (rows_of-push r)

  -- Predicate push-down keeps the rows of a plan, for any meaning of the operators other than a
  -- filter, and leaves no filter on a scan, where an AND is TRUE exactly if both operands are.
  pub push_predicates-rows_of :
      (n : LogicalNode)
      → (rows_of ops (push_predicates n) ≡ rows_of ops n) × FilterFree (push_predicates n)
  push_predicates-rows_of n = (rows_of-push n, push_predicates-FilterFree n)
