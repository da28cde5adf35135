-- ===== src/Planner/Optimizer.antt =====
-- planner/optimizer.go: predicate push-down and column pruning; planner/logical.go (`OutputSchema`): the
-- names of a node's columns.
pub mod Pushdown
pub mod Pruning
pub mod Scopes
use vexq.Prelude.{
  if◌then◌else◌, bytes_eq, Bytes, ℕ, Bool, false, ◌||◌, Option, none, some, List, [], ◌∷◌, ◌++◌,
  map,
}
use vexq.Storage.Schema.{Field}
use vexq.Sql.Ast.{
  Expr, OptExpr, OrderByItems, absent, present, no_items, more_items, binary_expr, op_and,
}
use vexq.Planner.Walk.{predicate_cols}
use vexq.Planner.Logical.{
  LogicalScan, ProjectItem, AggItem, LogicalNode, logical_scan, logical_filter, logical_project,
  logical_aggregate, logical_sort, logical_limit, logical_distinct, logical_join, expr_name,
}

unfoldable pub member : Bytes → List Bytes → Bool
member name [] = false
member name (n ∷ names) = bytes_eq n name || member name names

-- A pushed predicate beside one that is there.
unfoldable pub conjoined : OptExpr → Expr → Expr
conjoined absent p = p
conjoined (present q) p = binary_expr op_and q p

unfoldable pub push_into : LogicalNode → Expr → LogicalNode
unfolding conjoined
push_into (logical_scan s) p =
    logical_scan (record s { predicate = present (conjoined s.predicate p) })
push_into child p = logical_filter child p

unfoldable pub push_predicates : LogicalNode → LogicalNode
unfolding push_into
push_predicates (logical_filter child p) = push_into (push_predicates child) p
push_predicates (logical_project child exprs) = logical_project (push_predicates child) exprs
push_predicates (logical_aggregate child group_by aggs) =
    logical_aggregate (push_predicates child) group_by aggs
push_predicates (logical_sort child order_by) = logical_sort (push_predicates child) order_by
push_predicates (logical_limit child count offset) =
    logical_limit (push_predicates child) count offset
push_predicates (logical_distinct child) = logical_distinct (push_predicates child)
push_predicates (logical_join l r cond) = logical_join (push_predicates l) (push_predicates r) cond
push_predicates (logical_scan s) = logical_scan s

unique_from : List Bytes → List Bytes → List Bytes
unfolding member
unique_from seen [] = []
unique_from seen (s ∷ ss) =
    let kept = s ∷ unique_from (s ∷ seen) ss in
    let skipped = unique_from seen ss in if member s seen then skipped else kept

unfoldable pub unique_strings : List Bytes → List Bytes
unfolding unique_from
unique_strings ss = unique_from [] ss

-- Nothing stays nothing: every column is needed.
unfoldable pub add_needed : Option (List Bytes) → List Bytes → Option (List Bytes)
unfolding unique_strings
add_needed none extra = none
add_needed (some needed) extra = some (unique_strings (needed ++ extra))

filter_names : List Bytes → List Bytes → List Bytes
unfolding member
filter_names want [] = []
filter_names want (n ∷ names) =
    let rest = filter_names want names in if member n want then n ∷ rest else rest

-- An empty slice of names is nil, which says that every column is needed.
unfoldable pub schema_cols_in : List Bytes → List Bytes → Option (List Bytes)
unfolding filter_names
schema_cols_in names want = elim (filter_names want names) [ [] ↦ none | n ∷ ns ↦ some (n ∷ ns) ]

unfoldable pub sort_cols : OrderByItems → List Bytes
sort_cols no_items = []
sort_cols (more_items e descending items) = predicate_cols (present e) ++ sort_cols items

unfoldable pub project_cols : List ProjectItem → List Bytes
project_cols [] = []
project_cols (pe ∷ exprs) = predicate_cols (present pe.expr) ++ project_cols exprs

unfoldable pub group_cols : List Expr → List Bytes
group_cols [] = []
group_cols (e ∷ exprs) = predicate_cols (present e) ++ group_cols exprs

agg_item_cols : OptExpr → Bytes → List Bytes
agg_item_cols absent [] = []
agg_item_cols absent (c ∷ name) = (c ∷ name) ∷ []
agg_item_cols (present e) name = predicate_cols (present e)

unfoldable pub agg_cols : List AggItem → List Bytes
unfolding agg_item_cols
agg_cols [] = []
agg_cols (agg ∷ aggs) = agg_item_cols agg.agg_expr agg.col_name ++ agg_cols aggs

-- The names of `OutputSchema`.
scan_names : List Bytes → Option (List Bytes) → List Bytes
unfolding filter_names
scan_names names none = names
scan_names names (some []) = names
scan_names names (some (n ∷ needed)) = filter_names names (n ∷ needed)

module _ (format_int format_float : ℕ → Bytes) where
  unfoldable pub output_names : LogicalNode → List Bytes
  unfolding scan_names filter_names expr_name
  output_names (logical_scan s) = scan_names (map (λ (f : Field). f.name) s.fields) s.needed_cols
  output_names (logical_filter child p) = output_names child
  output_names (logical_project child exprs) = map (λ (pe : ProjectItem). pe.alias) exprs
  output_names (logical_aggregate child group_by aggs) =
      filter_names (output_names child) (map (expr_name format_int format_float) group_by)
      ++ map (λ (agg : AggItem). agg.alias) aggs
  output_names (logical_sort child order_by) = output_names child
  output_names (logical_limit child count offset) = output_names child
  output_names (logical_distinct child) = output_names child
  output_names (logical_join l r cond) = output_names l ++ output_names r

  -- The columns of a join's side.
  side_needed : LogicalNode → Expr → Option (List Bytes) → Option (List Bytes)
  unfolding schema_cols_in output_names
  side_needed side cond none = none
  side_needed side cond (some needed) =
      schema_cols_in (output_names side) (needed ++ predicate_cols (present cond))

  scan_needed : LogicalScan → Option (List Bytes) → LogicalScan
  unfolding add_needed
  scan_needed s none = s
  scan_needed s (some needed) = record s {
    needed_cols = add_needed (some needed) (predicate_cols s.predicate);
  }

  unfoldable pub prune_columns : LogicalNode → Option (List Bytes) → LogicalNode
  unfolding side_needed scan_needed add_needed unique_strings sort_cols project_cols group_cols
      agg_cols
  prune_columns (logical_scan s) needed = logical_scan (scan_needed s needed)
  prune_columns (logical_filter child p) needed =
      logical_filter (prune_columns child (add_needed needed (predicate_cols (present p)))) p
  prune_columns (logical_project child exprs) needed =
      logical_project (prune_columns child (some (unique_strings (project_cols exprs)))) exprs
  prune_columns (logical_aggregate child group_by aggs) needed =
      logical_aggregate
        (prune_columns child (some (unique_strings (group_cols group_by ++ agg_cols aggs))))
        group_by aggs
  prune_columns (logical_sort child order_by) needed =
      logical_sort (prune_columns child (add_needed needed (sort_cols order_by))) order_by
  prune_columns (logical_limit child count offset) needed =
      logical_limit (prune_columns child needed) count offset
  prune_columns (logical_distinct child) needed = logical_distinct (prune_columns child needed)
  prune_columns (logical_join l r cond) needed =
      logical_join (prune_columns l (side_needed l cond needed))
        (prune_columns r (side_needed r cond needed)) cond

  unfoldable pub optimize : LogicalNode → LogicalNode
  unfolding push_predicates prune_columns
  optimize root = prune_columns (push_predicates root) none
