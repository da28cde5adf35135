-- ===== src/Planner/Logical.antt =====
-- planner/logical.go: the nodes of a logical plan and the names of the columns that each puts out.
use vexq.Prelude.{codes, Bytes, ℕ, Bool, Option, List, ◌++◌}
use vexq.Storage.Schema.{Field}
use vexq.Sql.Ast.{
  Expr, OptExpr, OrderByItems, absent, present, column_ref, star_expr, agg_func_expr,
}
use vexq.Sql.Format.{format_expr}

-- `needed_cols` is nothing where every column is needed; `source_names` are the pairs of an output name
-- and its name in the file.
pub record LogicalScan : Type 0 where
  pub table_name : Bytes
  pub file_path : Bytes
  pub fields : List Field
  pub predicate : OptExpr
  pub needed_cols : Option (List Bytes)
  pub source_names : List (Bytes × Bytes)

pub record ProjectItem : Type 0 where
  pub alias : Bytes
  pub expr : Expr
  pub data_type : ℕ

-- `agg_expr` is there for an argument that is no column.
pub record AggItem : Type 0 where
  pub func : Bytes
  pub col_name : Bytes
  pub agg_expr : OptExpr
  pub alias : Bytes
  pub distinct : Bool

-- The count and the offset of a limit are int64 values.
pub data LogicalNode : Type 0 where
  logical_scan : LogicalScan → LogicalNode
  logical_filter : LogicalNode → Expr → LogicalNode
  logical_project : LogicalNode → List ProjectItem → LogicalNode
  logical_aggregate : LogicalNode → List Expr → List AggItem → LogicalNode
  logical_sort : LogicalNode → OrderByItems → LogicalNode
  logical_limit : LogicalNode → ℕ → ℕ → LogicalNode
  logical_distinct : LogicalNode → LogicalNode
  logical_join : LogicalNode → LogicalNode → Expr → LogicalNode

-- strconv.FormatInt and FormatFloat are parameters.
module _ (format_int format_float : ℕ → Bytes) where
  -- The name of an aggregate with its argument.
  agg_name : Bytes → Expr → Bytes → Bytes
  agg_name func (column_ref table name) whole = func ++ codes "_" ++ name
  agg_name func star_expr whole = func ++ codes "_*"
  agg_name func _ whole = whole

  unfoldable pub expr_name : Expr → Bytes
  unfolding agg_name format_expr
  expr_name (column_ref table name) = name
  expr_name star_expr = codes "*"
  expr_name (agg_func_expr func absent distinct) = func
  expr_name (agg_func_expr func (present arg) distinct) =
      agg_name func arg
        (format_expr format_int format_float (agg_func_expr func (present arg) distinct))
  expr_name e = format_expr format_int format_float e
