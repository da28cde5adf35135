-- ===== src/Sql/Ast.antt =====
-- sql/ast.go: the syntax tree. A recursive slice is a list type of the block, and a pointer that
-- may be nil an optional one. An int64 is its bit pattern, and so is a float64.
use vexq.Prelude.{Bytes, ℕ, Bool, Option, List}

pub data BinOp : Type 0 where
  op_eq op_ne op_lt op_le op_gt op_ge op_and op_or op_add op_sub op_mul op_div : BinOp

pub data UnaryOp : Type 0 where
  op_not op_minus : UnaryOp

pub record TableRef : Type 0 where
  pub name : Bytes
  pub alias : Bytes

mutual
  pub data Expr : Type 0 where
    column_ref : Bytes → Bytes → Expr
    star_expr : Expr
    int_literal : ℕ → Expr
    float_literal : ℕ → Expr
    string_literal : Bytes → Expr
    bool_literal : Bool → Expr
    null_literal : Expr
    binary_expr : BinOp → Expr → Expr → Expr
    unary_expr : UnaryOp → Expr → Expr
    is_null_expr : Expr → Bool → Expr
    between_expr : Expr → Expr → Expr → Bool → Expr
    in_expr : Expr → Exprs → Bool → Expr
    like_expr : Expr → Expr → Bool → Expr
    agg_func_expr : Bytes → OptExpr → Bool → Expr
    func_expr : Bytes → Exprs → Expr
    case_expr : Whens → OptExpr → Expr
    subquery_expr : SelectStmt → Expr

  pub data OptExpr : Type 0 where
    absent : OptExpr
    present : Expr → OptExpr

  pub data Exprs : Type 0 where
    no_exprs : Exprs
    more_exprs : Expr → Exprs → Exprs

  pub data Whens : Type 0 where
    no_whens : Whens
    more_whens : Expr → Expr → Whens → Whens

  -- An expression and its alias, empty if there is none.
  pub data SelectColumns : Type 0 where
    no_columns : SelectColumns
    more_columns : Expr → Bytes → SelectColumns → SelectColumns

  -- An expression and whether it is descending.
  pub data OrderByItems : Type 0 where
    no_items : OrderByItems
    more_items : Expr → Bool → OrderByItems → OrderByItems

  -- Distinct, Columns, From, Where, GroupBy, Having, OrderBy, Limit, Offset.
  pub data SelectStmt : Type 0 where
    select_stmt :
        Bool
        → SelectColumns
        → List TableRef
        → OptExpr
        → Exprs
        → OptExpr
        → OrderByItems
        → Option ℕ
        → Option ℕ
        → SelectStmt
