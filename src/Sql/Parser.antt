-- ===== src/Sql/Parser.antt =====
-- sql/parser.go: the recursive-descent parser. Each function of the block takes fuel, which bounds
-- the depth of calls and the rounds of loops.
pub mod Monad
pub mod Literal
pub mod Select
use vexq.Sql.Token.{
  TokenKind, Token, to_upper, ◌is◌, is_keyword, tok_and, tok_as, tok_asc, tok_between, tok_by,
  tok_case, tok_comma, tok_cross, tok_desc, tok_distinct, tok_dot, tok_else, tok_end, tok_eof,
  tok_eq, tok_except, tok_false, tok_float, tok_from, tok_ge, tok_group, tok_gt, tok_having,
  tok_ident, tok_in, tok_inner, tok_int, tok_intersect, tok_is, tok_join, tok_le, tok_left,
  tok_like, tok_limit, tok_lparen, tok_lt, tok_minus, tok_ne, tok_not, tok_null, tok_offset, tok_on,
  tok_or, tok_order, tok_outer, tok_plus, tok_right, tok_rparen, tok_select, tok_semicolon,
  tok_slash, tok_star, tok_string, tok_then, tok_true, tok_union, tok_when, tok_where,
}
use vexq.Sql.Ast.{
  no_items, more_items, more_columns, select_stmt, more_columns, no_columns, select_stmt,
  more_exprs, no_whens, more_whens, absent, case_expr, present, agg_func_expr, no_exprs, func_expr,
  subquery_expr, column_ref, star_expr, bool_literal, null_literal, string_literal, unary_expr,
  in_expr, like_expr, between_expr, is_null_expr, binary_expr, op_add, op_and, op_div, op_eq, op_ge,
  op_gt, op_le, op_lt, op_minus, op_mul, op_ne, op_not, op_or, op_sub, BinOp,
}
use vexq.Prelude.{
  ltb, leb, ◌==◌, if◌then◌else◌, ltb→lt, lt→ltb, leb→le, ==_iff, tests, Bool-cases, Option-cases,
  codes, bytes_eq, bytes_eq→eq, bytes_eq_refl, bytes_eq_iff, length, get_elem?, set, length-append,
  length-set, get_elem?-set_self, get_elem?-set_ne, get_or, take, drop, replicate, take-append-drop,
  length-take, length-drop, length-replicate, length-map, append_cancel, take_append, All,
  All-append, Bytes, IsByte, u16, u32, u64, ltb_i64, ltb_i32, Error, checksum, corrupt_footer,
  bad_magic, type_mismatch, column_complete, row_group_open, missing_columns, index_out_of_range,
  unexpected_eof, eof, Result, reject_if, ℕ, zero, suc, ◌+◌, ◌-◌, ◌*◌, ◌/◌, ◌%◌, ◌^◌, ◌≤◌, ◌<◌, min,
  ◌≡◌, refl, sym, ap, ap₂, ◌∙◌, subst, fun_ext, ◌≢◌, ◌↔◌, ◌⊎◌, inl, inr, Bool, true, false, not,
  ◌&&◌, ◌||◌, Option, none, some, List, [], ◌∷◌, ◌++◌, map, append-nil, append_assoc, foldl, arith,
}
use vexq.Sql.Lexer.{
  unexpected_not, expected_select, unexpected_token, not_supported, out_of_fuel, Parsed, Lexer,
  SqlError, new_lexer,
}
use vexq.Sql.Parser.Monad.{
  P, ◌>>=◌, ◌>>◌, pure, fail, peek, peek_strict, next, advance, skip_if, expect, expect_ident,
}
use vexq.Sql.Parser.Literal.{numeric_literal}
use vexq.Sql.Parser.Select.{parse_alias, parse_from, limit_loop}
use vexq.Sql.Ast.{
  no_items, more_items, more_columns, select_stmt, null_literal, op_gt, op_le, op_lt, op_ne, op_eq,
  op_or, op_and, BinOp, Expr, OptExpr, Exprs, Whens, SelectColumns, OrderByItems, SelectStmt,
  TableRef,
}

-- The infix precedence of an operator token.
unfoldable pub precedence : TokenKind → ℕ
precedence tok_or = 1
precedence tok_and = 2
precedence tok_not = 3
precedence tok_eq = 4
precedence tok_ne = 4
precedence tok_lt = 5
precedence tok_le = 5
precedence tok_gt = 5
precedence tok_ge = 5
precedence tok_is = 6
precedence tok_between = 6
precedence tok_like = 6
precedence tok_in = 6
precedence tok_plus = 7
precedence tok_minus = 7
precedence tok_star = 8
precedence tok_slash = 8
precedence _ = 0

-- The operator of a token whose right side is one expression.
unfoldable pub binary_op : TokenKind → Option BinOp
binary_op tok_and = some op_and
binary_op tok_or = some op_or
binary_op tok_eq = some op_eq
binary_op tok_ne = some op_ne
binary_op tok_lt = some op_lt
binary_op tok_le = some op_le
binary_op tok_gt = some op_gt
binary_op tok_ge = some op_ge
binary_op tok_plus = some op_add
binary_op tok_minus = some op_sub
binary_op tok_star = some op_mul
binary_op tok_slash = some op_div
binary_op _ = none

-- Keywords that can appear as column names.
unfoldable pub is_column_keyword : TokenKind → Bool
is_column_keyword tok_select = true
is_column_keyword tok_from = true
is_column_keyword tok_where = true
is_column_keyword tok_group = true
is_column_keyword tok_by = true
is_column_keyword tok_order = true
is_column_keyword tok_limit = true
is_column_keyword tok_offset = true
is_column_keyword tok_as = true
is_column_keyword tok_on = true
is_column_keyword tok_join = true
is_column_keyword tok_inner = true
is_column_keyword tok_left = true
is_column_keyword tok_right = true
is_column_keyword _ = false

unfoldable pub is_agg_func : Bytes → Bool
unfolding bytes_eq
is_agg_func name =
    bytes_eq name (codes "COUNT")
    || bytes_eq name (codes "SUM")
    || bytes_eq name (codes "AVG")
    || bytes_eq name (codes "MIN")
    || bytes_eq name (codes "MAX")

-- `strconv.ParseFloat`: the bits of the float64 that a text denotes.
module _ (parse_float : Bytes → Option ℕ) where
  unfoldable mutual
    pub parse_expr : ℕ → ℕ → P Expr
    parse_expr zero min_prec l = (out_of_fuel, l)
    parse_expr (suc f) min_prec l = (do left ← parse_unary f; infix_loop f min_prec left) l

    -- The loop of `parseExpr`.
    pub infix_loop : ℕ → ℕ → Expr → P Expr
    infix_loop zero min_prec left l = (out_of_fuel, l)
    infix_loop (suc f) min_prec left l =
        (do
          tok ← peek
          if leb (precedence tok.kind) min_prec
              then pure left
              else (do advance; left ← infix_step f tok left; infix_loop f min_prec left))
          l

    -- Its switch on the operator token.
    pub infix_step : ℕ → Token → Expr → P Expr
    infix_step zero tok left l = (out_of_fuel, l)
    infix_step (suc f) tok left l = elim (binary_op tok.kind) [
      | some op ↦
          (do right ← parse_expr f (precedence tok.kind); pure (binary_expr op left right)) l
      | none ↦
          (if tok.kind is tok_is
              then (do
                not_tok ← peek
                let is_not = not_tok.kind is tok_not
                skip_if is_not
                expect tok_null
                pure (is_null_expr left is_not))
              else if tok.kind is tok_not
              then (do
                next_tok ← peek
                advance
                negatable f next_tok true (precedence tok.kind) left)
              else negatable f tok false (precedence tok.kind) left)
            l
    ]

    -- BETWEEN, LIKE and IN, with or without a NOT in front.
    pub negatable : ℕ → Token → Bool → ℕ → Expr → P Expr
    negatable zero tok negated prec left l = (out_of_fuel, l)
    negatable (suc f) tok negated prec left l =
        (if tok.kind is tok_between
            then (do
              lo ← parse_expr f prec
              expect tok_and
              hi ← parse_expr f prec
              pure (between_expr left lo hi negated))
            else if tok.kind is tok_like
            then (do pattern_expr ← parse_expr f prec; pure (like_expr left pattern_expr negated))
            else if tok.kind is tok_in
            then (do
              expect tok_lparen
              list ← parse_expr_list f
              expect tok_rparen
              pure (in_expr left list negated))
            else fail (unexpected_not tok.pos))
          l

    pub parse_unary : ℕ → P Expr
    parse_unary zero l = (out_of_fuel, l)
    parse_unary (suc f) l =
        (do
          tok ← peek
          if tok.kind is tok_not
              then (do advance; e ← parse_expr f 3; pure (unary_expr op_not e))
              else if tok.kind is tok_minus
              then (do
                advance
                next_tok ← peek
                if next_tok.kind is tok_int || next_tok.kind is tok_float
                    then (do advance; numeric_literal parse_float next_tok true)
                    else (do e ← parse_unary f; pure (unary_expr op_minus e)))
              else parse_primary f)
          l

    pub parse_primary : ℕ → P Expr
    parse_primary zero l = (out_of_fuel, l)
    parse_primary (suc f) l = (do tok ← next; primary_of f tok) l

    pub primary_of : ℕ → Token → P Expr
    primary_of zero tok l = (out_of_fuel, l)
    primary_of (suc f) tok l =
        (if tok.kind is tok_int || tok.kind is tok_float
            then numeric_literal parse_float tok false
            else if tok.kind is tok_string
            then pure (string_literal tok.text)
            else if tok.kind is tok_null
            then pure null_literal
            else if tok.kind is tok_true
            then pure (bool_literal true)
            else if tok.kind is tok_false
            then pure (bool_literal false)
            else if tok.kind is tok_star
            then pure star_expr
            else if tok.kind is tok_lparen
            then parenthesised f
            else if tok.kind is tok_case
            then parse_case_expr f
            else if tok.kind is tok_ident
            then named f tok.text
            else if is_column_keyword tok.kind
            then pure (column_ref [] tok.text)
            else fail (unexpected_token tok.pos))
          l

    -- A subquery or an expression in parentheses.
    pub parenthesised : ℕ → P Expr
    parenthesised zero l = (out_of_fuel, l)
    parenthesised (suc f) l =
        (do
          inner ← peek
          if inner.kind is tok_select
              then (do query ← parse_select f; expect tok_rparen; pure (subquery_expr query))
              else (do e ← parse_expr f 0; expect tok_rparen; pure e))
          l

    -- A column, a qualified column or a function call.
    pub named : ℕ → Bytes → P Expr
    named zero name l = (out_of_fuel, l)
    named (suc f) name l =
        (do
          next_tok ← peek
          if next_tok.kind is tok_dot
              then (do
                advance
                col ← expect_ident
                paren ← peek
                if paren.kind is tok_lparen
                    then parse_func_call f (to_upper col.text)
                    else pure (column_ref name col.text))
              else (if next_tok.kind is tok_lparen
                  then parse_func_call f (to_upper name)
                  else pure (column_ref [] name)))
          l

    pub parse_func_call : ℕ → Bytes → P Expr
    parse_func_call zero name l = (out_of_fuel, l)
    parse_func_call (suc f) name l =
        (do
          expect tok_lparen
          if is_agg_func name then agg_call f name else (do
            tok ← peek
            if tok.kind is tok_rparen
                then (do expect tok_rparen; pure (func_expr name no_exprs))
                else (do args ← parse_expr_list f; expect tok_rparen; pure (func_expr name args))))
          l

    -- An aggregate's arguments; `COUNT(*)` has its own form.
    pub agg_call : ℕ → Bytes → P Expr
    agg_call zero name l = (out_of_fuel, l)
    agg_call (suc f) name l =
        (do
          tok ← peek
          let distinct = tok.kind is tok_distinct
          skip_if distinct
          star ← peek
          if star.kind is tok_star && bytes_eq name (codes "COUNT")
              then (do
                advance
                expect tok_rparen
                pure (agg_func_expr name (present star_expr) distinct))
              else (do
                arg ← parse_expr f 0
                expect tok_rparen
                pure (agg_func_expr name (present arg) distinct)))
          l

    pub parse_case_expr : ℕ → P Expr
    parse_case_expr zero l = (out_of_fuel, l)
    parse_case_expr (suc f) l =
        (do
          whens ← parse_whens f
          tok ← peek
          if tok.kind is tok_else
              then (do
                advance
                else_expr ← parse_expr f 0
                expect tok_end
                pure (case_expr whens (present else_expr)))
              else (do expect tok_end; pure (case_expr whens absent)))
          l

    pub parse_whens : ℕ → P Whens
    parse_whens zero l = (out_of_fuel, l)
    parse_whens (suc f) l =
        (do
          tok ← peek
          if tok.kind is tok_when
              then (do
                advance
                cond_expr ← parse_expr f 0
                expect tok_then
                result ← parse_expr f 0
                rest ← parse_whens f
                pure (more_whens cond_expr result rest))
              else pure no_whens)
          l

    pub parse_expr_list : ℕ → P Exprs
    parse_expr_list zero l = (out_of_fuel, l)
    parse_expr_list (suc f) l =
        (do
          e ← parse_expr f 0
          tok ← peek
          if tok.kind is tok_comma
              then (do advance; rest ← parse_expr_list f; pure (more_exprs e rest))
              else pure (more_exprs e no_exprs))
          l

    pub parse_select : ℕ → P SelectStmt
    parse_select zero l = (out_of_fuel, l)
    parse_select (suc f) l =
        (do
          expect tok_select
          tok ← peek
          let distinct = tok.kind is tok_distinct
          skip_if distinct
          columns ← parse_select_columns f
          tables ← parse_from f
          cond_expr ← parse_clause_expr f tok_where
          group_by ← parse_group_by f
          having ← parse_clause_expr f tok_having
          order_by ← parse_order_by f
          (limit, offset) ← limit_loop f none none
          pure
              (select_stmt distinct columns tables cond_expr group_by having order_by limit offset))
          l

    pub parse_select_columns : ℕ → P SelectColumns
    parse_select_columns zero l = (out_of_fuel, l)
    parse_select_columns (suc f) l =
        (do
          tok ← peek
          if tok.kind is tok_from || tok.kind is tok_eof || tok.kind is tok_semicolon
              then pure no_columns
              else (do
                e ← parse_expr f 0
                alias ← parse_alias
                sep ← peek
                if sep.kind is tok_comma
                    then (do
                      advance
                      rest ← parse_select_columns f
                      pure (more_columns e alias rest))
                    else pure (more_columns e alias no_columns)))
          l

    -- WHERE or HAVING, and its expression.
    pub parse_clause_expr : ℕ → TokenKind → P OptExpr
    parse_clause_expr zero kind l = (out_of_fuel, l)
    parse_clause_expr (suc f) kind l =
        (do
          tok ← peek
          if tok.kind is kind
              then (do advance; e ← parse_expr f 0; pure (present e))
              else pure absent)
          l

    pub parse_group_by : ℕ → P Exprs
    parse_group_by zero l = (out_of_fuel, l)
    parse_group_by (suc f) l =
        (do
          tok ← peek
          if tok.kind is tok_group
              then (do advance; expect tok_by; parse_expr_list f)
              else pure no_exprs)
          l

    pub parse_order_by : ℕ → P OrderByItems
    parse_order_by zero l = (out_of_fuel, l)
    parse_order_by (suc f) l =
        (do
          tok ← peek
          if tok.kind is tok_order
              then (do advance; expect tok_by; parse_order_by_list f)
              else pure no_items)
          l

    pub parse_order_by_list : ℕ → P OrderByItems
    parse_order_by_list zero l = (out_of_fuel, l)
    parse_order_by_list (suc f) l =
        (do
          e ← parse_expr f 0
          tok ← peek
          let descending = tok.kind is tok_desc
          skip_if (descending || tok.kind is tok_asc)
          sep ← peek
          if sep.kind is tok_comma
              then (do advance; rest ← parse_order_by_list f; pure (more_items e descending rest))
              else pure (more_items e descending no_items))
          l

  -- One statement, which must be the whole input but for a semicolon.
  unfoldable pub parse_statement : ℕ → P SelectStmt
  parse_statement f = do
    tok ← peek_strict
    if tok.kind is tok_select
        then (do
          stmt ← parse_select f
          semi ← peek
          skip_if (semi.kind is tok_semicolon)
          last ← peek_strict
          if last.kind is tok_eof
              then pure stmt
              else if last.kind is tok_union
                  || last.kind is tok_intersect
                  || last.kind is tok_except
              then fail (not_supported last.pos)
              else fail (unexpected_token last.pos))
        else fail (expected_select tok.pos)
