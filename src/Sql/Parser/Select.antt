-- ===== src/Sql/Parser/Select.antt =====
-- sql/parser.go: the parts of SELECT that hold no expressions. Loops take fuel.
use vexq.Sql.Token.{
  tok_ident, tok_from, ◌is◌, tok_as, tok_comma, tok_from, tok_ident, tok_limit, tok_offset,
}
use vexq.Prelude.{
  if◌then◌else◌, Bytes, ℕ, zero, suc, Bool, true, false, Option, none, some, List, [], ◌∷◌,
}
use vexq.Sql.Lexer.{duplicate_clause, out_of_fuel}
use vexq.Sql.Ast.{TableRef}
use vexq.Sql.Parser.Monad.{◌>>=◌, ◌>>◌, P, pure, fail, peek, advance, expect_ident}
use vexq.Sql.Parser.Literal.{parse_count}

-- An optional alias, with or without AS; empty if there is none.
unfoldable pub parse_alias : P Bytes
parse_alias = do
  tok ← peek
  if tok.kind is tok_as
      then (do advance; alias ← expect_ident; pure alias.text)
      else (do tok ← peek; if tok.kind is tok_ident then (do advance; pure tok.text) else pure [])

unfoldable pub parse_table_ref : P TableRef
unfolding parse_alias
parse_table_ref = do
  name_tok ← expect_ident
  alias ← parse_alias
  pure (record { name = name_tok.text; alias = alias })

unfoldable pub table_loop : ℕ → P (List TableRef)
table_loop zero l = (out_of_fuel, l)
table_loop (suc f) l =
    (do
      ref ← parse_table_ref
      tok ← peek
      if tok.kind is tok_comma
          then (do advance; rest ← table_loop f; pure (ref ∷ rest))
          else pure (ref ∷ []))
      l

-- FROM and a comma-separated table list.
unfoldable pub parse_from : ℕ → P (List TableRef)
unfolding parse_table_ref table_loop
parse_from f = do tok ← peek; if tok.kind is tok_from then (do advance; table_loop f) else pure []

is_some : Option ℕ → Bool
is_some none = false
is_some (some n) = true

-- LIMIT and OFFSET, in either order, each at most once.
unfoldable pub limit_loop : ℕ → Option ℕ → Option ℕ → P (Option ℕ × Option ℕ)
unfolding is_some
limit_loop zero limit offset l = (out_of_fuel, l)
limit_loop (suc f) limit offset l =
    (do
      tok ← peek
      if tok.kind is tok_limit
          then (if is_some limit
              then fail (duplicate_clause tok.pos)
              else (do advance; n ← parse_count; limit_loop f (some n) offset))
          else if tok.kind is tok_offset
          then (if is_some offset
              then fail (duplicate_clause tok.pos)
              else (do advance; n ← parse_count; limit_loop f limit (some n)))
          else pure (limit, offset))
      l
