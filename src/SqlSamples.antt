-- ===== src/SqlSamples.antt =====
-- Concrete tokens and statements, and the lexer's theorems at concrete inputs.
use vexq.Prelude.{codes, bytes_eq, length, Bytes, ℕ, ◌+◌, ◌<◌, ◌≡◌, refl, Option, none, ◌++◌, arith}
use vexq.Sql.Token.{Token, tok_string, tok_int}
use vexq.Sql.Ast.{op_and, op_lt}
use vexq.Sql.Format.{bin_prec}
use vexq.Sql.Format.Precedence.{token_of, bin_prec-precedence}
use vexq.Prelude.{◌⊎◌, ◌<◌}
use vexq.Sql.Lexer.{
  parsed, failed, unexpected_character, new_lexer, is_space, is_digit, is_letter, scan, peek_token,
  next_token, is_space, is_digit, is_letter,
}
use vexq.Sql.Lexer.Progress.{Consumes, scan-Consumes}
use vexq.Sql.Lexer.Quoting.{quote_string, scan-quote_string}
use vexq.Sql.Lexer.Peek.{next_token-peek_token, peek_token_failed}
use vexq.Sql.Parser.{
  parse_statement, parse_select, parse_select_columns, parse_clause_expr, parse_group_by,
  parse_order_by, parse_expr, infix_loop, parse_unary, parse_primary, primary_of, named, precedence,
}
use vexq.Sql.Parser.Monad.{peek_strict, peek, next, advance, skip_if, expect, expect_ident}
use vexq.Sql.Parser.Select.{parse_from, table_loop, parse_table_ref, parse_alias, limit_loop}
use vexq.Prelude.{bytes_eq}
use vexq.Sql.Token.{◌is◌, is_keyword, keyword, to_upper}

scan-Consumes_example : Consumes (codes "-- x\n 12e+3,", 0) (scan (codes "-- x\n 12e+3,") 0)
scan-Consumes_example = scan-Consumes (codes "-- x\n 12e+3,") 0

scan-quote_string_example : scan (quote_string (codes "it's") ++ codes " FROM t") 7 ≡ (
  parsed (record { kind = tok_string; text = codes "it's"; pos = 7 }),
  codes " FROM t",
  7 + length (quote_string (codes "it's")),
)
scan-quote_string_example =
    scan-quote_string (codes "it's") (codes " FROM t") 7 (λ e. omega (arith, e))

abbrev forty_two : Token
forty_two = record { kind = tok_int; text = codes "42"; pos = 1 }

forty_two_peeked : (peek_token (new_lexer (codes " 42 "))).0 ≡ parsed forty_two
unfolding peek_token scan is_space is_digit
forty_two_peeked = refl

next_token-peek_token_example :
    (next_token (peek_token (new_lexer (codes " 42 "))).1 ≡ next_token (new_lexer (codes " 42 ")))
    × ((next_token (new_lexer (codes " 42 "))).0 ≡ parsed forty_two)
next_token-peek_token_example =
    next_token-peek_token (new_lexer (codes " 42 ")) forty_two forty_two_peeked

hash_refused : (peek_token (new_lexer (codes "# FROM"))).0 ≡ failed (unexpected_character 0)
unfolding peek_token scan is_space is_digit is_letter
hash_refused = refl

peek_token_failed_example :
    (peek_token (new_lexer (codes "# FROM")) ≡ next_token (new_lexer (codes "# FROM")))
    × (0 < (peek_token (new_lexer (codes "# FROM"))).1.pos)
peek_token_failed_example =
    peek_token_failed (new_lexer (codes "# FROM")) (unexpected_character 0) hash_refused

abbrev no_floats : Bytes → Option ℕ
no_floats s = none

-- The illegal byte behind the column is gone.
hash_skipped :
    (parse_statement no_floats 20 (new_lexer (codes "SELECT a # FROM t"))).0
    ≡ (parse_statement no_floats 20 (new_lexer (codes "SELECT a   FROM t"))).0
unfolding parse_statement parse_select parse_select_columns parse_clause_expr parse_group_by
    parse_order_by parse_from table_loop parse_table_ref parse_alias limit_loop parse_expr
    infix_loop parse_unary parse_primary primary_of named precedence peek_strict peek next advance
    skip_if expect expect_ident peek_token next_token scan is_space is_digit is_letter ◌is◌
    is_keyword keyword to_upper bytes_eq
hash_skipped = refl

bin_prec-precedence_example :
    (bin_prec op_and < bin_prec op_lt → precedence (token_of op_and) < precedence (token_of op_lt))
    × (bin_prec op_and ≡ bin_prec op_lt
        → (precedence (token_of op_and) ≡ precedence (token_of op_lt)) ⊎ (bin_prec op_and ≡ 3))
bin_prec-precedence_example = bin_prec-precedence op_and op_lt
