-- ===== src/Sql/Parser/Literal.antt =====
-- sql/parser.go: numeric literals.
use vexq.Sql.Token.{Token, ◌is◌, tok_int}
use vexq.Prelude.{
  ltb, leb, if◌then◌else◌, Bytes, u64, ℕ, ◌+◌, ◌-◌, ◌*◌, ◌%◌, ◌^◌, Bool, false, Option, none, some,
  [], ◌∷◌,
}
use vexq.Sql.Lexer.{bad_count, count_out_of_range, bad_number, int_out_of_range, SqlError}
use vexq.Sql.Ast.{float_literal, int_literal, Expr}
use vexq.Sql.Parser.Monad.{◌>>=◌, P, pure, fail, next}

-- The number that a text of decimal digits spells.
unfoldable pub decimal : ℕ → Bytes → ℕ
decimal n [] = n
decimal n (c ∷ cs) = decimal (n * 10 + (c - b'0')) cs

-- `strconv.ParseInt` on a sign and the digits of an integer token: the int64's bit pattern.
unfoldable pub parse_int : Bool → Bytes → Option ℕ
unfolding decimal
parse_int negative text =
    let v = decimal 0 text in
    if negative
    then (if leb v (2 ^ 63) then some ((u64 - v) % u64) else none)
    else (if ltb v (2 ^ 63) then some v else none)

int_or : SqlError → (ℕ → Expr) → Option ℕ → P Expr
int_or e make none = fail e
int_or e make (some v) = pure (make v)

sign_text : Bool → Bytes → Bytes
sign_text negative text = if negative then b'-' ∷ text else text

unfoldable pub numeric_literal : (Bytes → Option ℕ) → Token → Bool → P Expr
unfolding parse_int int_or sign_text
numeric_literal parse_float tok negative =
    if tok.kind is tok_int
    then int_or (int_out_of_range tok.pos) int_literal (parse_int negative tok.text)
    else int_or (bad_number tok.pos) float_literal (parse_float (sign_text negative tok.text))

count_or : SqlError → Option ℕ → P ℕ
count_or e none = fail e
count_or e (some v) = pure v

-- The non-negative integer that follows LIMIT or OFFSET.
unfoldable pub parse_count : P ℕ
unfolding parse_int count_or next
parse_count = do
  tok ← next
  if tok.kind is tok_int
      then count_or (count_out_of_range tok.pos) (parse_int false tok.text)
      else fail (bad_count tok.pos)
