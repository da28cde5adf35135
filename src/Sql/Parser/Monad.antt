-- ===== src/Sql/Parser/Monad.antt =====
-- sql/parser.go: the parser's steps over its lexer. The lexer's state stays as a failed step left it.
use vexq.Sql.Token.{TokenKind, Token, ◌is◌, is_keyword, tok_eof, tok_ident}
use vexq.Prelude.{if◌then◌else◌, Bool, true, false, ◌||◌, []}
use vexq.Sql.Lexer.{
  out_of_fuel, expected_identifier, expected_kind, failed, parsed, Parsed, Lexer, SqlError,
  peek_token, next_token,
}

abbrev pub P : Type 0 → Type 0
P A = Lexer → Parsed A × Lexer

module _ {A B : Type 0} where
  abbrev pub continue : Parsed A → (A → P B) → P B
  continue (parsed a) k l = k a l
  continue (failed e) k l = (failed e, l)
  continue out_of_fuel k l = (out_of_fuel, l)

  infixl 5 ◌>>=◌ ◌>>◌
  abbrev pub ◌>>=◌ : P A → (A → P B) → P B
  ◌>>=◌ m k l = let (r, l') = m l in continue r k l'

  abbrev pub ◌>>◌ : P A → P B → P B
  ◌>>◌ m k = m >>= (λ _. k)

abbrev pub pure : {A : Type 0} → A → P A
pure a l = (parsed a, l)

abbrev pub fail : {A : Type 0} → SqlError → P A
fail e l = (failed e, l)

-- `Token{}`, what a failed peek gives beside its error.
abbrev pub zero_token : Token
zero_token = record { kind = tok_eof; text = []; pos = 0 }

token_or_zero : Parsed Token → Parsed Token
token_or_zero (parsed t) = parsed t
token_or_zero (failed e) = parsed zero_token
token_or_zero out_of_fuel = out_of_fuel

-- `tok, _ := p.peek()`: the error is dropped.
unfoldable pub peek : P Token
unfolding token_or_zero
peek l = let (r, l') = peek_token l in (token_or_zero r, l')

-- `p.peek()` with its error returned.
unfoldable pub peek_strict : P Token
peek_strict = peek_token

-- `p.next()` with its error returned.
unfoldable pub next : P Token
next = next_token

no_token : Parsed Token → Parsed (Unit {0})
no_token (parsed t) = parsed tt
no_token (failed e) = parsed tt
no_token out_of_fuel = out_of_fuel

-- `p.next()` as a statement: the token and the error are dropped.
unfoldable pub advance : P (Unit {0})
unfolding no_token
advance l = let (r, l') = next_token l in (no_token r, l')

unfoldable pub skip_if : Bool → P (Unit {0})
unfolding advance
skip_if true = advance
skip_if false = pure tt

unfoldable pub expect : TokenKind → P Token
unfolding next
expect kind = do tok ← next; if tok.kind is kind then pure tok else fail (expected_kind tok.pos)

unfoldable pub expect_ident : P Token
unfolding next
expect_ident = do
  tok ← next
  if tok.kind is tok_ident || is_keyword tok.kind
      then pure tok
      else fail (expected_identifier tok.pos)
