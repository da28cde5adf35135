-- ===== src/Sql/Format/Precedence.antt =====
-- The formatter's levels against the parser's.
use vexq.Prelude.{ℕ, ◌+◌, ◌≤◌, ◌<◌, ◌≡◌, ◌⊎◌, arith}
use vexq.Sql.Token.{
  TokenKind, tok_or, tok_and, tok_eq, tok_ne, tok_lt, tok_le, tok_gt, tok_ge, tok_plus, tok_minus,
  tok_star, tok_slash,
}
use vexq.Sql.Ast.{
  BinOp, op_or, op_and, op_eq, op_ne, op_lt, op_le, op_gt, op_ge, op_add, op_sub, op_mul, op_div,
}
use vexq.Sql.Format.{bin_prec}
use vexq.Sql.Parser.{precedence}

-- The token that the parser reads for an operator.
abbrev pub token_of : BinOp → TokenKind
token_of op_or = tok_or
token_of op_and = tok_and
token_of op_eq = tok_eq
token_of op_ne = tok_ne
token_of op_lt = tok_lt
token_of op_le = tok_le
token_of op_gt = tok_gt
token_of op_ge = tok_ge
token_of op_add = tok_plus
token_of op_sub = tok_minus
token_of op_mul = tok_star
token_of op_div = tok_slash

-- The parser's level of an operator of a formatter level: only comparisons have two.
abbrev Level : ℕ → ℕ → Type 0
Level p q = ((p ≤ 2) × (q ≡ p)) ⊎ ((p ≡ 3) × (4 ≤ q) × (q ≤ 5)) ⊎ ((4 ≤ p) × (q ≡ p + 3))

bin_prec-Level : (op : BinOp) → Level (bin_prec op) (precedence (token_of op))
unfolding bin_prec precedence
bin_prec-Level op_or = ground arith
bin_prec-Level op_and = ground arith
bin_prec-Level op_eq = ground arith
bin_prec-Level op_ne = ground arith
bin_prec-Level op_lt = ground arith
bin_prec-Level op_le = ground arith
bin_prec-Level op_gt = ground arith
bin_prec-Level op_ge = ground arith
bin_prec-Level op_add = ground arith
bin_prec-Level op_sub = ground arith
bin_prec-Level op_mul = ground arith
bin_prec-Level op_div = ground arith

-- Where binPrec puts one operator below another the parser does too; where it has one level for
-- both, the levels of the parser are equal or both are comparisons.
pub bin_prec-precedence :
    (a b : BinOp)
    → (bin_prec a < bin_prec b → precedence (token_of a) < precedence (token_of b))
      × (bin_prec a ≡ bin_prec b
          → (precedence (token_of a) ≡ precedence (token_of b)) ⊎ (bin_prec a ≡ 3))
bin_prec-precedence a b = (
  λ h. ground (arith, bin_prec-Level a, bin_prec-Level b),
  λ h. ground (arith, bin_prec-Level a, bin_prec-Level b),
)
