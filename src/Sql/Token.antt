-- ===== src/Sql/Token.antt =====
-- sql/lexer.go: tokens and keywords.
use vexq.Prelude.{
  leb, ◌==◌, if◌then◌else◌, codes, bytes_eq, Bytes, ℕ, ◌-◌, Bool, ◌&&◌, Option, none, some, List,
  [], ◌∷◌, map,
}

-- Token kinds, in the order of the source's `iota`.
pub data TokenKind : Type 0 where
  tok_eof tok_ident tok_int tok_float tok_string tok_lparen tok_rparen tok_comma : TokenKind
  tok_dot tok_star tok_semicolon tok_eq tok_ne tok_lt tok_le tok_gt : TokenKind
  tok_ge tok_plus tok_minus tok_slash tok_select tok_from tok_where tok_group : TokenKind
  tok_by tok_order tok_limit tok_as tok_and tok_or tok_not tok_in : TokenKind
  tok_is tok_null tok_true tok_false tok_between tok_like tok_case tok_when : TokenKind
  tok_then tok_else tok_end tok_distinct tok_asc tok_desc tok_inner tok_join : TokenKind
  tok_on tok_left tok_right tok_outer tok_cross tok_having tok_offset tok_union : TokenKind
  tok_intersect tok_except : TokenKind

-- The number of a kind.
pub kind_code : TokenKind → ℕ
kind_code tok_eof = 0
kind_code tok_ident = 1
kind_code tok_int = 2
kind_code tok_float = 3
kind_code tok_string = 4
kind_code tok_lparen = 5
kind_code tok_rparen = 6
kind_code tok_comma = 7
kind_code tok_dot = 8
kind_code tok_star = 9
kind_code tok_semicolon = 10
kind_code tok_eq = 11
kind_code tok_ne = 12
kind_code tok_lt = 13
kind_code tok_le = 14
kind_code tok_gt = 15
kind_code tok_ge = 16
kind_code tok_plus = 17
kind_code tok_minus = 18
kind_code tok_slash = 19
kind_code tok_select = 20
kind_code tok_from = 21
kind_code tok_where = 22
kind_code tok_group = 23
kind_code tok_by = 24
kind_code tok_order = 25
kind_code tok_limit = 26
kind_code tok_as = 27
kind_code tok_and = 28
kind_code tok_or = 29
kind_code tok_not = 30
kind_code tok_in = 31
kind_code tok_is = 32
kind_code tok_null = 33
kind_code tok_true = 34
kind_code tok_false = 35
kind_code tok_between = 36
kind_code tok_like = 37
kind_code tok_case = 38
kind_code tok_when = 39
kind_code tok_then = 40
kind_code tok_else = 41
kind_code tok_end = 42
kind_code tok_distinct = 43
kind_code tok_asc = 44
kind_code tok_desc = 45
kind_code tok_inner = 46
kind_code tok_join = 47
kind_code tok_on = 48
kind_code tok_left = 49
kind_code tok_right = 50
kind_code tok_outer = 51
kind_code tok_cross = 52
kind_code tok_having = 53
kind_code tok_offset = 54
kind_code tok_union = 55
kind_code tok_intersect = 56
kind_code tok_except = 57

infix 50 ◌is◌
unfoldable pub ◌is◌ : TokenKind → TokenKind → Bool
unfolding kind_code
a is b = kind_code a == kind_code b

-- `tok.Kind >= TokSELECT`: a keyword.
unfoldable pub is_keyword : TokenKind → Bool
unfolding kind_code
is_keyword k = leb (kind_code tok_select) (kind_code k)

pub record Token : Type 0 where
  pub kind : TokenKind
  pub text : Bytes
  pub pos : ℕ

abbrev pub keywords : List (Bytes × TokenKind)
keywords =
    (codes "SELECT", tok_select)
    ∷ (codes "FROM", tok_from)
    ∷ (codes "WHERE", tok_where)
    ∷ (codes "GROUP", tok_group)
    ∷ (codes "BY", tok_by)
    ∷ (codes "ORDER", tok_order)
    ∷ (codes "LIMIT", tok_limit)
    ∷ (codes "AS", tok_as)
    ∷ (codes "AND", tok_and)
    ∷ (codes "OR", tok_or)
    ∷ (codes "NOT", tok_not)
    ∷ (codes "IN", tok_in)
    ∷ (codes "IS", tok_is)
    ∷ (codes "NULL", tok_null)
    ∷ (codes "TRUE", tok_true)
    ∷ (codes "FALSE", tok_false)
    ∷ (codes "BETWEEN", tok_between)
    ∷ (codes "LIKE", tok_like)
    ∷ (codes "CASE", tok_case)
    ∷ (codes "WHEN", tok_when)
    ∷ (codes "THEN", tok_then)
    ∷ (codes "ELSE", tok_else)
    ∷ (codes "END", tok_end)
    ∷ (codes "DISTINCT", tok_distinct)
    ∷ (codes "ASC", tok_asc)
    ∷ (codes "DESC", tok_desc)
    ∷ (codes "INNER", tok_inner)
    ∷ (codes "JOIN", tok_join)
    ∷ (codes "ON", tok_on)
    ∷ (codes "LEFT", tok_left)
    ∷ (codes "RIGHT", tok_right)
    ∷ (codes "OUTER", tok_outer)
    ∷ (codes "CROSS", tok_cross)
    ∷ (codes "HAVING", tok_having)
    ∷ (codes "OFFSET", tok_offset)
    ∷ (codes "UNION", tok_union)
    ∷ (codes "INTERSECT", tok_intersect)
    ∷ (codes "EXCEPT", tok_except)
    ∷ []

find_keyword : Bytes → List (Bytes × TokenKind) → Option TokenKind
unfolding bytes_eq
find_keyword s [] = none
find_keyword s ((w, k) ∷ ws) = if bytes_eq w s then some k else find_keyword s ws

-- `keywords[upper]`
unfoldable pub keyword : Bytes → Option TokenKind
unfolding find_keyword
keyword s = find_keyword s keywords

upper_byte : ℕ → ℕ
upper_byte c = if leb b'a' c && leb c b'z' then c - 32 else c

-- `strings.ToUpper` on ASCII text.
unfoldable pub to_upper : Bytes → Bytes
unfolding upper_byte
to_upper = map upper_byte
