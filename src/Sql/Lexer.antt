-- ===== src/Sql/Lexer.antt =====
-- sql/lexer.go: the scanner, over the bytes that are left of the source, and its position.
pub mod Progress
pub mod Quoting
pub mod Peek
use vexq.Prelude.{
  ltb, leb, ◌==◌, if◌then◌else◌, ltb→lt, lt→ltb, leb→le, ==_iff, tests, Bool-cases, Option-cases,
  codes, bytes_eq, bytes_eq→eq, bytes_eq_refl, bytes_eq_iff, length, get_elem?, set, length-append,
  length-set, get_elem?-set_self, get_elem?-set_ne, get_or, take, drop, replicate, take-append-drop,
  length-take, length-drop, length-replicate, length-map, append_cancel, take_append, All,
  All-append, Bytes, IsByte, u16, u32, u64, ltb_i64, ltb_i32, Error, checksum, corrupt_footer,
  bad_magic, type_mismatch, column_complete, row_group_open, missing_columns, index_out_of_range,
  unexpected_eof, eof, Result, ok, err, panic, ◌>>=◌, reject_if, Safe, Safe-bind, ℕ, zero, suc, ◌+◌,
  ◌-◌, ◌*◌, ◌/◌, ◌%◌, ◌^◌, ◌≤◌, ◌<◌, min, ◌≡◌, refl, sym, ap, ap₂, ◌∙◌, subst, fun_ext, ◌≢◌, ◌↔◌,
  ◌⊎◌, inl, inr, Bool, true, false, not, ◌&&◌, ◌||◌, Option, none, some, List, [], ◌∷◌, ◌++◌, map,
  append-nil, append_assoc, foldl, arith,
}
use vexq.Sql.Token.{
  tok_eq, tok_slash, tok_minus, tok_plus, tok_semicolon, tok_gt, tok_star, tok_dot, tok_ge, tok_lt,
  tok_comma, tok_ne, tok_rparen, tok_string, tok_int, tok_le, tok_lparen, tok_ident, tok_eof,
  tok_float, TokenKind, Token, keyword, to_upper,
}

-- The errors of the lexer and the parser, with the position that the message gives.
pub data SqlError : Type 0 where
  unexpected_character unterminated_string unterminated_ident : ℕ → SqlError
  expected_select unexpected_token not_supported duplicate_clause : ℕ → SqlError
  bad_count count_out_of_range int_out_of_range bad_number unexpected_not : ℕ → SqlError
  expected_kind expected_identifier : ℕ → SqlError

-- `out_of_fuel` belongs to the model only.
pub data Parsed {ℓ} (A : Type ℓ) : Type ℓ where
  parsed : A → Parsed A
  failed : SqlError → Parsed A
  out_of_fuel : Parsed A

-- `l.src[l.pos:]`, `l.pos` and `l.peek`.
pub record Lexer : Type 0 where
  pub rest : Bytes
  pub pos : ℕ
  pub peeked : Option Token

abbrev pub new_lexer : Bytes → Lexer
new_lexer src = record { rest = src; pos = 0; peeked = none }

unfoldable pub is_digit : ℕ → Bool
is_digit c = leb b'0' c && leb c b'9'

-- A byte from 0x80 on decodes to no letter.
unfoldable pub is_letter : ℕ → Bool
is_letter c = leb b'a' c && leb c b'z' || leb b'A' c && leb c b'Z' || c == b'_'

unfoldable pub is_space : ℕ → Bool
is_space c = c == 32 || c == 9 || c == 10 || c == 13

-- Between tokens, inside a `--` comment, inside a `/*` comment.
pub data Skip : Type 0 where
  outside in_line in_block : Skip

-- What is left of a source, and where.
abbrev pub Place : Type 0
Place = Bytes × ℕ

-- `skipWhitespaceAndComments`. A line comment ends at its newline, which is skipped as a space. An
-- unterminated block comment ends before the source's last byte, and the scan goes on there.
unfoldable pub skip : Skip → Bytes → ℕ → Place
skip mode [] pos = ([], pos)
skip outside (c ∷ []) pos = if is_space c then ([], pos + 1) else (c ∷ [], pos)
skip in_block (c ∷ []) pos = if is_space c then ([], pos + 1) else (c ∷ [], pos)
skip in_line (c ∷ []) pos = ([], pos + 1)
skip outside (c ∷ d ∷ cs) pos =
    let spaced = skip outside (d ∷ cs) (pos + 1) in
    let line = skip in_line (d ∷ cs) (pos + 1) in
    let block = skip in_block cs (pos + 2) in
    if is_space c
    then spaced
    else if c == b'-' && d == b'-'
    then line
    else if c == b'/' && d == b'*'
    then block
    else (c ∷ d ∷ cs, pos)
skip in_line (c ∷ d ∷ cs) pos = skip (if c == 10 then outside else in_line) (d ∷ cs) (pos + 1)
skip in_block (c ∷ d ∷ cs) pos =
    let closed = skip outside cs (pos + 2) in
    let more = skip in_block (d ∷ cs) (pos + 1) in if c == b'*' && d == b'/' then closed else more

-- The text of a token and what follows it.
abbrev pub Scanned : Type 0
Scanned = Bytes × Bytes × ℕ

-- The body of a quoted string; a doubled quote stands for one. `none` at the end of the source.
unfoldable pub string_body : Bytes → Bytes → ℕ → Option Scanned
string_body text [] pos = none
string_body text (c ∷ []) pos = if c == 39 then some (text, [], pos + 1) else none
string_body text (c ∷ d ∷ cs) pos =
    let escaped = string_body (text ++ 39 ∷ []) cs (pos + 2) in
    let more = string_body (text ++ c ∷ []) (d ∷ cs) (pos + 1) in
    if c == 39 then (if d == 39 then escaped else some (text, d ∷ cs, pos + 1)) else more

unfoldable pub ident_body : ℕ → Bytes → Bytes → ℕ → Option Scanned
ident_body delim text [] pos = none
ident_body delim text (c ∷ cs) pos =
    let more = ident_body delim (text ++ c ∷ []) cs (pos + 1) in
    if c == delim then some (text, cs, pos + 1) else more

unfoldable pub is_sign : ℕ → Bool
is_sign c = c == b'+' || c == b'-'

is_exponent : ℕ → Bool
is_exponent c = c == b'e' || c == b'E'

-- Digits, one point, and exponents with an optional sign; the flag tells a float.
unfoldable pub number_body : Bool → Bytes → Bytes → ℕ → Bool × Scanned
unfolding is_exponent
number_body float text [] pos = (float, (text, [], pos))
number_body float text (c ∷ []) pos =
    if is_digit c
    then (float, (text ++ c ∷ [], [], pos + 1))
    else if c == b'.' && not float || is_exponent c
    then (true, (text ++ c ∷ [], [], pos + 1))
    else (float, (text, c ∷ [], pos))
number_body float text (c ∷ d ∷ cs) pos =
    let digit = number_body float (text ++ c ∷ []) (d ∷ cs) (pos + 1) in
    let point = number_body true (text ++ c ∷ []) (d ∷ cs) (pos + 1) in
    let signed = number_body true (text ++ c ∷ d ∷ []) cs (pos + 2) in
    if is_digit c
    then digit
    else if c == b'.' && not float
    then point
    else if is_exponent c
    then (if is_sign d then signed else point)
    else (float, (text, c ∷ d ∷ cs, pos))

unfoldable pub word_body : Bytes → Bytes → ℕ → Scanned
word_body text [] pos = (text, [], pos)
word_body text (c ∷ cs) pos =
    let more = word_body (text ++ c ∷ []) cs (pos + 1) in
    if is_letter c || is_digit c || c == b'_' then more else (text, c ∷ cs, pos)

-- A token, or an error, and the place after it.
abbrev pub Scan : Type 0
Scan = Parsed Token × Bytes × ℕ

abbrev token : TokenKind → Bytes → ℕ → Parsed Token
token kind text pos = parsed (record { kind = kind; text = text; pos = pos })

-- An unterminated body has been read to the end of the source.
pub body_token : TokenKind → SqlError → ℕ → ℕ → Option Scanned → Scan
body_token kind e start end none = (failed e, [], end)
body_token kind e start end (some (text, rest, pos)) = (token kind text start, rest, pos)

pub number_token : ℕ → Bool × Scanned → Scan
number_token start (float, (text, rest, pos)) =
    (token (if float then tok_float else tok_int) text start, rest, pos)

pub word_token : ℕ → Scanned → Scan
word_token start (text, rest, pos) = elim (keyword (to_upper text)) [
  | some kind ↦ (token kind (to_upper text) start, rest, pos)
  | none ↦ (token tok_ident text start, rest, pos)
]

-- The kind of a one-byte token.
pub punctuation : ℕ → Option TokenKind
punctuation c =
    if c == b'('
    then some tok_lparen
    else if c == b')'
    then some tok_rparen
    else if c == b','
    then some tok_comma
    else if c == b'.'
    then some tok_dot
    else if c == b'*'
    then some tok_star
    else if c == b';'
    then some tok_semicolon
    else if c == b'+'
    then some tok_plus
    else if c == b'-'
    then some tok_minus
    else if c == b'/'
    then some tok_slash
    else if c == b'='
    then some tok_eq
    else none

starts_with : ℕ → Bytes → Bool
starts_with c [] = false
starts_with c (d ∷ cs) = d == c

-- The tokens that begin with `<`, `>` or `!`, and the error for any other byte, which is skipped.
pub operator : ℕ → Bytes → ℕ → Scan
unfolding starts_with
operator c cs pos =
    if c == b'<'
    then (if starts_with b'=' cs
        then (token tok_le (codes "<=") pos, drop 1 cs, pos + 2)
        else if starts_with b'>' cs
        then (token tok_ne (codes "<>") pos, drop 1 cs, pos + 2)
        else (token tok_lt (codes "<") pos, cs, pos + 1))
    else if c == b'>'
    then (if starts_with b'=' cs
        then (token tok_ge (codes ">=") pos, drop 1 cs, pos + 2)
        else (token tok_gt (codes ">") pos, cs, pos + 1))
    else if c == b'!' && starts_with b'=' cs
    then (token tok_ne (codes "!=") pos, drop 1 cs, pos + 2)
    else (failed (unexpected_character pos), cs, pos + 1)

pub symbol : ℕ → Bytes → ℕ → Scan
unfolding punctuation operator
symbol c cs pos = elim (punctuation c) [
  | some kind ↦ (token kind (c ∷ []) pos, cs, pos + 1)
  | none ↦ operator c cs pos
]

-- `scan` after the spaces.
unfoldable pub scan_token : Bytes → ℕ → Scan
unfolding body_token number_token word_token symbol
scan_token [] pos = (token tok_eof [] pos, [], pos)
scan_token (c ∷ cs) pos =
    if c == 39
    then body_token tok_string (unterminated_string pos) pos (pos + length (c ∷ cs))
        (string_body [] cs (pos + 1))
    else if c == 34 || c == 96
    then body_token tok_ident (unterminated_ident pos) pos (pos + length (c ∷ cs))
        (ident_body c [] cs (pos + 1))
    else if is_digit c
    then number_token pos (number_body false [] (c ∷ cs) pos)
    else if is_letter c
    then word_token pos (word_body [] (c ∷ cs) pos)
    else symbol c cs pos

unfoldable pub scan : Bytes → ℕ → Scan
unfolding skip string_body ident_body number_body word_body scan_token
scan rest pos = let (rest', pos') = skip outside rest pos in scan_token rest' pos'

-- A failed scan leaves the lexer behind what it read, with nothing peeked.
pub peek_scan : Scan → Parsed Token × Lexer
peek_scan (parsed t, rest, pos) = (parsed t, record { rest = rest; pos = pos; peeked = some t })
peek_scan (failed e, rest, pos) = (failed e, record { rest = rest; pos = pos; peeked = none })
peek_scan (out_of_fuel, rest, pos) = (out_of_fuel, record { rest = rest; pos = pos; peeked = none })

-- The error stays with the caller; the lexer has moved on either way.
unfoldable pub peek_token : Lexer → Parsed Token × Lexer
unfolding peek_scan
peek_token l = elim l.peeked [ some t ↦ (parsed t, l) | none ↦ peek_scan (scan l.rest l.pos) ]

pub next_scan : Scan → Parsed Token × Lexer
next_scan (r, rest, pos) = (r, record { rest = rest; pos = pos; peeked = none })

unfoldable pub next_token : Lexer → Parsed Token × Lexer
unfolding next_scan
next_token l = elim l.peeked [
  | some t ↦ (parsed t, record l { peeked = none })
  | none ↦ next_scan (scan l.rest l.pos)
]
