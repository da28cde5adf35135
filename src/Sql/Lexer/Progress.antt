-- ===== src/Sql/Lexer/Progress.antt =====
-- The scanner accounts for every byte, and never stands still before the end of the source.
use vexq.Prelude.{
  ◌==◌, Bool-cases, Option-cases, length, Bytes, ℕ, ◌+◌, ◌≤◌, ◌<◌, ◌≡◌, refl, ◌⊎◌, inl, inr, Bool,
  true, false, ◌||◌, Option, none, some, [], ◌∷◌, ◌++◌, arith,
}
use vexq.Sql.Token.{TokenKind}
use vexq.Sql.Lexer.{
  to_upper, keyword, tok_ident, tok_string, punctuation, tok_eof, SqlError, Skip, outside, in_line,
  in_block, Place, Scanned, Scan, parsed, skip, string_body, ident_body, number_body, word_body,
  scan_token, scan, is_digit, is_letter, body_token, number_token, word_token, symbol, operator,
}

-- Nothing is lost between two places of one source, and the second is not before the first.
pub record Advances (a b : Place) : Type 0 where
  pub whole : b.1 + length b.0 ≡ a.1 + length a.0
  pub forward : a.1 ≤ b.1

pub skip-Advances :
    (mode : Skip) (rest : Bytes) (pos : ℕ) → Advances (rest, pos) (skip mode rest pos)
unfolding skip
skip-Advances mode [] pos = record { whole = refl; forward = omega arith }
skip-Advances outside (c ∷ []) pos = ground arith
skip-Advances in_block (c ∷ []) pos = ground arith
skip-Advances in_line (c ∷ []) pos = ground arith
skip-Advances outside (c ∷ d ∷ cs) pos = ground (
  arith,
  skip-Advances outside (d ∷ cs) (pos + 1),
  skip-Advances in_line (d ∷ cs) (pos + 1),
  skip-Advances in_block cs (pos + 2),
)
skip-Advances in_line (c ∷ d ∷ cs) pos =
    ground
      (arith, skip-Advances outside (d ∷ cs) (pos + 1), skip-Advances in_line (d ∷ cs) (pos + 1))
skip-Advances in_block (c ∷ d ∷ cs) pos =
    ground (arith, skip-Advances outside cs (pos + 2), skip-Advances in_block (d ∷ cs) (pos + 1))

abbrev AdvancesSome : Place → Option Scanned → Type 0
AdvancesSome a none = Unit
AdvancesSome a (some (text, rest, pos)) = Advances a (rest, pos)

string_body-Advances :
    (text rest : Bytes) (pos : ℕ) → AdvancesSome (rest, pos) (string_body text rest pos)
unfolding string_body
string_body-Advances text [] pos = tt
string_body-Advances text (c ∷ []) pos = ground arith
string_body-Advances text (c ∷ d ∷ cs) pos = ground (
  arith,
  string_body-Advances (text ++ 39 ∷ []) cs (pos + 2),
  string_body-Advances (text ++ c ∷ []) (d ∷ cs) (pos + 1),
)

ident_body-Advances :
    (delim : ℕ) (text rest : Bytes) (pos : ℕ)
    → AdvancesSome (rest, pos) (ident_body delim text rest pos)
unfolding ident_body
ident_body-Advances delim text [] pos = tt
ident_body-Advances delim text (c ∷ cs) pos =
    ground (arith, ident_body-Advances delim (text ++ c ∷ []) cs (pos + 1))

word_body-Advances :
    (text rest : Bytes) (pos : ℕ)
    → Advances (rest, pos) ((word_body text rest pos).1, (word_body text rest pos).2)
unfolding word_body
word_body-Advances text [] pos = record { whole = refl; forward = omega arith }
word_body-Advances text (c ∷ cs) pos =
    ground (arith, word_body-Advances (text ++ c ∷ []) cs (pos + 1))

number_body-Advances :
    (float : Bool) (text rest : Bytes) (pos : ℕ)
    → Advances
        (rest, pos)
        ((number_body float text rest pos).1.1, (number_body float text rest pos).1.2)
unfolding number_body
number_body-Advances float text [] pos = record { whole = refl; forward = omega arith }
number_body-Advances float text (c ∷ []) pos = ground arith
number_body-Advances float text (c ∷ d ∷ cs) pos = ground (
  arith,
  number_body-Advances float (text ++ c ∷ []) (d ∷ cs) (pos + 1),
  number_body-Advances true (text ++ c ∷ []) (d ∷ cs) (pos + 1),
  number_body-Advances true (text ++ c ∷ d ∷ []) cs (pos + 2),
)

-- Nothing is lost, and at least one byte is read.
abbrev Moves : Place → Place → Type 0
Moves a b = Advances a b × (a.1 < b.1)

body_token-Moves :
    (kind : TokenKind) (e : SqlError) (c : ℕ) (cs : Bytes) (pos : ℕ) (b : Option Scanned)
    → AdvancesSome (cs, pos + 1) b
    → Moves
        (c ∷ cs, pos)
        (
          (body_token kind e pos (pos + length (c ∷ cs)) b).1,
          (body_token kind e pos (pos + length (c ∷ cs)) b).2,
        )
unfolding body_token
body_token-Moves kind e c cs pos none h = ground arith
body_token-Moves kind e c cs pos (some (text, rest, pos')) h = ground arith

number_body-Moves :
    (c : ℕ) (cs : Bytes) (pos : ℕ)
    → is_digit c ≡ true
    → Moves
        (c ∷ cs, pos)
        ((number_body false [] (c ∷ cs) pos).1.1, (number_body false [] (c ∷ cs) pos).1.2)
unfolding number_body
number_body-Moves c [] pos digit = rw (digit) (ground arith)
number_body-Moves c (d ∷ cs) pos digit =
    rw (digit) (ground (arith, number_body-Advances false (c ∷ []) (d ∷ cs) (pos + 1)))

word_body-Moves :
    (c : ℕ) (cs : Bytes) (pos : ℕ)
    → is_letter c ≡ true
    → Moves (c ∷ cs, pos) ((word_body [] (c ∷ cs) pos).1, (word_body [] (c ∷ cs) pos).2)
unfolding word_body
word_body-Moves c cs pos letter =
    rw (letter) (ground (arith, word_body-Advances (c ∷ []) cs (pos + 1)))

operator-Moves :
    (c : ℕ) (cs : Bytes) (pos : ℕ)
    → Moves (c ∷ cs, pos) ((operator c cs pos).1, (operator c cs pos).2)
unfolding operator
operator-Moves c [] pos = ground arith
operator-Moves c (d ∷ cs) pos = ground arith

symbol-Moves :
    (c : ℕ) (cs : Bytes) (pos : ℕ) → Moves (c ∷ cs, pos) ((symbol c cs pos).1, (symbol c cs pos).2)
unfolding symbol
symbol-Moves c cs pos = elim (Option-cases (punctuation c)) [
  | inl e ↦ rw (e, symbol) (operator-Moves c cs pos)
  | inr (kind, e) ↦ rw (e, symbol) (ground arith)
]

-- Either the source is spent and the token is the end, or at least one byte was read.
abbrev pub Consumes : Place → Scan → Type 0
Consumes a (r, rest, pos) =
    Advances a (rest, pos)
    × (((rest ≡ []) × (r ≡ parsed (record { kind = tok_eof; text = []; pos = pos }))) ⊎ (a.1 < pos))

Moves→Consumes : (a : Place) (s : Scan) → Moves a (s.1, s.2) → Consumes a s
Moves→Consumes a (r, rest, pos) (h, k) = (h, inr k)

number_token-Consumes :
    (a : Place) (start : ℕ) (n : Bool × Scanned)
    → Moves a (n.1.1, n.1.2)
    → Consumes a (number_token start n)
unfolding number_token
number_token-Consumes a start (float, (text, rest, pos)) (h, k) = (h, inr k)

word_token-Consumes :
    (a : Place) (start : ℕ) (w : Scanned) → Moves a (w.1, w.2) → Consumes a (word_token start w)
unfolding word_token
word_token-Consumes a start (text, rest, pos) (h, k) =
    elim (Option-cases (keyword (to_upper text))) [
      | inl e ↦ rw (e, word_token) (h, inr k)
      | inr (kind, e) ↦ rw (e, word_token) (h, inr k)
    ]

Advances→Consumes : (a b : Place) (s : Scan) → Advances a b → Consumes b s → Consumes a s
Advances→Consumes a b (r, rest, pos) h (k, inl e) = ground (arith)
Advances→Consumes a b (r, rest, pos) h (k, inr e) = ground (arith)

scan_token-Consumes : (rest : Bytes) (pos : ℕ) → Consumes (rest, pos) (scan_token rest pos)
unfolding scan_token
scan_token-Consumes [] pos = (record { whole = refl; forward = omega arith }, inl (refl, refl))
scan_token-Consumes (c ∷ cs) pos = elim (Bool-cases (c == 39)) [
  | inl quote ↦ rw quote (
      Moves→Consumes (c ∷ cs, pos) _
        (body_token-Moves tok_string _ c cs pos (string_body [] cs (pos + 1))
          (string_body-Advances [] cs (pos + 1))))
  | inr bare ↦ elim (Bool-cases (c == 34 || c == 96)) [
    | inl quote ↦
        rw (bare, quote)
          (Moves→Consumes (c ∷ cs, pos) _
            (body_token-Moves tok_ident _ c cs pos (ident_body c [] cs (pos + 1))
              (ident_body-Advances c [] cs (pos + 1))))
    | inr bare' ↦ elim (Bool-cases (is_digit c)) [
      | inl digit ↦
          rw (bare, bare', digit)
            (number_token-Consumes (c ∷ cs, pos) pos (number_body false [] (c ∷ cs) pos)
              (number_body-Moves c cs pos digit))
      | inr no_digit ↦ elim (Bool-cases (is_letter c)) [
        | inl letter ↦
            rw (bare, bare', no_digit, letter)
              (word_token-Consumes (c ∷ cs, pos) pos (word_body [] (c ∷ cs) pos)
                (word_body-Moves c cs pos letter))
        | inr no_letter ↦
            rw (bare, bare', no_digit, no_letter)
              (Moves→Consumes (c ∷ cs, pos) _ (symbol-Moves c cs pos))
      ]
    ]
  ]
]

-- A scan loses no byte and never goes back; it answers the end-of-source token with nothing left,
-- or it has read at least one byte, also where it fails.
pub scan-Consumes : (rest : Bytes) (pos : ℕ) → Consumes (rest, pos) (scan rest pos)
unfolding scan
scan-Consumes rest pos =
    Advances→Consumes (rest, pos) (skip outside rest pos) _ (skip-Advances outside rest pos)
      (scan_token-Consumes (skip outside rest pos).0 (skip outside rest pos).1)
