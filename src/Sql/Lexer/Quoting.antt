-- ===== src/Sql/Lexer/Quoting.antt =====
-- sql/format.go, `StringLiteral.String`: what it prints is read back by the scanner.
use vexq.Prelude.{
  ◌==◌, if◌then◌else◌, ==_iff, Bool-cases, length, length-append, Bytes, ℕ, ◌+◌, ◌<◌, ◌≡◌, refl,
  sym, ap, ap₂, ◌∙◌, ◌≢◌, inl, inr, false, some, [], ◌∷◌, ◌++◌, append-nil, append_assoc, arith,
}
use vexq.Sql.Token.{tok_string}
use vexq.Sql.Lexer.{
  unterminated_string, parsed, string_body, scan_token, scan, skip, body_token, outside, is_space,
}

-- `strings.ReplaceAll(e.Value, "'", "''")`.
unfoldable pub double_quotes : Bytes → Bytes
double_quotes [] = []
double_quotes (c ∷ cs) = if c == 39 then 39 ∷ 39 ∷ double_quotes cs else c ∷ double_quotes cs

-- `StringLiteral.String`.
unfoldable pub quote_string : Bytes → Bytes
unfolding double_quotes
quote_string value = 39 ∷ double_quotes value ++ (39 ∷ [])

-- What follows a literal does not begin with a quote.
abbrev pub NoQuote : Bytes → Type 0
NoQuote [] = Unit
NoQuote (c ∷ cs) = c ≢ 39

string_body_close :
    (text rest : Bytes) (pos : ℕ)
    → NoQuote rest
    → string_body text (39 ∷ rest) pos ≡ some (text, rest, pos + 1)
unfolding string_body
string_body_close text [] pos h = refl
string_body_close text (c ∷ cs) pos h = ground arith

string_body_quote :
    (text cs : Bytes) (pos : ℕ)
    → string_body text (39 ∷ 39 ∷ cs) pos ≡ string_body (text ++ 39 ∷ []) cs (pos + 2)
unfolding string_body
string_body_quote text cs pos = refl

string_body_other :
    (text : Bytes) (c : ℕ) (tail : Bytes) (pos : ℕ)
    → (c == 39) ≡ false
    → 0 < length tail
    → string_body text (c ∷ tail) pos ≡ string_body (text ++ c ∷ []) tail (pos + 1)
unfolding string_body
string_body_other text c [] pos h k = elim k [ ]
string_body_other text c (d ∷ cs) pos h k = rw h

string_body-double_quotes :
    (value text rest : Bytes) (pos : ℕ)
    → NoQuote rest
    → string_body text (double_quotes value ++ 39 ∷ rest) pos
      ≡ some (text ++ value, rest, pos + length (double_quotes value) + 1)
unfolding double_quotes
string_body-double_quotes [] text rest pos h =
    string_body_close text rest pos h
    ∙ ap₂ (λ t p. some (t, rest, p)) (sym (append-nil text)) (omega arith)
string_body-double_quotes (c ∷ cs) text rest pos h = elim (Bool-cases (c == 39)) [
  | inl e ↦
      rw (e, double_quotes)
        (string_body_quote text _ pos
          ∙ string_body-double_quotes cs (text ++ 39 ∷ []) rest (pos + 2) h
          ∙ ap₂ (λ t p. some (t, rest, p))
              (append_assoc text (39 ∷ []) cs ∙ ap (λ d. text ++ d ∷ cs) (sym ((==_iff c 39).0 e)))
              (omega arith))
  | inr e ↦
      rw (e, double_quotes)
        (string_body_other text c _ pos e
            (omega (arith, length-append (double_quotes cs) (39 ∷ rest)))
          ∙ string_body-double_quotes cs (text ++ c ∷ []) rest (pos + 1) h
          ∙ ap₂ (λ t p. some (t, rest, p)) (append_assoc text (c ∷ []) cs) (omega arith))
]

skip_quote : (cs : Bytes) (pos : ℕ) → skip outside (39 ∷ cs) pos ≡ (39 ∷ cs, pos)
unfolding skip is_space
skip_quote [] pos = refl
skip_quote (c ∷ cs) pos = refl

scan_token_quote :
    (cs : Bytes) (pos : ℕ)
    → scan_token (39 ∷ cs) pos
      ≡ body_token tok_string
          (unterminated_string pos)
          pos
          (pos + length (39 ∷ cs))
          (string_body [] cs (pos + 1))
unfolding scan_token
scan_token_quote cs pos = refl

scan_quote :
    (cs : Bytes) (pos : ℕ)
    → scan (39 ∷ cs) pos
      ≡ body_token tok_string
          (unterminated_string pos)
          pos
          (pos + length (39 ∷ cs))
          (string_body [] cs (pos + 1))
unfolding scan
scan_quote cs pos = ap (λ p. scan_token p.0 p.1) (skip_quote cs pos) ∙ scan_token_quote cs pos

-- A string literal as the formatter prints it, followed by anything but a quote, is scanned as one
-- string token with the same value, and the scan ends right behind it.
pub scan-quote_string :
    (value rest : Bytes) (pos : ℕ)
    → NoQuote rest
    → scan (quote_string value ++ rest) pos ≡ (
      parsed (record { kind = tok_string; text = value; pos = pos }),
      rest,
      pos + length (quote_string value),
    )
unfolding quote_string scan
scan-quote_string value rest pos h =
    ap (λ cs. scan (39 ∷ cs) pos) (append_assoc (double_quotes value) (39 ∷ []) rest)
    ∙ scan_quote (double_quotes value ++ 39 ∷ rest) pos
    ∙ ap
        (body_token tok_string (unterminated_string pos) pos
          (pos + length (39 ∷ double_quotes value ++ 39 ∷ rest)))
        (string_body-double_quotes value [] rest (pos + 1) h)
    ∙ ap (λ p. (parsed (record { kind = tok_string; text = value; pos = pos }), rest, p))
        (omega (arith, length-append (double_quotes value) (39 ∷ [])))
