-- ===== src/Sql/Lexer/Peek.antt =====
-- What `Peek` and `Next` of sql/lexer.go promise each other, errors included.
use vexq.Prelude.{Bytes, ℕ, ◌<◌, ◌≡◌, refl, inl, inr, Option, none, some}
use vexq.Sql.Token.{Token}
use vexq.Sql.Lexer.{
  SqlError, parsed, failed, out_of_fuel, Lexer, Scan, scan, peek_scan, next_scan, peek_token,
  next_token,
}
use vexq.Sql.Lexer.Progress.{scan-Consumes, Consumes}

abbrev lexer_at : Bytes → ℕ → Option Token → Lexer
lexer_at rest pos o = record { rest = rest; pos = pos; peeked = o }

next_scan-peek_scan :
    (s : Scan) (t : Token)
    → (peek_scan s).0 ≡ parsed t
    → (next_token (peek_scan s).1 ≡ next_scan s) × ((next_scan s).0 ≡ parsed t)
unfolding peek_scan next_scan next_token
next_scan-peek_scan (parsed u, rest, pos) t e = (refl, e)
next_scan-peek_scan (failed x, rest, pos) t e = cc
next_scan-peek_scan (out_of_fuel, rest, pos) t e = cc

next_token-peek_at :
    (rest : Bytes) (pos : ℕ) (o : Option Token) (t : Token)
    → (peek_token (lexer_at rest pos o)).0 ≡ parsed t
    → (next_token (peek_token (lexer_at rest pos o)).1 ≡ next_token (lexer_at rest pos o))
      × ((next_token (lexer_at rest pos o)).0 ≡ parsed t)
unfolding peek_token next_token
next_token-peek_at rest pos (some u) t e = (refl, e)
next_token-peek_at rest pos none t e = next_scan-peek_scan (scan rest pos) t e

-- A token that Peek returned is what Next returns afterwards, with the state Next would have left
-- without the peek.
pub next_token-peek_token :
    (l : Lexer) (t : Token)
    → (peek_token l).0 ≡ parsed t
    → (next_token (peek_token l).1 ≡ next_token l) × ((next_token l).0 ≡ parsed t)
next_token-peek_token l t e = next_token-peek_at l.rest l.pos l.peeked t e

peek_scan_failed :
    (a : Bytes × ℕ) (s : Scan) (e : SqlError)
    → Consumes a s
    → (peek_scan s).0 ≡ failed e
    → (peek_scan s ≡ next_scan s) × (a.1 < (peek_scan s).1.pos)
unfolding peek_scan next_scan
peek_scan_failed a (parsed u, rest, pos) e h p = cc
peek_scan_failed a (failed x, rest, pos) e (h, inl (nil, end)) p = cc
peek_scan_failed a (failed x, rest, pos) e (h, inr k) p = (refl, k)
peek_scan_failed a (out_of_fuel, rest, pos) e h p = cc

peek_failed_at :
    (rest : Bytes) (pos : ℕ) (o : Option Token) (e : SqlError)
    → (peek_token (lexer_at rest pos o)).0 ≡ failed e
    → (peek_token (lexer_at rest pos o) ≡ next_token (lexer_at rest pos o))
      × (pos < (peek_token (lexer_at rest pos o)).1.pos)
unfolding peek_token next_token
peek_failed_at rest pos (some u) e p = cc
peek_failed_at rest pos none e p =
    peek_scan_failed (rest, pos) (scan rest pos) e (scan-Consumes rest pos) p

-- A Peek that fails consumes: it answers the same error and the same state as Next, and the
-- position has moved by at least one byte.
pub peek_token_failed :
    (l : Lexer) (e : SqlError)
    → (peek_token l).0 ≡ failed e
    → (peek_token l ≡ next_token l) × (l.pos < (peek_token l).1.pos)
peek_token_failed l e p = peek_failed_at l.rest l.pos l.peeked e p
