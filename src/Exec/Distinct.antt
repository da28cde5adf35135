-- ===== src/Exec/Distinct.antt =====
-- exec/distinct.go: the rows whose key was not seen before. A column is its cells, one a row.
pub mod Keys
pub mod Fresh
use vexq.Prelude.{
  ltb, leb, ◌==◌, if◌then◌else◌, ltb→lt, lt→ltb, leb→le, ==_iff, tests, Bool-cases, Option-cases,
  codes, bytes_eq, bytes_eq→eq, bytes_eq_refl, bytes_eq_iff, length, get_elem?, set, length-append,
  length-set, get_elem?-set_self, get_elem?-set_ne, get_or, take, drop, replicate, take-append-drop,
  length-take, length-drop, length-replicate, length-map, append_cancel, take_append, All,
  All-append, drop_all, drop_some, take_all, take_some, map-drop, map-take, take_full, Bytes,
  IsByte, u16, u32, u64, ltb_i64, ltb_i32, Error, checksum, corrupt_footer, bad_magic,
  type_mismatch, column_complete, row_group_open, missing_columns, index_out_of_range,
  unexpected_eof, eof, Result, ok, err, panic, reject_if, Safe, Safe-bind, ℕ, zero, suc, ◌+◌, ◌-◌,
  ◌*◌, ◌/◌, ◌%◌, ◌^◌, ◌≤◌, ◌<◌, min, ◌≡◌, refl, sym, ap, ap₂, ◌∙◌, subst, fun_ext, ◌≢◌, ◌↔◌, ◌⊎◌,
  inl, inr, Bool, true, false, not, ◌&&◌, ◌||◌, Option, none, some, List, [], ◌∷◌, ◌++◌, map,
  append-nil, append_assoc, foldl, arith,
}
use vexq.Prelude.{◌>>=◌}
use vexq.Prelude.{Option, some, none, err, panic, List}
use vexq.Exec.Limit.{Batch, sequential}
use vexq.Prelude.{zero, suc, ◌+◌}
use vexq.Encoding.{to_le, append_uint32, append_uint64}
use vexq.Storage.Bitmap.{index}
use vexq.Exec.Limit.{Batch, Step, sequential}

-- What a vector holds in a row: a null, a string of a `StringVector`, or the 64 bits that
-- `extractInt64` gives of any other.
pub data Cell : Type 0 where
  null_cell : Cell
  text_cell : Bytes → Cell
  number_cell : ℕ → Cell

-- What one column adds to the key.
unfoldable pub append_cell : Bytes → Cell → Bytes
append_cell buf null_cell = buf ++ 0x00 ∷ 0xFF ∷ []
append_cell buf (text_cell s) = append_uint32 (buf ++ 0x02 ∷ []) (length s % u32) ++ s ++ 0xFF ∷ []
append_cell buf (number_cell v) = append_uint64 (buf ++ 0x01 ∷ []) v ++ 0xFF ∷ []

unfoldable pub key_of : Bytes → List Cell → Bytes
unfolding append_cell
key_of buf [] = buf
key_of buf (c ∷ cs) = key_of (append_cell buf c) cs

-- The cells of one row, which panics out of range.
unfoldable pub row_cells : List (List Cell) → ℕ → Result (List Cell)
unfolding index
row_cells [] i = ok []
row_cells (column ∷ columns) i = do c ← index column i; cs ← row_cells columns i; ok (c ∷ cs)

unfoldable pub build_key : List (List Cell) → ℕ → Result Bytes
unfolding row_cells key_of
build_key columns i = do cells ← row_cells columns i; ok (key_of [] cells)

unfoldable pub is_seen : Bytes → List Bytes → Bool
is_seen key [] = false
is_seen key (k ∷ seen) = if bytes_eq k key then true else is_seen key seen

-- The rows of `sel` with a new key, and the keys seen after them. An index is a uint16.
unfoldable pub select_new : List (List Cell) → List ℕ → List Bytes → Result (List ℕ × List Bytes)
unfolding build_key is_seen
select_new columns [] seen = ok ([], seen)
select_new columns (i ∷ sel) seen = do
  key ← build_key columns i
  let skipped = select_new columns sel seen
  let taken = (do
    (kept, after) ← select_new columns sel (key ∷ seen)
    ok ((i % 2 ^ 16) ∷ kept, after))
  if is_seen key seen then skipped else taken

-- The child's remaining results, and the keys seen so far.
pub record Distinct : Type 0 where
  pub child : List (Result (Batch (List (List Cell))))
  pub seen : List Bytes

-- `n` row numbers from `from` on.
row_numbers : ℕ → ℕ → List ℕ
row_numbers from zero = []
row_numbers from (suc n) = from ∷ row_numbers (from + 1) n

-- The rows that a batch selects.
batch_rows : Batch (List (List Cell)) → List ℕ
unfolding row_numbers
batch_rows b = elim b.sel_vec [ some s ↦ s | none ↦ row_numbers 0 b.rows ]

-- A batch without a new row is passed over.
emit_new :
    Batch (List (List Cell))
    → List ℕ
    → List (Result (Batch (List (List Cell))))
    → List Bytes
    → Result (Option (Batch (List (List Cell)))) × Distinct
    → Result (Option (Batch (List (List Cell)))) × Distinct
emit_new batch [] child seen more = more
emit_new batch (i ∷ sel) child seen more = (
  ok (some (record batch { sel_vec = some (i ∷ sel); rows = length (i ∷ sel) })),
  record { child = child; seen = seen },
)

-- The loop of `Next`, a round for each batch of the child.
unfoldable pub next_from :
    List (Result (Batch (List (List Cell))))
    → List Bytes
    → Result (Option (Batch (List (List Cell)))) × Distinct
unfolding select_new batch_rows emit_new
next_from [] seen = (ok none, record { child = []; seen = seen })
next_from (err e ∷ child) seen = (err e, record { child = child; seen = seen })
next_from (panic ∷ child) seen = (panic, record { child = child; seen = seen })
next_from (ok batch ∷ child) seen = elim (select_new batch.vectors (batch_rows batch) seen) [
  | err e ↦ (err e, record { child = child; seen = seen })
  | panic ↦ (panic, record { child = child; seen = seen })
  | ok (sel, after) ↦ emit_new batch sel child after (next_from child after)
]

unfoldable pub next : Distinct → Result (Option (Batch (List (List Cell)))) × Distinct
unfolding next_from
next d = next_from d.child d.seen
