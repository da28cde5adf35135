-- ===== src/Exec/Scan.antt =====
-- exec/scan.go (`TableScan`): the batches of a file's row groups, but for those that the zone maps rule
-- out.
pub mod Blocks
pub mod Steps
pub mod Cells
pub mod RoundTrip
pub mod Sections
use Prim.Native.Nat.{zero}
use vexq.Prelude.{
  [], ◌>>=◌, ◌==◌, if◌then◌else◌, codes, replicate, Bytes, Error, eof, unsupported_type, Result, ok,
  err, panic, ℕ, suc, ◌+◌, ◌*◌, ◌/◌, Bool, true, false, Option, none, some, List, ◌∷◌,
}
use vexq.Encoding.{read_le}
use vexq.Storage.Bitmap.{index}
use vexq.Storage.Rle.{decode_rle_bool}
use vexq.Storage.Dict.{Dictionary, get}
use vexq.Storage.Schema.{type_int64, type_float64, type_date, type_bool, type_string}
use vexq.Storage.Column.{ColumnReader, Block, slice_to, next_block, dictionary}
use vexq.Exec.Vector.{BoolVector, copy_bytes, set_value}
use vexq.Exec.Predicates.{
  Vector, int64_vector, float64_vector, date_vector, string_vector, bool_vector,
}

-- The next words of `k` bytes; a payload that is too short panics.
unfoldable pub read_words : ℕ → ℕ → Bytes → Result (List ℕ)
read_words k zero p = ok []
read_words k (suc rows) p = do (v, rest) ← read_le k p; vs ← read_words k rows rest; ok (v ∷ vs)

-- `payload[:rows*k]`, and its words.
unfoldable pub payload_words : ℕ → ℕ → Bytes → Result (List ℕ)
unfolding slice_to read_words
payload_words k rows payload = do p ← slice_to payload (rows * k); read_words k rows p

-- A null buffer for the rows, with the block's bitmap copied into it.
unfoldable pub copy_nulls : ℕ → Bytes → Bytes
unfolding copy_bytes
copy_nulls rows nulls = copy_bytes (replicate ((rows + 7) / 8) 0) nulls

set_values : ℕ → List Bool → BoolVector → Result BoolVector
set_values i [] bv = ok bv
set_values i (v ∷ vals) bv = do bv ← set_value bv i v; set_values (i + 1) vals bv

bool_payload : ℕ → Bytes → Result Vector
unfolding set_values copy_nulls
bool_payload rows payload = do
  (vals, nulls, total) ← decode_rle_bool payload
  let fresh : BoolVector = record {
    bits = replicate ((rows + 7) / 8) 0;
    null_bitmap = copy_nulls rows nulls;
    rows = rows;
  }
  bv ← set_values 0 vals fresh
  ok (bool_vector bv)

unfoldable pub code_string : Dictionary → List ℕ → ℕ → Result Bytes
code_string dict codes i = do code ← index codes i; (s, memo) ← get dict code; ok s

string_payload : ℕ → Bytes → Bytes → Result Dictionary → Result Vector
unfolding read_words code_string copy_nulls
string_payload rows nulls payload loaded = do
  codes ← read_words 4 rows payload
  dict ← loaded
  ok (string_vector (code_string dict codes) rows (copy_nulls rows nulls))

unfoldable pub word_payload : (List ℕ → Bytes → Vector) → ℕ → Block → Result Vector
unfolding payload_words copy_nulls
word_payload vector k (nulls, payload, rows) = do
  vals ← payload_words k rows payload
  ok (vector vals (copy_nulls rows nulls))

-- A block as a vector of the column's type, and the reader, whose dictionary may be loaded now.
unfoldable pub payload_to_vector : ℕ → Block → ColumnReader → Result Vector × ColumnReader
unfolding word_payload bool_payload string_payload
payload_to_vector t (nulls, payload, rows) cr =
    let strings = string_payload rows nulls payload in
    let (loaded, cr') = dictionary cr in
    if t == type_int64
    then (word_payload int64_vector 8 (nulls, payload, rows), cr)
    else if t == type_float64
    then (word_payload float64_vector 8 (nulls, payload, rows), cr)
    else if t == type_date
    then (word_payload date_vector 4 (nulls, payload, rows), cr)
    else if t == type_bool
    then (bool_payload rows payload, cr)
    else if t == type_string
    then (strings loaded, cr')
    else (err unsupported_type, cr)

-- What a column gives for a block: a vector with the block's rows, the end of the section, or an error.
abbrev pub Read : Type 0
Read = Result (Option (Vector × ℕ)) × ColumnReader

unfoldable pub decoded : ℕ → Result Vector × ColumnReader → Read
decoded rows (ok v, cr) = (ok (some (v, rows)), cr)
decoded rows (err e, cr) = (err e, cr)
decoded rows (panic, cr) = (panic, cr)

is_eof : Error → Bool
is_eof eof = true
is_eof _ = false

unfoldable pub from_block : ℕ → Result Block × ColumnReader → Read
unfolding decoded payload_to_vector is_eof
from_block t (ok (nulls, payload, rows), cr) =
    decoded rows (payload_to_vector t (nulls, payload, rows) cr)
from_block t (err e, cr) = (if is_eof e then ok none else err e, cr)
from_block t (panic, cr) = (panic, cr)

unfoldable pub column_block : ℕ → ColumnReader → Read
unfolding from_block
column_block t cr = from_block t (next_block cr)
