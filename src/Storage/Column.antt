-- ===== src/Storage/Column.antt =====
-- storage/rowgroup.go (`ColumnReader`) and storage/reader.go (`OpenColumn`): the blocks of a column
-- section, read through a window on the file.
pub mod Windows
use vexq.Prelude.{
  [], ◌>>=◌, ltb, leb, ◌==◌, if◌then◌else◌, length, get_elem?, take, drop, Bytes, checksum,
  corrupt_footer, index_out_of_range, unexpected_eof, eof, unsupported_type, Result, ok, err, panic,
  ℕ, ◌+◌, ◌-◌, ◌*◌, ◌/◌, ◌^◌, min, not, ◌&&◌, ◌||◌, Option, none, some,
}
use vexq.Encoding.{verify_trailing, read_uint32}
use vexq.Storage.Schema.{
  Field, ColumnSectionMeta, RowGroupMeta, FileMeta, block_rows, null_bitmap_bytes, value_size,
  type_bool, type_string,
}
use vexq.Storage.Footer.{read_at}
use vexq.Storage.Dict.{Dictionary, unmarshal_dictionary}

abbrev pub max_prefetch_bytes : ℕ
max_prefetch_bytes = 4 * 2 ^ 20

-- The file of the reader, the column's type and section, and what is read so far. `win` is the window,
-- which holds the bytes of the file from `win_start` on; `dict` is what the first call of `Dictionary`
-- gave.
pub record ColumnReader : Type 0 where
  pub file : Bytes
  pub data_type : ℕ
  pub section_offset : ℕ
  pub dict_offset : ℕ
  pub dict_length : ℕ
  pub pos : ℕ
  pub end : ℕ
  pub rows_done : ℕ
  pub total_rows : ℕ
  pub win : Option Bytes
  pub win_start : ℕ
  pub dict : Option (Result Dictionary)

abbrev pub Step {ℓ} : Type ℓ → Type ℓ
Step A = Result A × ColumnReader

-- Go's `b[:k]` and `b[k:]`.
unfoldable pub slice_to : Bytes → ℕ → Result Bytes
slice_to b k = if ltb (length b) k then panic else ok (take k b)

unfoldable pub slice_from : Bytes → ℕ → Result Bytes
slice_from b k = if ltb (length b) k then panic else ok (drop k b)

new_window : ColumnReader → ℕ → ℕ → Result Bytes → Step Bytes
new_window cr off n (ok buf) = (ok (take n buf), record cr { win = some buf; win_start = off })
new_window cr off n (err e) = (err e, record cr { win = none; win_start = 0 })
new_window cr off n panic = (panic, record cr { win = none; win_start = 0 })

-- The window from `off` on, as large as a prefetch may be, but for a larger block.
refill : ColumnReader → ℕ → ℕ → Step Bytes
unfolding new_window
refill cr off n =
    let want = min (cr.end - off) max_prefetch_bytes in
    let want = if ltb want n then n else want in new_window cr off n (read_at cr.file off want)

from_window : ColumnReader → ℕ → ℕ → Option Bytes → Step Bytes
unfolding refill
from_window cr off n none = refill cr off n
from_window cr off n (some w) =
    if leb cr.win_start off && leb (off - cr.win_start + n) (length w)
    then (ok (take n (drop (off - cr.win_start) w)), cr)
    else refill cr off n

unfoldable pub window : ColumnReader → ℕ → ℕ → Step Bytes
unfolding from_window
window cr off n =
    if ltb off cr.section_offset || ltb cr.end (off + n)
    then (err unexpected_eof, cr)
    else from_window cr off n cr.win

-- A block: its null bitmap, its payload and its rows.
abbrev pub Block : Type 0
Block = Bytes × Bytes × ℕ

unfoldable pub fixed_parts : ℕ → Result Bytes → Result Block
unfolding slice_to slice_from
fixed_parts rows (ok payload) = do
  nulls ← slice_to payload ((rows + 7) / 8)
  values ← slice_from payload null_bitmap_bytes
  ok (nulls, values, rows)
fixed_parts rows (err e) = err checksum
fixed_parts rows panic = panic

unfoldable pub after_fixed : ℕ → ℕ → Step Bytes → Step Block
unfolding fixed_parts
after_fixed rows size (ok buf, cr) =
    (fixed_parts rows (verify_trailing buf), record cr { pos = cr.pos + size })
after_fixed rows size (err e, cr) = (err e, cr)
after_fixed rows size (panic, cr) = (panic, cr)

unfoldable pub next_fixed_block : ℕ → ColumnReader → Step Block
unfolding after_fixed window
next_fixed_block rows cr =
    let size = null_bitmap_bytes + rows * value_size cr.data_type + 4 in
    after_fixed rows size (window cr cr.pos size)

after_bool : ℕ → ℕ → Step Bytes → Step Block
after_bool rows size (ok buf, cr) = (ok ([], buf, rows), record cr { pos = cr.pos + size })
after_bool rows size (err e, cr) = (err e, cr)
after_bool rows size (panic, cr) = (panic, cr)

-- The run count is known, and the whole block is read.
bool_body : ℕ → ColumnReader → Result (ℕ × Bytes) → Step Block
unfolding after_bool window
bool_body rows cr (ok (run_count, rest)) =
    let size = 4 + run_count * 5 + 4 in
    if ltb rows run_count
    then (err corrupt_footer, cr)
    else after_bool rows size (window cr cr.pos size)
bool_body rows cr (err e) = (err e, cr)
bool_body rows cr panic = (panic, cr)

bool_header : ℕ → Step Bytes → Step Block
unfolding bool_body
bool_header rows (ok header, cr) = bool_body rows cr (read_uint32 header)
bool_header rows (err e, cr) = (err e, cr)
bool_header rows (panic, cr) = (panic, cr)

unfoldable pub next_bool_block : ℕ → ColumnReader → Step Block
unfolding bool_header window
next_bool_block rows cr = bool_header rows (window cr cr.pos 4)

-- `NextBlock`; the block's rows count as read whatever comes.
unfoldable pub next_block : ColumnReader → Step Block
unfolding next_fixed_block next_bool_block
next_block cr =
    if leb cr.total_rows cr.rows_done
    then (err eof, cr)
    else let rows = min (cr.total_rows - cr.rows_done) block_rows in
      let cr = record cr { rows_done = cr.rows_done + rows } in
      if cr.data_type == type_bool then next_bool_block rows cr else next_fixed_block rows cr

load_dictionary : ColumnReader → Result Dictionary
load_dictionary cr = do
  buf ← read_at cr.file (cr.section_offset + cr.dict_offset) cr.dict_length
  unmarshal_dictionary buf

unfoldable pub dictionary : ColumnReader → Step Dictionary
unfolding load_dictionary
dictionary cr =
    if not (cr.data_type == type_string) then (err unsupported_type, cr) else elim cr.dict [
      | none ↦ (load_dictionary cr, record cr { dict = some (load_dictionary cr) })
      | some d ↦ (d, cr)
    ]

unfoldable pub close : ColumnReader → ColumnReader
close cr = record cr { win = none; win_start = 0 }

new_reader : Bytes → Field → RowGroupMeta → Option ColumnSectionMeta → Result ColumnReader
new_reader file field rg none = panic
new_reader file field rg (some col) = ok (record {
  file = file;
  data_type = field.data_type;
  section_offset = col.section_offset;
  dict_offset = col.dict_offset;
  dict_length = col.dict_length;
  pos = col.section_offset;
  end = col.section_offset + col.section_length - col.dict_length;
  rows_done = 0;
  total_rows = rg.num_rows;
  win = none;
  win_start = 0;
  dict = none;
})

-- `Reader.OpenColumn` on the file that holds `meta`.
unfoldable pub open_column : Bytes → FileMeta → ℕ → ℕ → Result ColumnReader
unfolding new_reader
open_column file meta rg col = elim (get_elem? meta.row_groups rg) [
  | none ↦ err index_out_of_range
  | some group ↦ elim (get_elem? meta.fields col) [
    | none ↦ err index_out_of_range
    | some field ↦ new_reader file field group (get_elem? group.columns col)
  ]
]
