-- ===== src/Exec/TableScan.antt =====
-- exec/scan.go: `NewTableScanRange`, `SetOutputNames`, `Next` and `Reset` over the columns of a scan.
use vexq.Prelude.{
  ◌>>=◌, leb, ◌==◌, if◌then◌else◌, length, get_elem?, Bytes, Error, missing_columns,
  index_out_of_range, Result, ok, err, panic, ℕ, zero, suc, ◌+◌, ◌-◌, Bool, true, Option, none,
  some, List, [], ◌∷◌,
}
use vexq.Storage.Schema.{Field, RowGroupMeta, FileMeta, index_of}
use vexq.Storage.Column.{ColumnReader, open_column}
use vexq.Exec.Limit.{Batch}
use vexq.Exec.Predicates.{Vector}
use vexq.Exec.Scan.{column_block}

-- `crs` is nothing between row groups; a file's bytes and its metadata stand for the reader.
pub record TableScan : Type 0 where
  pub file : Bytes
  pub file_meta : FileMeta
  pub fields : List Field
  pub col_map : List ℕ
  pub zone_pred : Option (RowGroupMeta → Bool)
  pub rg_start : ℕ
  pub rg_end : ℕ
  pub rg_idx : ℕ
  pub crs : Option (List ColumnReader)

-- The columns of the given names, in their order.
project_names : List Field → List Bytes → Result (List Field × List ℕ)
project_names source [] = ok ([], [])
project_names source (name ∷ names) = elim (index_of source name) [
  | none ↦ err index_out_of_range
  | some i ↦ (do
    field ← index_field (get_elem? source i)
    (fields, cols) ← project_names source names
    ok (field ∷ fields, i ∷ cols))
]
  where
    index_field : Option Field → Result Field
    index_field none = panic
    index_field (some f) = ok f

count_from : ℕ → List Field → List ℕ
count_from i [] = []
count_from i (f ∷ fields) = i ∷ count_from (i + 1) fields

projection : List Field → List Bytes → Result (List Field × List ℕ)
unfolding project_names count_from
projection source [] = ok (source, count_from 0 source)
projection source (name ∷ names) = project_names source (name ∷ names)

unfoldable pub new_table_scan_range :
    Bytes → FileMeta → List Bytes → Option (RowGroupMeta → Bool) → ℕ → ℕ → Result TableScan
unfolding projection
new_table_scan_range file meta names zone_pred rg_start rg_end = do
  (fields, cols) ← projection meta.fields names
  ok (record {
    file = file;
    file_meta = meta;
    fields = fields;
    col_map = cols;
    zone_pred = zone_pred;
    rg_start = rg_start;
    rg_end = rg_end;
    rg_idx = rg_start;
    crs = none;
  })

unfoldable pub new_table_scan :
    Bytes → FileMeta → List Bytes → Option (RowGroupMeta → Bool) → Result TableScan
unfolding new_table_scan_range
new_table_scan file meta names zone_pred =
    new_table_scan_range file meta names zone_pred 0 (length meta.row_groups)

rename : List Field → List Bytes → List Field
rename [] names = []
rename (f ∷ fields) [] = f ∷ fields
rename (f ∷ fields) (name ∷ names) = record f { name = name } ∷ rename fields names

unfoldable pub set_output_names : TableScan → List Bytes → Result TableScan
unfolding rename
set_output_names s names =
    if length names == length s.fields
    then ok (record s { fields = rename s.fields names })
    else err missing_columns

-- The readers of a row group's columns.
unfoldable pub open_row_group : Bytes → FileMeta → ℕ → List ℕ → Result (List ColumnReader)
unfolding open_column
open_row_group file meta rg [] = ok []
open_row_group file meta rg (col ∷ cols) = do
  cr ← open_column file meta rg col
  crs ← open_row_group file meta rg cols
  ok (cr ∷ crs)

abbrev pub Columns : Type 0
Columns = Result (Option (List Vector × ℕ)) × List ColumnReader

-- A column's block before those of the columns behind it, which are not read where it gives none.
beside : Result (Option (Vector × ℕ)) × ColumnReader → Columns → List ColumnReader → Columns
beside (ok none, cr) later crs = (ok none, cr ∷ crs)
beside (err e, cr) later crs = (err e, cr ∷ crs)
beside (panic, cr) later crs = (panic, cr ∷ crs)
beside (ok (some (v, rows)), cr) (ok (some (vs, n)), crs') crs =
    (ok (some (v ∷ vs, rows)), cr ∷ crs')
beside (ok (some (v, rows)), cr) (ok none, crs') crs = (ok none, cr ∷ crs')
beside (ok (some (v, rows)), cr) (err e, crs') crs = (err e, cr ∷ crs')
beside (ok (some (v, rows)), cr) (panic, crs') crs = (panic, cr ∷ crs')

column_blocks : List Field → List ColumnReader → Columns
unfolding beside column_block
column_blocks fields [] = (ok (some ([], 0)), [])
column_blocks [] (cr ∷ crs) = (panic, cr ∷ crs)
column_blocks (f ∷ fields) (cr ∷ crs) =
    beside (column_block f.data_type cr) (column_blocks fields crs) crs

unfoldable pub read_block : List Field → List ColumnReader → Columns
unfolding column_blocks
read_block fields [] = (ok none, [])
read_block fields (cr ∷ crs) = column_blocks fields (cr ∷ crs)

abbrev pub Out : Type 0
Out = Result (Option (Batch (List Vector))) × TableScan

close_row_group : TableScan → TableScan
close_row_group s = record s { crs = none }

-- A block read: a batch, the next row group, or an error.
after_read : TableScan → Out → Columns → Out
after_read s later (ok none, crs) = later
after_read s later (ok (some (vs, rows)), crs) =
    (ok (some (record { vectors = vs; sel_vec = none; rows = rows })), record s { crs = some crs })
after_read s later (err e, crs) = (err e, record s { crs = some crs })
after_read s later (panic, crs) = (panic, record s { crs = some crs })

reading : TableScan → Out → Result (List ColumnReader) → Out
unfolding after_read read_block
reading s later (ok crs) = after_read s later (read_block s.fields crs)
reading s later (err e) = (err e, s)
reading s later panic = (panic, s)

-- `zonePred(rg)`, where there is one.
may_match : Option (RowGroupMeta → Bool) → RowGroupMeta → Bool
may_match none rg = true
may_match (some p) rg = p rg

at_row_group : TableScan → Out → Option RowGroupMeta → Out
unfolding may_match reading open_row_group
at_row_group s later none = (panic, s)
at_row_group s later (some rg) =
    if may_match s.zone_pred rg
    then reading s later (open_row_group s.file s.file_meta s.rg_idx s.col_map)
    else later

round : TableScan → Out → Option (List ColumnReader) → Out
unfolding at_row_group reading
round s later (some crs) = reading s later (ok crs)
round s later none =
    if leb s.rg_end s.rg_idx
    then (ok none, s)
    else at_row_group s later (get_elem? s.file_meta.row_groups s.rg_idx)

-- A round that yields no batch moves to the next row group, so the fuel is the row groups left.
scan_loop : Option Error → ℕ → TableScan → Out
unfolding round close_row_group
scan_loop ctx_err zero s = (ok none, s)
scan_loop ctx_err (suc left) s =
    let later = scan_loop ctx_err left (record (close_row_group s) { rg_idx = s.rg_idx + 1 }) in
    elim ctx_err [ some e ↦ (err e, s) | none ↦ round s later s.crs ]

-- `ctx_err` is what `ctx.Err()` answers.
unfoldable pub scan_next : Option Error → TableScan → Out
unfolding scan_loop
scan_next ctx_err s = scan_loop ctx_err (suc (s.rg_end - s.rg_idx)) s

unfoldable pub reset : TableScan → ℕ → ℕ → TableScan
unfolding close_row_group
reset s rg_start rg_end = record (close_row_group s) {
  rg_start = rg_start;
  rg_end = rg_end;
  rg_idx = rg_start;
}
