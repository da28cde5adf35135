-- ===== src/ScanSamples.antt =====
-- Runs of the column reader on written sections, and the theorems at concrete inputs.
use vexq.Storage.Bitmap.Bits.{bit_is_zero}
use vexq.Prelude.{
  codes, length, Bytes, ok, ℕ, ◌≡◌, refl, true, false, none, some, List, [], ◌∷◌, ◌++◌, arith,
}
use vexq.Storage.Bitmap.Laws.{null_at, Covers}
use vexq.Storage.Schema.{Field, ZoneMap, ColumnSectionMeta, RowGroupMeta, FileMeta}
use vexq.Storage.Blocks.{Floats, write_int64_blocks, no_stats}
use vexq.Storage.Blocks.ZoneMaps.{write_int64_blocks-Summary}
use vexq.Storage.Column.{ColumnReader, open_column, window}
use vexq.Storage.Column.Windows.{Reads, window-Reads}
use vexq.Exec.Scan.Cells.{cells, column_cells}
use vexq.Exec.Scan.Sections.{int64_section, column_cells-Written}

abbrev three_nulls : Bytes
three_nulls = 5 ∷ []

abbrev three_values : List ℕ
three_values = 7 ∷ 8 ∷ 9 ∷ []

three_nulls-Covers : Covers three_nulls 3
three_nulls-Covers = record { bytes = (omega arith, tt); enough = omega arith }

written_three :
    (section : Bytes) × (st : ZoneMap) × (write_int64_blocks three_nulls three_values []
      ≡ ok (section, st))
written_three =
    let (out, st, e, s) =
      write_int64_blocks-Summary three_nulls three_values [] three_nulls-Covers in
    (out, st, e)

abbrev no_floats : Floats
no_floats = record { float_add = λ a b. a; float_lt = λ a b. false }

abbrev three_entry : ColumnSectionMeta
three_entry = record {
  section_offset = 4;
  section_length = length written_three.0;
  stats = no_stats;
  dict_offset = 0;
  dict_length = 0;
}

abbrev three_group : RowGroupMeta
three_group = record { file_offset = 4; num_rows = 3; columns = three_entry ∷ [] }

abbrev three_field : Field
three_field = record { name = codes "n"; data_type = 1; encoding = 0; nullable = true }

abbrev three_meta : FileMeta
three_meta = record { fields = three_field ∷ []; row_groups = three_group ∷ [] }

column_cells-Written_example :
    (cr : ColumnReader) × (open_column
        (codes "VXQ1" ++ (written_three.0 ++ codes "rest"))
        three_meta
        0
        0
      ≡ ok cr)
    × (column_cells 4 1 cr ≡ some (cells (null_at three_nulls) 0 three_values))
column_cells-Written_example =
    column_cells-Written no_floats (codes "VXQ1") (codes "rest") three_meta 0 0
      (int64_section {st = written_three.1} written_three.2) three_nulls-Covers
      (omega arith, (omega arith, (omega arith, tt))) refl refl refl refl refl refl refl refl

-- The second row is NULL.
three_cells : cells (null_at three_nulls) 0 three_values ≡ some 7 ∷ none ∷ some 9 ∷ []
unfolding cells null_at bit_is_zero
three_cells = refl

abbrev ten_bytes : ColumnReader
ten_bytes = record {
  file = 0 ∷ 1 ∷ 2 ∷ 3 ∷ 4 ∷ 5 ∷ 6 ∷ 7 ∷ 8 ∷ 9 ∷ [];
  data_type = 1;
  section_offset = 2;
  dict_offset = 0;
  dict_length = 0;
  pos = 2;
  end = 9;
  rows_done = 0;
  total_rows = 3;
  win = some (3 ∷ 4 ∷ []);
  win_start = 3;
  dict = none;
}

-- A range that goes past the window is read from the file.
window-Reads_example : Reads ten_bytes 4 5 (window ten_bytes 4 5)
window-Reads_example =
    window-Reads ten_bytes 4 5 (omega arith, refl) (omega arith) (omega arith) (omega arith)
