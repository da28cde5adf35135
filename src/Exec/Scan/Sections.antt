-- ===== src/Exec/Scan/Sections.antt =====
-- A section of the writer in a file, opened by `OpenColumn` and read to its end.
use vexq.Prelude.{none}
use vexq.Storage.Schema.{value_size}
use vexq.Prelude.{
  length, get_elem?, length-append, All, Bytes, ok, ℕ, suc, ◌+◌, ◌-◌, ◌^◌, ◌<◌, ◌≡◌, refl, ap, ◌∙◌,
  subst, false, none, some, List, [], ◌++◌, arith,
}
use vexq.Storage.Bitmap.Laws.{null_at, Covers}
use vexq.Storage.Schema.{
  Field, ZoneMap, ColumnSectionMeta, RowGroupMeta, FileMeta, type_int64, type_float64, type_date,
}
use vexq.Storage.Blocks.{
  Floats, write_int64_blocks, write_date_blocks, write_float64_blocks, note_int64, note_date,
  note_float64, count_null, no_stats,
}
use vexq.Storage.Column.{ColumnReader, open_column}
use vexq.Exec.Scan.Cells.{
  cells, column_cells, int64-IsWordType, float64-IsWordType, date-IsWordType,
}
use vexq.Exec.Scan.RoundTrip.{GivesBack, write_blocks-GivesBack}

-- A section of INT64, DATE or FLOAT64 values, as the writer makes it.
pub data Written (fl : Floats) : ℕ → ℕ → Bytes → List ℕ → Bytes → Type 0 where
  int64_section :
      {nulls : Bytes} {values : List ℕ} {section : Bytes} {st : ZoneMap}
      → write_int64_blocks nulls values [] ≡ ok (section, st)
      → Written fl type_int64 8 nulls values section
  date_section :
      {nulls : Bytes} {values : List ℕ} {section : Bytes} {st : ZoneMap}
      → write_date_blocks nulls values [] ≡ ok (section, st)
      → Written fl type_date 4 nulls values section
  float64_section :
      {nulls : Bytes} {values : List ℕ} {section : Bytes} {st : ZoneMap}
      → write_float64_blocks fl nulls values [] ≡ ok (section, st)
      → Written fl type_float64 8 nulls values section

Written-size :
    (fl : Floats) {t k : ℕ} {nulls : Bytes} {values : List ℕ} {section : Bytes}
    → Written fl t k nulls values section
    → value_size t ≡ k
unfolding value_size
Written-size fl (int64_section e) = refl
Written-size fl (date_section e) = refl
Written-size fl (float64_section e) = refl

Written-GivesBack :
    (fl : Floats) {t k : ℕ} {nulls : Bytes} {values : List ℕ} {section : Bytes}
    → Written fl t k nulls values section
    → Covers nulls (length values)
    → All (λ v. v < 256 ^ k) values
    → GivesBack t k section (cells (null_at nulls) 0 values) (length values)
unfolding write_int64_blocks write_date_blocks write_float64_blocks
Written-GivesBack fl (int64_section {nulls} {values} {section} e) c fit =
    let (more, st, q, back) =
      write_blocks-GivesBack int64-IsWordType note_int64 count_null nulls (length values)
        (length values) 0 values [] no_stats c (omega arith) (omega arith) fit in
    let same : more ≡ section = cc (q, e) in
    subst (λ s. GivesBack type_int64 8 s (cells (null_at nulls) 0 values) (length values)) same back
Written-GivesBack fl (date_section {nulls} {values} {section} e) c fit =
    let (more, st, q, back) =
      write_blocks-GivesBack date-IsWordType note_date count_null nulls (length values)
        (length values) 0 values [] no_stats c (omega arith) (omega arith) fit in
    let same : more ≡ section = cc (q, e) in
    subst (λ s. GivesBack type_date 4 s (cells (null_at nulls) 0 values) (length values)) same back
Written-GivesBack fl (float64_section {nulls} {values} {section} e) c fit =
    let (more, st, q, back) =
      write_blocks-GivesBack float64-IsWordType (note_float64 fl)
        (λ st. record st { nulls = st.nulls + 1 }) nulls (length values) (length values) 0 values []
        (record { nulls = 0; sum_f = 0; min_f = 0; max_f = 0; has = false }) c (omega arith)
        (omega arith) fit in
    let same : more ≡ section = cc (rw q at e) in
    subst (λ s. GivesBack type_float64 8 s (cells (null_at nulls) 0 values) (length values)) same
      back

-- A file with a section of INT64, DATE or FLOAT64 values that the writer made: a reader opened on
-- the column answers blocks without an error up to the end, and their vectors hold the written
-- cells, row by row, NULL where the written bitmap says so. Conditions: the metadata gives the
-- section's place, length, type and rows and no dictionary, the bitmap covers the rows, and each
-- value fits its width.
pub column_cells-Written :
    (fl : Floats) {t k : ℕ} {nulls : Bytes} {values : List ℕ} {section : Bytes}
    (before after : Bytes) (meta : FileMeta) (rg col : ℕ) {group : RowGroupMeta} {field : Field}
    {entry : ColumnSectionMeta}
    → Written fl t k nulls values section
    → Covers nulls (length values)
    → All (λ v. v < 256 ^ k) values
    → get_elem? meta.row_groups rg ≡ some group
    → get_elem? meta.fields col ≡ some field
    → get_elem? group.columns col ≡ some entry
    → field.data_type ≡ t
    → group.num_rows ≡ length values
    → entry.section_offset ≡ length before
    → entry.section_length ≡ length section
    → entry.dict_length ≡ 0
    → (cr : ColumnReader) × (open_column (before ++ (section ++ after)) meta rg col ≡ ok cr)
      × (column_cells (suc (length values)) t cr ≡ some (cells (null_at nulls) 0 values))
unfolding open_column
column_cells-Written fl {t} {k} {nulls} {values} {section} before after meta rg col {group} {field}
      {entry} w c fit e1 e2 e3 ty rows off len dict =
    let cr : ColumnReader = record {
      file = before ++ (section ++ after);
      data_type = field.data_type;
      section_offset = entry.section_offset;
      dict_offset = entry.dict_offset;
      dict_length = entry.dict_length;
      pos = entry.section_offset;
      end = entry.section_offset + entry.section_length - entry.dict_length;
      rows_done = 0;
      total_rows = group.num_rows;
      win = none;
      win_start = 0;
      dict = none;
    } in
    (
      cr,
      rw (open_column, e1, e2, e3) refl,
      Written-GivesBack fl w c fit cr before after (suc (length values)) ty
          (record {
            place = off;
            buffered = tt;
            low = omega arith;
            fits = omega (arith, off, len, dict);
            inside = omega (
              arith,
              off,
              len,
              dict,
              length-append before (section ++ after),
              length-append section after,
            );
            size = ap value_size ty ∙ Written-size fl w;
          })
          refl (omega (arith, rows)) (omega arith),
    )
