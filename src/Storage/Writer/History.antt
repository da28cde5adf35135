-- ===== src/Storage/Writer/History.antt =====
-- The life of a writer as steps, and the file at its end.
use vexq.Storage.Footer.{read_footer}
use vexq.Storage.Writer.Sections.{AreFloats}
use vexq.Storage.Footer.Entries.{FieldFits, ColumnFits}
use vexq.Storage.Schema.{Field, ColumnSectionMeta, RowGroupMeta}
use vexq.Storage.Blocks.{Floats}
use vexq.Storage.Writer.{
  meta_of, marshal_footer, new_writer, end_row_group, must_write, Values, append_column,
  begin_row_group, finish, Writer,
}
use vexq.Prelude.{
  length, length-append, take, take_append, All, Bytes, u32, u64, Result, ok, Safe, ℕ, ◌^◌, ◌≤◌,
  ◌<◌, ◌≡◌, refl, sym, ap, ◌∙◌, subst, false, Option, List, [], ◌++◌, append-nil, append_assoc,
  arith,
}
use vexq.Storage.Writer.Invariant.{
  Follows, end_row_group-Safe, new_writer-IsValid, append_column-Safe, begin_row_group-Safe,
  Acceptable, All-imp, RowGroupIn, ColumnIn, IsValid,
}
use vexq.Storage.Footer.RoundTrip.{read_footer-marshal_footer, MetaFits, RowGroupFits}

-- A call of the writer that succeeds.
pub data Step (fl : Floats) : Writer → Writer → Type 0 where
  began : {w w' : Writer} (n : ℕ) → begin_row_group w n ≡ ok w' → Step fl w w'
  appended :
      {w w' : Writer} (idx : ℕ) (nulls : Option Bytes) (values : Values)
      → append_column fl w false idx nulls values ≡ ok w'
      → Step fl w w'
  ended : {w w' : Writer} → end_row_group w ≡ ok w' → Step fl w w'

pub data Reach (fl : Floats) (w : Writer) : Writer → Type 0 where
  here : Reach fl w w
  next : {u v : Writer} → Reach fl w u → Step fl u v → Reach fl w v

-- What the writer does not check of an argument: a row group has fewer than 2^32 rows, and a column is
-- `Acceptable`.
abbrev pub IsFit : (fl : Floats) {w w' : Writer} → Step fl w w' → Type 0
IsFit fl (began n e) = n < u32
IsFit fl {w} (appended idx nulls values e) = Acceptable w nulls values
IsFit fl (ended e) = Unit

abbrev pub AreFit : (fl : Floats) (w : Writer) {w' : Writer} → Reach fl w w' → Type 0
AreFit fl w here = Unit
AreFit fl w (next r st) = AreFit fl w r × IsFit fl st

Safe-ok {ℓ} : {A : Type ℓ} (P : A → Type 0) (r : Result A) (a : A) → Safe P r → r ≡ ok a → P a
Safe-ok P r a h e = subst (Safe P) e h

-- A successful step with fit arguments leads to a valid writer that extends the file.
pub Step-Follows :
    (fl : Floats)
    → AreFloats fl
    → {w w' : Writer} (st : Step fl w w') → IsFit fl st
    → IsValid w
    → Follows w w'
Step-Follows fl a {w} {w'} (began n e) h v = Safe-ok _ _ w' (begin_row_group-Safe w n v h) e
Step-Follows fl a {w} {w'} (appended idx nulls values e) q v =
    Safe-ok _ _ w' (append_column-Safe fl w false idx nulls values a v q) e
Step-Follows fl a {w} {w'} (ended e) q v = Safe-ok _ _ w' (end_row_group-Safe w v) e

prefix_trans :
    (a b c : Bytes)
    → (more : Bytes) × (b ≡ a ++ more)
    → (more : Bytes) × (c ≡ b ++ more)
    → (more : Bytes) × (c ≡ a ++ more)
prefix_trans a b c (m, e) (m', e') = (m ++ m', e' ∙ ap (λ x. x ++ m') e ∙ append_assoc a m m')

-- Any sequence of successful calls from a valid writer leads to a valid one of the same schema,
-- whose file extends the former: the offset is the end of the file, the file starts with the
-- magic, and every section lies within it and fits the footer. Conditions, of which the writer
-- checks none: every row group begun has fewer than 2^32 rows, every column appended has fewer
-- than 2^32 values, each in the range of its type, and a null bitmap, given or made, that covers
-- them; float64 sums are 64-bit patterns.
pub Reach-Follows :
    (fl : Floats)
    → AreFloats fl
    → (w : Writer) {w' : Writer} (r : Reach fl w w') → AreFit fl w r
    → IsValid w
    → Follows w w'
Reach-Follows fl a w here q v = record {
  valid = v;
  schema = refl;
  appends = ([], sym (append-nil w.out));
}
Reach-Follows fl a w (next r st) (qs, q) v =
    let f = Reach-Follows fl a w r qs v in
    let g = Step-Follows fl a st q f.valid in
    record {
      valid = g.valid;
      schema = g.schema ∙ f.schema;
      appends = prefix_trans _ _ _ f.appends g.appends;
    }

ColumnIn-ColumnFits :
    (size : ℕ) → size < u64 → (c : ColumnSectionMeta) → ColumnIn size c → ColumnFits c
ColumnIn-ColumnFits size h c k = record {
  section_offset = omega (arith, k.ends);
  section_length = omega (arith, k.ends);
  null_count = omega (arith, k.stats.null_count);
  sum = k.stats.sum;
  minimum = k.stats.minimum;
  maximum = k.stats.maximum;
  dict_offset = k.dict_offset;
  dict_length = k.dict_length;
}

RowGroupIn-RowGroupFits :
    (n size : ℕ) → size < u64 → (rg : RowGroupMeta) → RowGroupIn n size rg → RowGroupFits n rg
RowGroupIn-RowGroupFits n size h rg k = record {
  file_offset = omega (arith, k.starts);
  num_rows = k.num_rows;
  width = k.width;
  columns = All-imp _ _ rg.columns (ColumnIn-ColumnFits size h) k.columns;
}

-- A writer reached by successful calls, with no row group open, finishes; readFooter on the
-- finished file answers the schema and the row groups of the writer, and the file starts with the
-- bytes written before. Conditions, of which the writer checks none: every row group begun has
-- fewer than 2^32 rows, every column appended has fewer than 2^32 values, each in the range of its
-- type, and a null bitmap, given or made, that covers them; field names below 2^16 bytes, fewer
-- than 2^32 fields and row groups, a file below 2^63 bytes, and float64 sums that are 64-bit
-- patterns.
pub Reach-read_footer :
    (fl : Floats) (fields : List Field) (w : Writer)
    → AreFloats fl
    → All FieldFits fields
    → length fields < u32
    → (r : Reach fl (new_writer fields) w) → AreFit fl (new_writer fields) r
    → w.rg_num_rows ≡ 0
    → length w.row_groups < u32
    → length (w.out ++ marshal_footer (meta_of w)) < 2 ^ 63
    → (file : Bytes) × (finish w ≡ ok file)
      × (read_footer file ≡ ok (record { fields = fields; row_groups = w.row_groups }))
      × (take (length w.out) file ≡ w.out)
unfolding finish must_write
Reach-read_footer fl fields w a fit few r calls closed groups small =
    let follows : Follows (new_writer fields) w =
      Reach-Follows fl a (new_writer fields) r calls (new_writer-IsValid fields) in
    let v : IsValid w = follows.valid in
    let same : w.fields ≡ fields = unfold new_writer in follows.schema in
    let short : length w.out < u64 =
      omega (arith, small, length-append w.out (marshal_footer (meta_of w))) in
    let fits : MetaFits (meta_of w) = record {
      few_fields = subst (λ fs. length fs < u32) (sym same) few;
      few_groups = groups;
      fields = subst (All FieldFits) (sym same) fit;
      row_groups =
          All-imp _ _ w.row_groups (RowGroupIn-RowGroupFits (length w.fields) (length w.out) short)
            v.groups;
    } in
    let long : 4 ≤ length w.out = rw v.header.1 (omega arith) in
    (
      w.out ++ marshal_footer (meta_of w),
      rw closed refl,
      read_footer-marshal_footer w.out (meta_of w) fits long small
          ∙ ap (λ fs. ok (record { fields = fs; row_groups = w.row_groups })) same,
      take_append w.out (marshal_footer (meta_of w)),
    )
