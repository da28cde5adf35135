-- ===== src/Storage/Writer/Invariant.antt =====
-- What every operation of the writer keeps.
use vexq.Storage.Bitmap.Laws.{Covers}
use vexq.Storage.Schema.{magic, Field, RowGroupMeta, ColumnSectionMeta}
use vexq.Storage.Bitmap.{full_bitmap, index}
use vexq.Storage.Writer.{
  known_type, check_value_type, column_done, Section, Floats, Values, all_done, end_row_group,
  new_writer, Writer, must_write, no_section, append_column, begin_row_group,
}
use vexq.Prelude.{
  ltb, ◌==◌, length, set, length-append, length-set, replicate, length-replicate, All, All-append,
  Bytes, u32, Safe, Safe-bind, Safe-reject_if, ℕ, zero, suc, ◌+◌, ◌≤◌, ◌<◌, ◌≡◌, refl, sym, ap, ◌∙◌,
  Bool, true, false, not, Option, none, some, List, [], ◌∷◌, ◌++◌, append-nil, append_assoc, arith,
}
use vexq.Storage.Writer.Sections.{
  AreFloats, AreWords, count_of, SectionFits, StatsFit, write_section-SectionFits,
}

-- A section that ends within `size` bytes, and that the footer can hold.
pub record ColumnIn (size : ℕ) (c : ColumnSectionMeta) : Type 0 where
  pub ends : c.section_offset + c.section_length ≤ size
  pub stats : StatsFit 0 c.stats
  pub dict_offset : c.dict_offset < u32
  pub dict_length : c.dict_length < u32

-- A row group of `n` columns within `size` bytes.
pub record RowGroupIn (n size : ℕ) (rg : RowGroupMeta) : Type 0 where
  pub starts : rg.file_offset ≤ size
  pub num_rows : rg.num_rows < u32
  pub width : length rg.columns ≡ n
  pub columns : All (ColumnIn size) rg.columns

-- `offset` is the end of the file, the file starts with the magic, each closed row group has a
-- section for every field and an open one a place for it, and the sections lie within the file.
pub record IsValid (w : Writer) : Type 0 where
  pub at_end : w.offset ≡ length w.out
  pub header : (body : Bytes) × (w.out ≡ magic ++ body)
  pub groups : All (RowGroupIn (length w.fields) (length w.out)) w.row_groups
  pub num_rows : w.rg_num_rows < u32
  pub starts : w.rg_start_off ≤ length w.out
  pub width : (w.rg_num_rows == 0) ≡ false → length w.rg_col_meta ≡ length w.fields
  pub written : (w.rg_num_rows == 0) ≡ false → length w.rg_col_written ≡ length w.fields
  pub sections : All (ColumnIn (length w.out)) w.rg_col_meta

-- A writer that is valid, of the same schema, and whose file extends that of `w`.
pub record Follows (w w' : Writer) : Type 0 where
  pub valid : IsValid w'
  pub schema : w'.fields ≡ w.fields
  pub appends : (more : Bytes) × (w'.out ≡ w.out ++ more)

pub All-imp {ℓ} :
    {A : Type ℓ} (P Q : A → Type 0) (xs : List A) → ((a : A) → P a → Q a) → All P xs → All Q xs
All-imp P Q [] k h = tt
All-imp P Q (x ∷ xs) k (h, hs) = (k x h, All-imp P Q xs k hs)

All-set {ℓ} :
    {A : Type ℓ} (P : A → Type 0) (xs : List A) (i : ℕ) (v : A)
    → All P xs
    → P v
    → All P (set xs i v)
All-set P [] i v h k = tt
All-set P (x ∷ xs) zero v h k = (k, h.1)
All-set P (x ∷ xs) (suc i) v h k = (h.0, All-set P xs i v h.1 k)

All-replicate {ℓ} : {A : Type ℓ} (P : A → Type 0) (n : ℕ) (a : A) → P a → All P (replicate n a)
All-replicate P zero a h = tt
All-replicate P (suc n) a h = (h, All-replicate P n a h)

ColumnIn-grow :
    (size size' : ℕ) → size ≤ size' → (c : ColumnSectionMeta) → ColumnIn size c → ColumnIn size' c
ColumnIn-grow size size' h c k = record {
  ends = omega (arith, k.ends);
  stats = k.stats;
  dict_offset = k.dict_offset;
  dict_length = k.dict_length;
}

RowGroupIn-grow :
    (n size size' : ℕ)
    → size ≤ size'
    → (rg : RowGroupMeta) → RowGroupIn n size rg
    → RowGroupIn n size' rg
RowGroupIn-grow n size size' h rg k = record {
  starts = omega (arith, k.starts);
  num_rows = k.num_rows;
  width = k.width;
  columns = All-imp _ _ rg.columns (ColumnIn-grow size size' h) k.columns;
}

pub new_writer-IsValid : (fields : List Field) → IsValid (new_writer fields)
unfolding new_writer
new_writer-IsValid fields = record {
  at_end = refl;
  header = ([], append-nil magic);
  groups = tt;
  num_rows = omega arith;
  starts = omega arith;
  width = λ h. cc;
  written = λ h. cc;
  sections = tt;
}

no_section-ColumnIn : (size : ℕ) → ColumnIn size no_section
no_section-ColumnIn size = record {
  ends = omega arith;
  stats = record {
    null_count = omega arith;
    sum = omega arith;
    minimum = omega arith;
    maximum = omega arith;
  };
  dict_offset = omega arith;
  dict_length = omega arith;
}

unmoved : (w w' : Writer) → w'.fields ≡ w.fields → w'.out ≡ w.out → IsValid w' → Follows w w'
unmoved w w' schema same v = record {
  valid = v;
  schema = schema;
  appends = ([], same ∙ sym (append-nil w.out));
}

pub begin_row_group-Safe :
    (w : Writer) (n : ℕ) → IsValid w → n < u32 → Safe (Follows w) (begin_row_group w n)
unfolding begin_row_group
begin_row_group-Safe w n v h = Safe-reject_if (Follows w) (not (w.rg_num_rows == 0)) _ _ (λ closed.
    unmoved w _ refl refl (record {
      at_end = v.at_end;
      header = v.header;
      groups = v.groups;
      num_rows = h;
      starts = omega (arith, v.at_end);
      width = λ e. length-replicate (length w.fields) no_section;
      written = λ e. length-replicate (length w.fields) false;
      sections = All-replicate _ (length w.fields) no_section (no_section-ColumnIn (length w.out));
    }))

pub end_row_group-Safe : (w : Writer) → IsValid w → Safe (Follows w) (end_row_group w)
unfolding end_row_group
end_row_group-Safe w v = Safe-reject_if (Follows w) (w.rg_num_rows == 0) _ _ (λ is_open.
    Safe-reject_if (Follows w) (not (all_done w.rg_col_written)) _ _ (λ done.
      unmoved w _ refl refl (record {
        at_end = v.at_end;
        header = v.header;
        groups = All-append _ w.row_groups _ v.groups (
          record {
            starts = v.starts;
            num_rows = v.num_rows;
            width = v.width is_open;
            columns = v.sections;
          },
          tt,
        );
        num_rows = omega arith;
        starts = v.starts;
        width = λ h. cc;
        written = λ h. cc;
        sections = tt;
      })))

-- The bitmap that AppendColumn works with.
abbrev pub bitmap_of : Writer → Option Bytes → Bytes
bitmap_of w nulls = elim nulls [ none ↦ full_bitmap w.rg_num_rows | some b ↦ b ]

-- Columns that the caller may hand over: a bitmap for every row, and words of the type's width.
pub record Acceptable (w : Writer) (nulls : Option Bytes) (values : Values) : Type 0 where
  pub covers : Covers (bitmap_of w nulls) (count_of values)
  pub few : count_of values < u32
  pub words : AreWords values

column_done-IsValid :
    (w : Writer) (idx : ℕ) (s : Section) → IsValid w → SectionFits s → IsValid (column_done w idx s)
unfolding must_write
column_done-IsValid w idx s v f =
    let grown : length (w.out ++ s.bytes) ≡ length w.out + length s.bytes =
      length-append w.out s.bytes in
    let more : length w.out ≤ length (w.out ++ s.bytes) = omega (arith, grown) in
    record {
      at_end = omega (arith, grown, v.at_end);
      header = (
        v.header.0 ++ s.bytes,
        ap (λ o. o ++ s.bytes) v.header.1 ∙ append_assoc magic v.header.0 s.bytes,
      );
      groups = All-imp _ _ w.row_groups (RowGroupIn-grow _ _ _ more) v.groups;
      num_rows = v.num_rows;
      starts = omega (arith, more, v.starts);
      width = λ e. length-set w.rg_col_meta idx _ ∙ v.width e;
      written = λ e. length-set w.rg_col_written idx true ∙ v.written e;
      sections =
          All-set _ w.rg_col_meta idx _
            (All-imp _ _ w.rg_col_meta (ColumnIn-grow _ _ more) v.sections)
            (record {
              ends = omega (arith, grown, v.at_end);
              stats = f.stats;
              dict_offset = f.dict_offset;
              dict_length = f.dict_length;
            });
    }

index-Safe : {A : Type 0} (xs : List A) (i : ℕ) → i < length xs → Safe (λ d. Unit {0}) (index xs i)
unfolding index
index-Safe [] i h = absurd (omega arith)
index-Safe (x ∷ xs) zero h = tt
index-Safe (x ∷ xs) (suc i) h = index-Safe xs i (omega arith)

pub append_column-Safe :
    (fl : Floats) (w : Writer) (cancel : Bool) (idx : ℕ) (nulls : Option Bytes) (values : Values)
    → AreFloats fl
    → IsValid w
    → Acceptable w nulls values
    → Safe (Follows w) (append_column fl w cancel idx nulls values)
unfolding append_column
append_column-Safe fl w cancel idx nulls values a v q =
    Safe-reject_if (Follows w) cancel _ _ (λ live.
      Safe-reject_if (Follows w) (w.rg_num_rows == 0) _ _ (λ is_open.
        Safe-reject_if (Follows w) (not (ltb idx (length w.fields))) _ _ (λ inside.
          let there : idx < length w.fields = ground arith in
          Safe-bind (λ d. Unit) (Follows w) (index w.rg_col_written idx) _
            (index-Safe w.rg_col_written idx (omega (arith, v.written is_open)))
            (λ done _. Safe-reject_if (Follows w) done _ _ (λ fresh.
              Safe-bind (λ d. Unit) (Follows w) (index w.fields idx) _
                (index-Safe w.fields idx there)
                (λ field _.
                  Safe-reject_if (Follows w) (not (check_value_type field.data_type values)) _ _
                    (λ typed.
                      Safe-reject_if (Follows w) (not (known_type field.data_type)) _ _ (λ known.
                        let (s, e, f) =
                          write_section-SectionFits fl (bitmap_of w nulls) values a q.covers q.few
                            q.words in
                        rw e (record {
                          valid = column_done-IsValid w idx s v f;
                          schema = refl;
                          appends = (s.bytes, refl);
                        })))))))))
