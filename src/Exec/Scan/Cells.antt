-- ===== src/Exec/Scan/Cells.antt =====
-- The cells of a column of words, as calls of the column reader give them to a scan until the end.
use mathlib.Core.Option
use vexq.Storage.Column.{slice_to}
use vexq.Prelude.{
  ltb, leb, ◌==◌, if◌then◌else◌, length, take, replicate, length-replicate, All, take_full, Bytes,
  ok, err, panic, ℕ, zero, suc, ◌+◌, ◌-◌, ◌*◌, ◌/◌, ◌^◌, ◌<◌, min, ◌≡◌, refl, sym, ap, ◌∙◌, Bool,
  false, Option, none, some, List, [], ◌∷◌, ◌++◌, arith,
}
use Prim.Native.Nat.{zero, suc}
use vexq.Storage.Bitmap.Laws.{null_at}
use vexq.Storage.Schema.{block_rows, value_size, type_bool, type_int64, type_float64, type_date}
use vexq.Storage.Column.{ColumnReader, Block, next_fixed_block, next_block}
use vexq.Storage.Column.Windows.{Buffered}
use vexq.Exec.Vector.{copy_bytes-same}
use vexq.Exec.Predicates.{
  Vector, int64_vector, float64_vector, date_vector, string_vector, bool_vector,
}
use vexq.Exec.Scan.{
  copy_bytes, slice_to, Read, column_block, payload_words, payload_to_vector, copy_nulls,
  word_payload, from_block, decoded,
}
use vexq.Exec.Scan.Blocks.{words, length-words, block_bytes, read_words-words}
use vexq.Exec.Scan.Steps.{Stands, next_fixed_block-Gives}

-- The cells of values, of which `f` says which are null.
unfoldable pub cells : (ℕ → Bool) → ℕ → List ℕ → List (Option ℕ)
cells f i [] = []
cells f i (v ∷ vs) = (if f i then none else some v) ∷ cells f (i + 1) vs

pub vector_cells : Vector → List (Option ℕ)
unfolding cells
vector_cells (int64_vector vals nulls) = cells (null_at nulls) 0 vals
vector_cells (float64_vector vals nulls) = cells (null_at nulls) 0 vals
vector_cells (date_vector vals nulls) = cells (null_at nulls) 0 vals
vector_cells (string_vector strings rows nulls) = []
vector_cells (bool_vector v) = []

unfoldable pub gather : (ColumnReader → Option (List (Option ℕ))) → Read → Option (List (Option ℕ))
gather rest (ok none, cr) = some []
gather rest (ok (some (v, rows)), cr) = Option.map (λ more. vector_cells v ++ more) (rest cr)
gather rest (err e, cr) = none
gather rest (panic, cr) = none

-- The cells of at most so many blocks up to the end of the column; nothing on an error.
unfoldable pub column_cells : ℕ → ℕ → ColumnReader → Option (List (Option ℕ))
unfolding gather column_block
column_cells zero t cr = none
column_cells (suc n) t cr = gather (column_cells n t) (column_block t cr)

-- A type whose values are words of `k` bytes.
pub record IsWordType (t k : ℕ) (vector : List ℕ → Bytes → Vector) : Type 0 where
  pub size : value_size t ≡ k
  pub not_bool : (t == type_bool) ≡ false
  pub reads :
      (b : Block) (cr : ColumnReader) → payload_to_vector t b cr ≡ (word_payload vector k b, cr)
  pub shows :
      (vals : List ℕ) (nulls : Bytes)
      → vector_cells (vector vals nulls) ≡ cells (null_at nulls) 0 vals

pub int64-IsWordType : IsWordType type_int64 8 int64_vector
unfolding value_size payload_to_vector vector_cells
int64-IsWordType = record {
  size = refl;
  not_bool = refl;
  reads = λ b cr. refl;
  shows = λ vals nulls. refl;
}

pub float64-IsWordType : IsWordType type_float64 8 float64_vector
unfolding value_size payload_to_vector vector_cells
float64-IsWordType = record {
  size = refl;
  not_bool = refl;
  reads = λ b cr. refl;
  shows = λ vals nulls. refl;
}

pub date-IsWordType : IsWordType type_date 4 date_vector
unfolding value_size payload_to_vector vector_cells
date-IsWordType = record {
  size = refl;
  not_bool = refl;
  reads = λ b cr. refl;
  shows = λ vals nulls. refl;
}

pub next_block-Gives :
    (cr : ColumnReader) (k : ℕ) (vals : List ℕ) (bm before after : Bytes)
    → Stands cr k before (length (block_bytes k vals bm))
    → cr.file ≡ before ++ (block_bytes k vals bm ++ after)
    → length bm ≡ (length vals + 7) / 8
    → length vals ≡ min (cr.total_rows - cr.rows_done) block_rows
    → 0 < length vals
    → (cr.data_type == type_bool) ≡ false
    → (w : Option Bytes) × (start : ℕ) × Buffered cr.file w start
      × (next_block cr ≡ (
        ok (bm, words k vals, length vals),
        record cr {
          rows_done = cr.rows_done + length vals;
          win = w;
          win_start = start;
          pos = cr.pos + length (block_bytes k vals bm);
        },
      ))
unfolding next_block
next_block-Gives cr k vals bm before after st file bms rows some_rows not_bool =
    let moved : ColumnReader = record cr { rows_done = cr.rows_done + length vals } in
    let (w, start, b, e) =
      next_fixed_block-Gives moved k vals bm before after
        (record {
          place = st.place;
          buffered = st.buffered;
          low = st.low;
          fits = st.fits;
          inside = st.inside;
          size = st.size;
        })
        file bms (omega (arith, rows)) in
    let left : leb cr.total_rows cr.rows_done ≡ false = ground arith in
    (
      w,
      start,
      b,
      rw (left, not_bool)
          (ap (λ n. next_fixed_block n (record cr { rows_done = cr.rows_done + n })) (sym rows)
            ∙ e),
    )

module _ {t k : ℕ} {vector : List ℕ → Bytes → Vector} (is_word : IsWordType t k vector) where
  word_payload-words :
      (vals : List ℕ) (bm : Bytes)
      → length bm ≡ (length vals + 7) / 8
      → All (λ v. v < 256 ^ k) vals
      → word_payload vector k (bm, words k vals, length vals) ≡ ok (vector vals bm)
  unfolding word_payload payload_words copy_nulls slice_to
  word_payload-words vals bm size fit =
      let whole : ltb (length (words k vals)) (length vals * k) ≡ false =
        ground (arith, length-words k vals) in
      let all : take (length vals * k) (words k vals) ≡ words k vals =
        take_full (length vals * k) (words k vals) (omega (arith, length-words k vals)) in
      let nulls : copy_bytes (replicate ((length vals + 7) / 8) 0) bm ≡ bm =
        copy_bytes-same (replicate ((length vals + 7) / 8) 0) bm
          (omega (arith, size, length-replicate {A = ℕ} ((length vals + 7) / 8) 0)) in
      rw (whole, all, read_words-words k vals fit, nulls) refl

  -- A block gives its cells.
  pub column_block-Gives :
      (cr cr' : ColumnReader) (vals : List ℕ) (bm : Bytes)
      → next_block cr ≡ (ok (bm, words k vals, length vals), cr')
      → length bm ≡ (length vals + 7) / 8
      → All (λ v. v < 256 ^ k) vals
      → column_block t cr ≡ (ok (some (vector vals bm, length vals)), cr')
  unfolding column_block from_block decoded
  column_block-Gives cr cr' vals bm e size fit =
      ap (from_block t) e
      ∙ ap (decoded (length vals)) (is_word.reads (bm, words k vals, length vals) cr')
      ∙ ap (λ r. decoded (length vals) (r, cr')) (word_payload-words vals bm size fit)
