-- ===== src/Exec/Sort/Consumed.antt =====
-- The rows that the sort gathers have a cell for each field of the schema.
use vexq.Prelude.{
  ◌>>=◌, if◌then◌else◌, All, All-append, u32, u64, Result, ok, err, panic, ℕ, zero, suc, ◌<◌, ◌≡◌,
  refl, ap, ◌∙◌, Bool, true, false, List, [], ◌∷◌, ◌++◌, map, append-nil, append_assoc, arith,
}
use vexq.Storage.Bitmap.{index, is_null_bit}
use vexq.Storage.Schema.{Field}
use vexq.Exec.Limit.{Batch}
use vexq.Exec.Limit.Rows.{selected}
use vexq.Exec.Vector.{get_value}
use vexq.Exec.Predicates.{
  Vector, int64_vector, float64_vector, date_vector, string_vector, bool_vector, nulls_of,
}
use vexq.Exec.Sort.{SortRow, widen, extract_int64, extract_string, add_cell, sort_row, sort_rows}
use vexq.Exec.Sort.Keys.{HasCells}
use vexq.Exec.Sort.Operator.{Child, consume}

-- The values are words of the column's width.
abbrev pub FitsType : Vector → Type 0
FitsType (int64_vector values nulls) = All (λ v. v < u64) values
FitsType (float64_vector values nulls) = All (λ v. v < u64) values
FitsType (date_vector values nulls) = All (λ v. v < u32) values
FitsType (string_vector strings rows nulls) = Unit
FitsType (bool_vector v) = Unit

-- What a step returns, if it returns.
abbrev pub Gives : {A : Type 0} → (A → Type 0) → Result A → Type 0
Gives P (ok a) = P a
Gives P (err e) = Unit
Gives P panic = Unit

Gives-bind :
    {A B : Type 0} (P : A → Type 0) (Q : B → Type 0) (r : Result A) (f : A → Result B)
    → Gives P r
    → ((a : A) → P a → Gives Q (f a))
    → Gives Q (do a ← r; f a)
Gives-bind P Q (ok a) f h k = k a h
Gives-bind P Q (err e) f h k = tt
Gives-bind P Q panic f h k = tt

Gives-any : {A : Type 0} (r : Result A) → Gives (λ a. Unit) r
Gives-any (ok a) = tt
Gives-any (err e) = tt
Gives-any panic = tt

Gives-index : (P : ℕ → Type 0) (vs : List ℕ) (i : ℕ) → All P vs → Gives P (index vs i)
unfolding index
Gives-index P [] i all = tt
Gives-index P (w ∷ ws) zero all = all.0
Gives-index P (w ∷ ws) (suc i) all = Gives-index P ws i all.1

extract_int64-Gives :
    (col : Vector) (i : ℕ) → FitsType col → Gives (λ v. v < u64) (extract_int64 col i)
unfolding extract_int64 widen
extract_int64-Gives (int64_vector values nulls) i fit = Gives-index (λ v. v < u64) values i fit
extract_int64-Gives (float64_vector values nulls) i fit = Gives-index (λ v. v < u64) values i fit
extract_int64-Gives (date_vector values nulls) i fit =
    Gives-bind (λ v. v < u32) (λ v. v < u64) (index values i) _
      (Gives-index (λ v. v < u32) values i fit) (λ v h. ground arith)
extract_int64-Gives (string_vector strings rows nulls) i fit = omega arith
extract_int64-Gives (bool_vector b) i fit =
    Gives-bind (λ t. Unit) (λ v. v < u64) (get_value b i) _ (Gives-any (get_value b i))
      (λ t h. ground arith)

value-Gives :
    (null : Bool) (col : Vector) (i : ℕ)
    → FitsType col
    → Gives (λ v. v < u64) (if null then ok 0 else extract_int64 col i)
value-Gives true col i fit = omega arith
value-Gives false col i fit = extract_int64-Gives col i fit

sort_row-HasCells :
    (fields : List Field) (vectors : List Vector) (i : ℕ)
    → All FitsType vectors
    → Gives (HasCells fields) (sort_row fields vectors i)
unfolding sort_row add_cell
sort_row-HasCells [] vectors i fit = record {
  null_size = refl;
  value_size = refl;
  string_size = refl;
  words = tt;
}
sort_row-HasCells (f ∷ fields) [] i fit = tt
sort_row-HasCells (f ∷ fields) (v ∷ vectors) i (fit, fits) =
    Gives-bind (λ null. Unit) (HasCells (f ∷ fields)) (is_null_bit (nulls_of v) i) _ (Gives-any _)
      λ null _.
        Gives-bind (λ v. v < u64) (HasCells (f ∷ fields)) _ _ (value-Gives null v i fit)
          λ value small.
            Gives-bind (λ s. Unit) (HasCells (f ∷ fields))
              (if null then ok [] else extract_string v i) _ (Gives-any _)
              λ s _.
                Gives-bind (HasCells fields) (HasCells (f ∷ fields)) (sort_row fields vectors i)
                  (λ row. ok (add_cell value null s row)) (sort_row-HasCells fields vectors i fits)
                  λ row cells. record {
                    null_size = ap suc cells.null_size;
                    value_size = ap suc cells.value_size;
                    string_size = ap suc cells.string_size;
                    words = (small, cells.words);
                  }

sort_rows-HasCells :
    (fields : List Field) (vectors : List Vector) (sel : List ℕ)
    → All FitsType vectors
    → Gives (All (HasCells fields)) (sort_rows fields vectors sel)
unfolding sort_rows
sort_rows-HasCells fields vectors [] fit = tt
sort_rows-HasCells fields vectors (i ∷ sel) fit =
    Gives-bind (HasCells fields) (All (HasCells fields)) _ _
      (sort_row-HasCells fields vectors i fit)
      λ row cells.
        Gives-bind (All (HasCells fields)) (All (HasCells fields)) _ _
          (sort_rows-HasCells fields vectors sel fit) λ rows more. (cells, more)

-- The rows of all batches, in their order.
unfoldable pub child_rows : List Field → List (Batch (List Vector)) → Result (List SortRow)
child_rows fields [] = ok []
child_rows fields (b ∷ bs) = do
  new ← sort_rows fields b.vectors (selected b)
  later ← child_rows fields bs
  ok (new ++ later)

pub child_rows-HasCells :
    (fields : List Field) (bs : List (Batch (List Vector)))
    → All (λ b. All FitsType b.vectors) bs
    → Gives (All (HasCells fields)) (child_rows fields bs)
unfolding child_rows
child_rows-HasCells fields [] fit = tt
child_rows-HasCells fields (b ∷ bs) (fit, fits) =
    Gives-bind (All (HasCells fields)) (All (HasCells fields)) _ _
      (sort_rows-HasCells fields b.vectors (selected b) fit)
      λ new cells.
        Gives-bind (All (HasCells fields)) (All (HasCells fields)) _ _
          (child_rows-HasCells fields bs fits)
          λ later more. All-append (HasCells fields) new later cells more

consume_ok :
    (fields : List Field) (b : Batch (List Vector)) (child : Child) (gathered new : List SortRow)
    → sort_rows fields b.vectors (selected b) ≡ ok new
    → consume fields (ok b ∷ child) gathered ≡ consume fields child (gathered ++ new)
unfolding consume
consume_ok fields b child gathered new h = rw h refl

-- A child without an error is gathered whole.
pub consume-child_rows :
    (fields : List Field) (bs : List (Batch (List Vector))) (gathered : List SortRow)
    → Gives
        (λ rows. consume fields (map ok bs) gathered ≡ (ok tt, ([], gathered ++ rows)))
        (child_rows fields bs)
unfolding child_rows consume
consume-child_rows fields [] gathered = rw append-nil refl
consume-child_rows fields (b ∷ bs) gathered =
    by_new (sort_rows fields b.vectors (selected b)) refl
      (λ new. consume-child_rows fields bs (gathered ++ new))
  where
    by_new :
        (r : Result (List SortRow))
        → sort_rows fields b.vectors (selected b) ≡ r
        → ((new : List SortRow)
            → Gives
                (λ rows.
                  consume fields (map ok bs) (gathered ++ new)
                  ≡ (ok tt, ([], gathered ++ new ++ rows)))
                (child_rows fields bs))
        → Gives
            (λ rows. consume fields (map ok (b ∷ bs)) gathered ≡ (ok tt, ([], gathered ++ rows)))
            (do new ← r; later ← child_rows fields bs; ok (new ++ later))
    by_new (err e) h rest = tt
    by_new panic h rest = tt
    by_new (ok new) h rest =
        Gives-bind
          (λ rows.
            consume fields (map ok bs) (gathered ++ new) ≡ (ok tt, ([], gathered ++ new ++ rows)))
          (λ rows. consume fields (map ok (b ∷ bs)) gathered ≡ (ok tt, ([], gathered ++ rows)))
          (child_rows fields bs) (λ later. ok (new ++ later)) (rest new)
          λ later e.
            consume_ok fields b (map ok bs) gathered new h
            ∙ (e ∙ ap (λ rows. (ok tt, ([], rows))) (append_assoc gathered new later))
