-- ===== src/SortSamples.antt =====
-- Runs of the sort on a small batch, and the order of its rows at a concrete input.
use vexq.Prelude.{
  ltb, leb, ◌==◌, codes, ok, ℕ, ◌≡◌, refl, Bool, true, false, not, ◌&&◌, none, some, List, [], ◌∷◌,
  arith,
}
use vexq.Storage.Bitmap.{index, is_null_bit, set_valid_bit}
use vexq.Storage.Bitmap.Bits.{bit_is_zero, set_bit}
use vexq.Exec.Predicates.{nulls_of}
use vexq.Storage.Schema.{Field}
use vexq.Exec.Limit.{Batch}
use vexq.Exec.Limit.Rows.{indices}
use vexq.Exec.Compare.{Order}
use vexq.Exec.Predicates.{Vector, int64_vector, float64_vector}
use vexq.Exec.Sort.{sort_rows, SortKey, SortRow, less, sort_row}
use vexq.Exec.Sort.Keys.{IsStrictWeak, IsFloatOrder, HasCells}
use vexq.Exec.Sort.Lexical.{row_before, less-row_before}
use vexq.StableSort.{insertion_sort, insertion_sort-IsStableSort}
use vexq.Exec.Sort.Consumed.{child_rows}
use vexq.Exec.Sort.Sorted.{IsSortOf, consume_and_sort-IsSortOf}
use vexq.Exec.Sort.Operator.{ExternalSort, consume_and_sort, sort_next}

-- A float64 whose pattern is 9 stands for the NaN.
abbrev is_nine : ℕ → Bool
is_nine v = v == 9

abbrev few_floats : Order
few_floats = record {
  eq = λ a b. not (is_nine a) && not (is_nine b) && (a == b);
  lt = λ a b. not (is_nine a) && not (is_nine b) && ltb a b;
  le = λ a b. not (is_nine a) && not (is_nine b) && leb a b;
}

few_floats-IsFloatOrder : IsFloatOrder few_floats is_nine
few_floats-IsFloatOrder = record {
  asym = λ a b h. ground arith;
  cotrans = λ a b c n h k. ground arith;
  nan_eq = λ a b h. ground arith;
  number_eq = λ a b h. ground arith;
}

abbrev sort_fields : List Field
sort_fields =
    record { name = codes "x"; data_type = 2; encoding = 0; nullable = true }
    ∷ record { name = codes "n"; data_type = 1; encoding = 0; nullable = true }
    ∷ []

-- By the first column downwards, then by the second.
abbrev sort_keys : List SortKey
sort_keys =
    record { col_idx = 0; descending = true } ∷ record { col_idx = 1; descending = false } ∷ []

abbrev nan_row : SortRow
nan_row = record { values = 9 ∷ 4 ∷ []; nulls = false ∷ false ∷ []; str_values = [] ∷ [] ∷ [] }

abbrev null_row : SortRow
null_row = record { values = 0 ∷ 5 ∷ []; nulls = true ∷ false ∷ []; str_values = [] ∷ [] ∷ [] }

nan_row-HasCells : HasCells sort_fields nan_row
nan_row-HasCells = record {
  null_size = refl;
  value_size = refl;
  string_size = refl;
  words = (omega arith, (omega arith, tt));
}

null_row-HasCells : HasCells sort_fields null_row
null_row-HasCells = record {
  null_size = refl;
  value_size = refl;
  string_size = refl;
  words = (omega arith, (omega arith, tt));
}

-- The second row of two, of which the first has a NULL.
sort_row_second :
    sort_row sort_fields
      (float64_vector (3 ∷ 9 ∷ []) (2 ∷ []) ∷ int64_vector (5 ∷ 4 ∷ []) (3 ∷ []) ∷ [])
      1
    ≡ ok nan_row
unfolding sort_row is_null_bit nulls_of bit_is_zero
sort_row_second = refl

null_is_first : less few_floats is_nine sort_fields sort_keys null_row nan_row ≡ ok true
unfolding less index
null_is_first = refl

-- The batches of a child of one batch, which is not permuted.
first_batch :
    (b : Batch (List Vector)) × ((sort_next few_floats is_nine
        (λ lt rows. ok rows)
        (record {
          child =
              ok (record {
                vectors = int64_vector (5 ∷ 4 ∷ []) (2 ∷ []) ∷ [];
                sel_vec = none;
                rows = 2;
              })
              ∷ [];
          fields = record { name = codes "n"; data_type = 1; encoding = 0; nullable = true } ∷ [];
          keys = record { col_idx = 0; descending = false } ∷ [];
          rows = [];
          is_done = false;
          emit_pos = 0;
        })).0
      ≡ ok (some b))
unfolding sort_next indices is_null_bit nulls_of bit_is_zero set_valid_bit set_bit
first_batch =
    (record { vectors = int64_vector (0 ∷ 4 ∷ []) (2 ∷ []) ∷ []; sel_vec = none; rows = 2 }, refl)

less-row_before_example :
    (less few_floats is_nine sort_fields sort_keys null_row nan_row
      ≡ ok (row_before few_floats is_nine sort_fields sort_keys null_row nan_row))
    × IsStrictWeak (row_before few_floats is_nine sort_fields sort_keys)
less-row_before_example =
    less-row_before few_floats is_nine few_floats-IsFloatOrder sort_fields sort_keys
      (omega arith, (omega arith, tt)) null_row nan_row null_row-HasCells nan_row-HasCells

abbrev two_rows : Batch (List Vector)
two_rows = record {
  vectors = float64_vector (3 ∷ 9 ∷ []) (2 ∷ []) ∷ int64_vector (5 ∷ 4 ∷ []) (3 ∷ []) ∷ [];
  sel_vec = none;
  rows = 2;
}

abbrev new_sort : ExternalSort
new_sort = record {
  child = ok two_rows ∷ [];
  fields = sort_fields;
  keys = sort_keys;
  rows = [];
  is_done = false;
  emit_pos = 0;
}

two_rows_read : child_rows sort_fields (two_rows ∷ []) ≡ ok (null_row ∷ nan_row ∷ [])
unfolding child_rows sort_rows sort_row indices is_null_bit nulls_of bit_is_zero
two_rows_read = refl

consume_and_sort-IsSortOf_example :
    (out : List SortRow) × (consume_and_sort few_floats is_nine insertion_sort new_sort
      ≡ (ok tt, record new_sort { child = []; rows = out }))
    × IsSortOf (row_before few_floats is_nine sort_fields sort_keys) (null_row ∷ nan_row ∷ []) out
consume_and_sort-IsSortOf_example =
    consume_and_sort-IsSortOf few_floats is_nine few_floats-IsFloatOrder insertion_sort
      insertion_sort-IsStableSort new_sort (two_rows ∷ []) (null_row ∷ nan_row ∷ []) refl refl
      (omega arith, (omega arith, tt))
      (((omega arith, (omega arith, tt)), ((omega arith, (omega arith, tt)), tt)), tt) two_rows_read
