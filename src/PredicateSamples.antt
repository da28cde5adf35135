-- ===== src/PredicateSamples.antt =====
-- The predicates' theorems at concrete inputs: ten rows of which row 2 is NULL.
use vexq.Storage.Bitmap.{index, is_null_bit, set_null_bit}
use vexq.Storage.Bitmap.Bits.{bit_is_zero, clear_bit}
use vexq.Exec.Vector.{set_flag, copy_bytes}
use vexq.Prelude.{
  codes, if◌then◌else◌, get_or, Bytes, ok, ℕ, ◌≡◌, refl, ◌↔◌, true, false, none, some, List, [],
  ◌∷◌, map, foldl, arith,
}
use vexq.Exec.Limit.{Batch}
use vexq.Exec.Compare.{int64_kind, Column, int64_order, cmp, bin_lt, eval_cmp}
use vexq.Exec.Compare.Meaning.{order_of, IsColumn, compare_values, value_at, eval_cmp-truth}
use vexq.Exec.Vector.{BoolVector, HasRows, truth, Yields}
use vexq.Exec.Logic.{eval_and, eval_or}
use vexq.Exec.Logic.Kleene.{kleene_and, kleene_or}
use vexq.Exec.Logic.Trees.{eval_and-truth, eval_or-truth}
use vexq.Exec.Predicates.{eval_in, eval_string_eq, eval_is_null, int64_vector, int64_literal}
use vexq.Exec.Predicates.Meaning.{
  occurs, eval_in_int64-truth, eval_string_eq-truth, string_eq_answer,
}
use vexq.Exec.Predicates.NullTests.{eval_is_null-truth}
use vexq.Exec.Like.{like_match_iff, like_match, Matches}
use vexq.Storage.Bitmap.Laws.{Covers, null_at}

abbrev row_numbers : Column
row_numbers = record {
  values = 0 ∷ 1 ∷ 2 ∷ 3 ∷ 4 ∷ 5 ∷ 6 ∷ 7 ∷ 8 ∷ 9 ∷ [];
  nulls = 0xFB ∷ 0x03 ∷ [];
}

abbrev threes : Column
threes = record { values = 3 ∷ 3 ∷ 3 ∷ 3 ∷ 3 ∷ 3 ∷ 3 ∷ 3 ∷ 3 ∷ 3 ∷ []; nulls = 0xFF ∷ 0x03 ∷ [] }

row_numbers-IsColumn : IsColumn 10 row_numbers
row_numbers-IsColumn = record {
  count = refl;
  covers = record { bytes = (omega arith, (omega arith, tt)); enough = omega arith };
}

threes-IsColumn : IsColumn 10 threes
threes-IsColumn = record {
  count = refl;
  covers = record { bytes = (omega arith, (omega arith, tt)); enough = omega arith };
}

-- `n < 3`: rows 0 and 1 are TRUE, and row 2 is NULL.
abbrev below_three : BoolVector
below_three = record { bits = 3 ∷ 0 ∷ []; null_bitmap = 0xFB ∷ 0x03 ∷ []; rows = 10 }

eval_cmp_run : eval_cmp int64_order int64_kind bin_lt row_numbers threes 10 ≡ ok below_three
unfolding eval_cmp index is_null_bit bit_is_zero set_flag set_null_bit clear_bit
eval_cmp_run = refl

eval_cmp-truth_example :
    Yields 10 (eval_cmp int64_order int64_kind bin_lt row_numbers threes 10) (λ j.
      compare_values
        (cmp (order_of int64_order int64_kind) bin_lt)
        (value_at row_numbers j)
        (value_at threes j))
eval_cmp-truth_example =
    eval_cmp-truth int64_order int64_kind bin_lt row_numbers threes 10 row_numbers-IsColumn
      threes-IsColumn

below_three-HasRows : HasRows 10 below_three
below_three-HasRows = record {
  count = refl;
  bit_bytes = (omega arith, (omega arith, tt));
  bit_size = refl;
  null_bytes = (omega arith, (omega arith, tt));
  null_size = refl;
}

-- Row 1 is TRUE, all others FALSE.
abbrev second_row : BoolVector
second_row = record { bits = 2 ∷ 0 ∷ []; null_bitmap = 0xFF ∷ 0x03 ∷ []; rows = 10 }

second_row-HasRows : HasRows 10 second_row
second_row-HasRows = record {
  count = refl;
  bit_bytes = (omega arith, (omega arith, tt));
  bit_size = refl;
  null_bytes = (omega arith, (omega arith, tt));
  null_size = refl;
}

abbrev both : List BoolVector
both = below_three ∷ second_row ∷ []

eval_and-truth_example :
    Yields 10 (eval_and 10 both) (λ j. foldl kleene_and (some true) (map (λ c. truth c j) both))
eval_and-truth_example = eval_and-truth 10 both (below_three-HasRows, (second_row-HasRows, tt))

eval_or-truth_example :
    Yields 10 (eval_or 10 both) (λ j. foldl kleene_or (some false) (map (λ c. truth c j) both))
eval_or-truth_example = eval_or-truth 10 both (below_three-HasRows, (second_row-HasRows, tt))

abbrev modes : List ℕ
modes = 0 ∷ 1 ∷ 0 ∷ []

abbrev mode_nulls : Bytes
mode_nulls = 5 ∷ []

mode_nulls-Covers : Covers mode_nulls 3
mode_nulls-Covers = record { bytes = (omega arith, tt); enough = omega arith }

-- `mode <> 'RAIL'`, where the dictionary has no RAIL: the NULL row 1 is TRUE too.
missing_literal :
    eval_string_eq modes mode_nulls true none true
    ≡ ok (record { bits = 7 ∷ []; null_bitmap = 7 ∷ []; rows = 3 })
unfolding eval_string_eq copy_bytes
missing_literal = refl

eval_string_eq-truth_example :
    Yields 3
      (eval_string_eq modes mode_nulls true none true)
      (string_eq_answer modes mode_nulls none true)
eval_string_eq-truth_example = eval_string_eq-truth modes mode_nulls none true mode_nulls-Covers

eval_is_null-truth_example :
    Yields 3 (eval_is_null false mode_nulls 3) (λ j. some (null_at mode_nulls j))
eval_is_null-truth_example = eval_is_null-truth false mode_nulls 3 mode_nulls-Covers

like_match_iff_example :
    (like_match (codes "%al_") (codes "metals") ≡ true) ↔ Matches (codes "%al_") (codes "metals")
like_match_iff_example = like_match_iff (codes "%al_") (codes "metals")

-- A batch of ten rows, and a predicate that answers with `second_row`.
abbrev ten_rows : Batch ℕ
ten_rows = record { vectors = 0; sel_vec = none; rows = 10 }

abbrev odd_rows : Batch ℕ
odd_rows = record { vectors = 0; sel_vec = some (3 ∷ 5 ∷ []); rows = 2 }

abbrev pick : Batch ℕ → BoolVector
pick b = second_row

-- `n IN (3, NULL)` on the first three rows.
eval_in_int64-truth_example :
    Yields 3
      (eval_in int64_order
        (int64_vector (3 ∷ 4 ∷ 5 ∷ []) mode_nulls)
        (map int64_literal (3 ∷ []))
        true)
      (λ j.
        if null_at mode_nulls j
        then none
        else if occurs (get_or (3 ∷ 4 ∷ 5 ∷ []) j 0) (3 ∷ [])
        then some true
        else if true
        then none
        else some false)
eval_in_int64-truth_example =
    eval_in_int64-truth int64_order (3 ∷ 4 ∷ 5 ∷ []) mode_nulls (3 ∷ []) true mode_nulls-Covers
