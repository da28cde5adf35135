-- ===== src/ExecSamples.antt =====
-- The operators' theorems at concrete inputs.
use vexq.Prelude.{length, List, drop, ok, ℕ, ◌≡◌, refl, none, some, [], ◌∷◌, map, arith}
use vexq.Prelude.{Bytes, codes, bytes_eq, Result, err, panic, none, Option, ap, subst, All}
use vexq.Encoding.{to_le}
use vexq.Storage.Bitmap.{index}
use vexq.Exec.Distinct.{Cell, null_cell, text_cell, number_cell, key_of, select_new}
use vexq.Exec.Distinct.{build_key}
use vexq.Exec.Distinct.Fresh.{IsKey, Selects, select_new-Selects}
use vexq.Prelude.{zero, suc}
use vexq.Exec.Distinct.Keys.{CellFits, key_of_injective}
use vexq.Exec.Limit.{Batch}
use vexq.Exec.Limit.Rows.{IsValid, indices}
use vexq.Exec.Limit.Cut.{Yields, limited, all_rows, next-Yields}

-- Three rows, all selected, and four of which two are.
abbrev three_rows : Batch ℕ
three_rows = record { vectors = 10; sel_vec = none; rows = 3 }

abbrev two_selected : Batch ℕ
two_selected = record { vectors = 20; sel_vec = some (1 ∷ 3 ∷ []); rows = 2 }

three_rows-IsValid : IsValid three_rows
unfolding indices
three_rows-IsValid = record { count = refl; fits = omega arith }

two_selected-IsValid : IsValid two_selected
two_selected-IsValid = record { count = refl; fits = omega arith }

-- OFFSET 2 LIMIT 2: the last row of the first batch and the first of the second.
cut_rows :
    limited (some 2) (drop 2 (all_rows (three_rows ∷ two_selected ∷ []))) ≡ (10, 2) ∷ (20, 1) ∷ []
unfolding indices
cut_rows = refl

next-Yields_example :
    Yields
      (record { child = map ok (three_rows ∷ two_selected ∷ []); remaining = some 2; skip = 2 })
      (limited (some 2) (drop 2 (all_rows (three_rows ∷ two_selected ∷ []))))
next-Yields_example =
    next-Yields (three_rows ∷ two_selected ∷ []) (some 2) 2
      (three_rows-IsValid, (two_selected-IsValid, tt))

-- An INT64 column and a STRING column, of which the rows 0 and 2 are alike.
abbrev ship_modes : List (List Cell)
ship_modes =
    (number_cell 7 ∷ null_cell ∷ number_cell 7 ∷ [])
    ∷ (text_cell (codes "AIR") ∷ text_cell (codes "AIR") ∷ text_cell (codes "AIR") ∷ [])
    ∷ []

abbrev kept_rows : Result (List ℕ × List Bytes) → Option (List ℕ)
kept_rows (ok (kept, seen)) = some kept
kept_rows (err e) = none
kept_rows panic = none

two_kept : kept_rows (select_new ship_modes (0 ∷ 1 ∷ 2 ∷ []) []) ≡ some (0 ∷ 1 ∷ [])
unfolding select_new index to_le bytes_eq
two_kept = refl

same_row : List Cell
same_row = number_cell 7 ∷ text_cell (codes "AIR") ∷ []

same_row_lem : number_cell 7 ∷ text_cell (codes "AIR") ∷ [] ≡ same_row
unfolding same_row
same_row_lem = refl

key_of_injective_example : number_cell 7 ∷ text_cell (codes "AIR") ∷ [] ≡ same_row
key_of_injective_example =
    key_of_injective (number_cell 7 ∷ text_cell (codes "AIR") ∷ []) same_row
      (omega arith, (omega arith, tt))
      (subst (All CellFits) same_row_lem (omega arith, (omega arith, tt))) (ap length same_row_lem)
      (ap (key_of []) same_row_lem)

-- The keys of the rows of `ship_modes`.
abbrev mode_key : ℕ → Bytes
mode_key (suc zero) = key_of [] (null_cell ∷ text_cell (codes "AIR") ∷ [])
mode_key _ = key_of [] (number_cell 7 ∷ text_cell (codes "AIR") ∷ [])

mode_keys : All (IsKey ship_modes mode_key) (0 ∷ 1 ∷ 2 ∷ [])
unfolding build_key
mode_keys = ((refl, omega arith), ((refl, omega arith), ((refl, omega arith), tt)))

select_new-Selects_example :
    Selects mode_key (0 ∷ 1 ∷ 2 ∷ []) [] (select_new ship_modes (0 ∷ 1 ∷ 2 ∷ []) [])
select_new-Selects_example = select_new-Selects ship_modes mode_key (0 ∷ 1 ∷ 2 ∷ []) [] mode_keys
