-- ===== src/Exec/Sort/Emit.antt =====
-- exec/sort.go (`emitBatch`): sorted rows as the vectors of a batch.
use vexq.Prelude.{
  ◌>>=◌, ◌==◌, if◌then◌else◌, codes, length, replicate, Bytes, u32, Result, ok, err, panic, ℕ, ◌+◌,
  ◌/◌, ◌%◌, not, none, List, [], ◌∷◌,
}
use vexq.Storage.Bitmap.{index, set_valid_bit}
use vexq.Storage.Dict.{DictBuilder, new_dict_builder, add, marshal, unmarshal_dictionary}
use vexq.Storage.Schema.{Field, type_float64, type_bool, type_string, type_date}
use vexq.Exec.Limit.{Batch}
use vexq.Exec.Vector.{BoolVector, set_value}
use vexq.Exec.Predicates.{
  Vector, int64_vector, float64_vector, date_vector, string_vector, bool_vector,
}
use vexq.Exec.Scan.{code_string}
use vexq.Exec.Sort.{SortRow}

-- The loops of `emitBatch`, from row `i` on: a NULL keeps its zero and its cleared bit.
emit_words : (ℕ → ℕ) → ℕ → ℕ → List SortRow → Bytes → Result (List ℕ × Bytes)
emit_words conv c i [] nulls = ok ([], nulls)
emit_words conv c i (row ∷ rows) nulls = do
  null ← index row.nulls c
  value ← (if null then ok 0 else do v ← index row.values c; ok (conv v))
  nulls ← (if null then ok nulls else set_valid_bit nulls i)
  (values, nulls) ← emit_words conv c (i + 1) rows nulls
  ok (value ∷ values, nulls)

emit_bools : ℕ → ℕ → List SortRow → BoolVector → Result BoolVector
emit_bools c i [] out = ok out
emit_bools c i (row ∷ rows) out = do
  null ← index row.nulls c
  out ←
      (if null then ok out else do
        v ← index row.values c
        out ← set_value out i (not (v == 0))
        nulls ← set_valid_bit out.null_bitmap i
        ok (record out { null_bitmap = nulls }))
  emit_bools c (i + 1) rows out

emit_codes : ℕ → ℕ → List SortRow → DictBuilder → Bytes → Result (List ℕ × (DictBuilder × Bytes))
emit_codes c i [] db nulls = ok ([], (db, nulls))
emit_codes c i (row ∷ rows) db nulls = do
  null ← index row.nulls c
  (db, code) ← (if null then ok (db, 0) else do s ← index row.str_values c; ok (add db s))
  nulls ← (if null then ok nulls else set_valid_bit nulls i)
  (codes, rest) ← emit_codes c (i + 1) rows db nulls
  ok (code ∷ codes, rest)

-- The strings of some codes; a dictionary that does not parse is dropped, and its strings are empty.
new_string_vector : DictBuilder → List ℕ → Bytes → Vector
unfolding code_string
new_string_vector db codes nulls = string_vector strings (length codes) nulls
  where
    strings : ℕ → Result Bytes
    strings i = elim (unmarshal_dictionary (marshal db)) [
      | ok dict ↦ code_string dict codes i
      | err e ↦ ok []
      | panic ↦ panic
    ]

emit_word_vector : (List ℕ → Bytes → Vector) → (ℕ → ℕ) → ℕ → List SortRow → Bytes → Result Vector
unfolding emit_words
emit_word_vector vector conv c rows nulls = do
  (values, nulls) ← emit_words conv c 0 rows nulls
  ok (vector values nulls)

emit_column : ℕ → ℕ → List SortRow → Result Vector
unfolding emit_word_vector emit_bools emit_codes new_string_vector
emit_column t c rows =
    let size = (length rows + 7) / 8 in
    let zeros = replicate size 0 in
    if t == type_float64
    then emit_word_vector float64_vector (λ v. v) c rows zeros
    else if t == type_date
    then emit_word_vector date_vector (λ v. v % u32) c rows zeros
    else if t == type_string
    then (do
      (codes, rest) ← emit_codes c 0 rows new_dict_builder zeros
      ok (new_string_vector rest.0 codes rest.1))
    else if t == type_bool
    then (do
      out ← emit_bools c 0 rows (record { bits = zeros; null_bitmap = zeros; rows = length rows })
      ok (bool_vector out))
    else emit_word_vector int64_vector (λ v. v) c rows zeros

emit_columns : ℕ → List Field → List SortRow → Result (List Vector)
unfolding emit_column
emit_columns c [] rows = ok []
emit_columns c (f ∷ fields) rows = do
  v ← emit_column f.data_type c rows
  vs ← emit_columns (c + 1) fields rows
  ok (v ∷ vs)

unfoldable pub emit_batch : List Field → List SortRow → Result (Batch (List Vector))
unfolding emit_columns
emit_batch fields rows = do
  vs ← emit_columns 0 fields rows
  ok (record { vectors = vs; sel_vec = none; rows = length rows })
