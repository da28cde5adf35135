-- ===== src/Exec/Sort/Operator.antt =====
-- exec/sort.go (`ExternalSort`): the operator. `sort.SliceStable` is a parameter.
use vexq.Prelude.{
  leb, if◌then◌else◌, length, take, drop, no_sort_keys, Result, ok, err, panic, ℕ, ◌+◌, ◌-◌, min,
  Bool, true, false, Option, none, some, List, [], ◌∷◌, ◌++◌,
}
use vexq.Storage.Schema.{Field, block_rows}
use vexq.Exec.Limit.{Batch}
use vexq.Exec.Limit.Rows.{selected}
use vexq.Exec.Compare.{Order}
use vexq.Exec.Predicates.{Vector}
use vexq.Exec.Sort.{SortKey, SortRow, less, sort_rows}
use vexq.Exec.Sort.Emit.{emit_batch}

-- What a step says that has no result but its success.
abbrev pub Done : Type 0
Done = Unit

abbrev pub Child : Type 0
Child = List (Result (Batch (List Vector)))

-- A child that yields these results and then nil.
pub record ExternalSort : Type 0 where
  pub child : Child
  pub fields : List Field
  pub keys : List SortKey
  pub rows : List SortRow
  pub is_done : Bool
  pub emit_pos : ℕ

-- Without a key there is nothing to sort by.
unfoldable pub new_external_sort : Child → List Field → List SortKey → Result ExternalSort
new_external_sort child fields [] = err no_sort_keys
new_external_sort child fields (key ∷ keys) = ok (record {
  child = child;
  fields = fields;
  keys = key ∷ keys;
  rows = [];
  is_done = false;
  emit_pos = 0;
})

-- The rows gathered before an error stay.
add_rows :
    Child
    → List SortRow
    → (List SortRow → Result Done × (Child × List SortRow))
    → Result (List SortRow)
    → Result Done × (Child × List SortRow)
add_rows child rows later (ok new) = later (rows ++ new)
add_rows child rows later (err e) = (err e, (child, rows))
add_rows child rows later panic = (panic, (child, rows))

unfoldable pub consume : List Field → Child → List SortRow → Result Done × (Child × List SortRow)
unfolding sort_rows add_rows
consume fields [] rows = (ok tt, ([], rows))
consume fields (err e ∷ child) rows = (err e, (child, rows))
consume fields (panic ∷ child) rows = (panic, (child, rows))
consume fields (ok batch ∷ child) rows =
    add_rows child rows (consume fields child) (sort_rows fields batch.vectors (selected batch))

abbrev pub Out : Type 0
Out = Result (Option (Batch (List Vector))) × ExternalSort

handed_out : Result (Batch (List Vector)) → ExternalSort → ℕ → Out
handed_out (ok batch) s end = (ok (some batch), record s { emit_pos = end })
handed_out (err e) s end = (err e, s)
handed_out panic s end = (panic, s)

unfoldable pub emit_next : ExternalSort → Out
unfolding emit_batch handed_out
emit_next s =
    let end = min (s.emit_pos + block_rows) (length s.rows) in
    let batch = emit_batch s.fields (take (end - s.emit_pos) (drop s.emit_pos s.rows)) in
    if leb (length s.rows) s.emit_pos then (ok none, s) else handed_out batch s end

module _ (floats : Order) (is_nan : ℕ → Bool)
    (slice_stable : (SortRow → SortRow → Result Bool) → List SortRow → Result (List SortRow)) where
  unfoldable pub sorted : ExternalSort → Result (List SortRow) → Result Done × ExternalSort
  sorted s (ok rows) = (ok tt, record s { rows = rows })
  sorted s (err e) = (err e, s)
  sorted s panic = (panic, s)

  unfoldable pub consumed :
      ExternalSort → Result Done × (Child × List SortRow) → Result Done × ExternalSort
  unfolding sorted less
  consumed s (ok _, (child, rows)) =
      sorted (record s { child = child; rows = rows })
        (slice_stable (less floats is_nan s.fields s.keys) rows)
  consumed s (err e, (child, rows)) = (err e, record s { child = child; rows = rows })
  consumed s (panic, (child, rows)) = (panic, record s { child = child; rows = rows })

  unfoldable pub consume_and_sort : ExternalSort → Result Done × ExternalSort
  unfolding consumed consume
  consume_and_sort s = consumed s (consume s.fields s.child s.rows)

  after_sort : Result Done × ExternalSort → Out
  unfolding emit_next
  after_sort (ok _, s) = emit_next (record s { is_done = true })
  after_sort (err e, s) = (err e, s)
  after_sort (panic, s) = (panic, s)

  unfoldable pub sort_next : ExternalSort → Out
  unfolding consume_and_sort after_sort emit_next
  sort_next s =
      let emitted = emit_next s in if s.is_done then emitted else after_sort (consume_and_sort s)
