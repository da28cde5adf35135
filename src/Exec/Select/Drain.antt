-- ===== src/Exec/Select/Drain.antt =====
-- exec/filter.go: the calls of `Filter.Next` until it answers nil, as an operator above a filter
-- makes them.
use vexq.Prelude.{Result, ok, err, panic, ℕ, zero, suc, Option, none, some, List, [], ◌∷◌, map}
use mathlib.Core.Option
use vexq.Exec.Limit.{Batch}
use vexq.Exec.Vector.{BoolVector}
use vexq.Exec.Select.{filter_next, kept, survivors, Out}

module _ {V : Type 0} (eval : Batch V → Result BoolVector) where
  -- What the calls give, after one that gave `out`, where `rest` makes the calls that follow.
  continue_with :
      (List (Result (Batch V)) → Option (List (Batch V))) → Out eval → Option (List (Batch V))
  continue_with rest (ok none, child) = some []
  continue_with rest (ok (some b), child) = Option.map (◌∷◌ b) (rest child)
  continue_with rest (err e, child) = none
  continue_with rest (panic, child) = none

  -- The batches of the calls of `Next` until nil, of at most so many calls.
  pub drain : ℕ → List (Result (Batch V)) → Option (List (Batch V))
  unfolding continue_with
  drain zero child = none
  drain (suc n) child = continue_with (drain n) (filter_next eval child)

module _ {V : Type 0} (eval : Batch V → Result BoolVector) (pred : Batch V → BoolVector) where
  with_survivors : Batch V → List ℕ → List (Batch V) → List (Batch V)
  with_survivors b [] out = out
  with_survivors b (i ∷ sel) out = kept eval b (i ∷ sel) ∷ out

  -- Each batch cut down to its survivors, without the batches that have none.
  pub filtered : List (Batch V) → List (Batch V)
  unfolding with_survivors
  filtered [] = []
  filtered (b ∷ bs) = with_survivors b (survivors eval pred b) (filtered bs)
