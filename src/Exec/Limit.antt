-- ===== src/Exec/Limit.antt =====
-- exec/batch.go and exec/limit.go: a batch's rows, and the operator that cuts the row sequence.
pub mod Rows
pub mod Cut
use vexq.Prelude.{
  ltb, leb, ◌==◌, if◌then◌else◌, Result, ok, err, panic, ◌>>=◌, ℕ, zero, suc, ◌+◌, ◌-◌, ◌%◌, ◌^◌,
  Bool, false, Option, none, some, List, [], ◌∷◌,
}
use vexq.Storage.Dict.{slice}

-- A batch of some vectors: the selected row indices, if there is a selection, and the logical
-- length. An index is a uint16.
pub record Batch (V : Type 0) : Type 0 where
  pub vectors : V
  pub sel_vec : Option (List ℕ)
  pub rows : ℕ

-- A child that yields these results and then nil, `remaining` (`none` is negative, without a limit)
-- and `skip`.
pub record Limit (V : Type 0) : Type 0 where
  pub child : List (Result (Batch V))
  pub remaining : Option ℕ
  pub skip : ℕ

-- `n` indices from `from` on, as `keepRows` numbers them.
unfoldable pub sequential : ℕ → ℕ → List ℕ
sequential from zero = []
sequential from (suc n) = (from % 2 ^ 16) ∷ sequential (from + 1) n

-- `l.remaining == 0`.
pub is_spent : Option ℕ → Bool
is_spent none = false
is_spent (some r) = r == 0

-- A result of `Next`: a batch, nil or an error; and the operator after it.
abbrev pub Step : Type 0 → Type 0
Step V = Result (Option (Batch V)) × Limit V

module _ {V : Type 0} where
  -- Rows `from` to `from + n` of the batch's logical rows.
  unfoldable pub keep_rows : Batch V → ℕ → ℕ → Result (Batch V)
  unfolding sequential slice
  keep_rows batch from n = elim batch.sel_vec [
    | some s ↦ do
      kept ← slice s from (from + n)
      ok (record batch { sel_vec = some kept; rows = n })
    | none ↦ ok (record batch { sel_vec = some (sequential from n); rows = n })
  ]

  -- The batch goes out as a whole.
  pub pass : Batch V → List (Result (Batch V)) → Option ℕ → Step V
  pass batch child remaining =
      (ok (some batch), record { child = child; remaining = remaining; skip = 0 })

  pub cut : Result (Batch V) → List (Result (Batch V)) → Option ℕ → Step V
  unfolding pass
  cut (ok batch) child remaining = pass batch child remaining
  cut (err e) child remaining = (err e, record { child = child; remaining = remaining; skip = 0 })
  cut panic child remaining = (panic, record { child = child; remaining = remaining; skip = 0 })

  -- What `Next` does once nothing is left to skip.
  unfoldable pub emit : Batch V → List (Result (Batch V)) → Option ℕ → Step V
  unfolding pass cut keep_rows
  emit batch child none = pass batch child none
  emit batch child (some r) =
      if leb batch.rows r
      then pass batch child (some (r - batch.rows))
      else cut (keep_rows batch 0 r) child (some 0)

  pub emit_kept : Result (Batch V) → List (Result (Batch V)) → Option ℕ → Step V
  unfolding emit
  emit_kept (ok batch) child remaining = emit batch child remaining
  emit_kept (err e) child remaining =
      (err e, record { child = child; remaining = remaining; skip = 0 })
  emit_kept panic child remaining =
      (panic, record { child = child; remaining = remaining; skip = 0 })

  -- The loop of `Next`, a round for each batch of the child.
  unfoldable pub next_from : List (Result (Batch V)) → Option ℕ → ℕ → Step V
  unfolding is_spent emit_kept
  next_from [] remaining skip = (ok none, record { child = []; remaining = remaining; skip = skip })
  next_from (r ∷ child) remaining skip =
      if is_spent remaining
      then (ok none, record { child = r ∷ child; remaining = remaining; skip = skip })
      else elim r [
        | err e ↦ (err e, record { child = child; remaining = remaining; skip = skip })
        | panic ↦ (panic, record { child = child; remaining = remaining; skip = skip })
        | ok batch ↦
            let skipped = next_from child remaining (skip - batch.rows) in
            if ltb 0 skip
            then (if leb batch.rows skip
                then skipped
                else emit_kept (keep_rows batch skip (batch.rows - skip)) child remaining)
            else emit batch child remaining
      ]

  unfoldable pub next : Limit V → Step V
  unfolding next_from
  next l = next_from l.child l.remaining l.skip
