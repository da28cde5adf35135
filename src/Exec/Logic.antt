-- ===== src/Exec/Logic.antt =====
-- exec/expr.go (`AndExpr`, `OrExpr`, `NotExpr`): three-valued logic on BOOL columns, a byte of rows at
-- a time.
pub mod Kleene
pub mod Trees
use vexq.Storage.Bitmap.{index}
use vexq.Storage.Bitmap.Bits.{bit_not}
use vexq.Storage.Rle.{store}
use vexq.Exec.Vector.{copy_bytes, set_all_valid, BoolVector, acquire_bool_vector}
use vexq.Prelude.{◌>>=◌, set, Result, ok, ℕ, zero, suc, ◌+◌, ◌/◌, List, [], ◌∷◌}
use Prim.Native.Nat.{bit_and, bit_or}

-- The bits and the validity of eight rows, from those of the operands.
unfoldable pub and_byte : ℕ → ℕ → ℕ → ℕ → ℕ × ℕ
and_byte lb ln rb rn =
    let t = bit_and (bit_and lb ln) (bit_and rb rn) in
    let f = bit_or (bit_and (bit_not lb) ln) (bit_and (bit_not rb) rn) in (t, bit_or t f)

unfoldable pub or_byte : ℕ → ℕ → ℕ → ℕ → ℕ × ℕ
or_byte lb ln rb rn =
    let t = bit_or (bit_and lb ln) (bit_and rb rn) in
    let f = bit_and (bit_and (bit_not lb) ln) (bit_and (bit_not rb) rn) in (t, bit_or t f)

-- The loop over the bytes, from byte `i` on; `out` is folded in place.
unfoldable pub fold_bytes :
    (ℕ → ℕ → ℕ → ℕ → ℕ × ℕ) → ℕ → ℕ → BoolVector → BoolVector → Result BoolVector
fold_bytes f zero i out child = ok out
fold_bytes f (suc left) i out child = do
  lb ← index out.bits i
  ln ← index out.null_bitmap i
  rb ← index child.bits i
  rn ← index child.null_bitmap i
  let (t, v) = f lb ln rb rn
  fold_bytes f left (i + 1)
      (record out { bits = set out.bits i t; null_bitmap = set out.null_bitmap i v }) child

unfoldable pub fold_children :
    (ℕ → ℕ → ℕ → ℕ → ℕ × ℕ) → ℕ → BoolVector → List BoolVector → Result BoolVector
unfolding fold_bytes
fold_children f n out [] = ok out
fold_children f n out (c ∷ children) = do
  out ← fold_bytes f ((n + 7) / 8) 0 out c
  fold_children f n out children

-- The first child is copied into this node's own vector, and the others are folded into it.
unfoldable pub combine : (ℕ → ℕ → ℕ → ℕ → ℕ × ℕ) → BoolVector → List BoolVector → Result BoolVector
unfolding fold_children acquire_bool_vector copy_bytes
combine f first children =
    let n = first.rows in
    let out = acquire_bool_vector n in
    fold_children f n
      (record out {
        bits = copy_bytes out.bits first.bits;
        null_bitmap = copy_bytes out.null_bitmap first.null_bitmap;
      })
      children

-- AND and OR of the children's values, for a batch on which `n` rows are evaluated.
unfoldable pub eval_and : ℕ → List BoolVector → Result BoolVector
unfolding combine set_all_valid
eval_and n [] =
    let out = acquire_bool_vector n in
    ok (record out {
      bits = set_all_valid out.bits n;
      null_bitmap = set_all_valid out.null_bitmap n;
    })
eval_and n (c ∷ children) = combine and_byte c children

unfoldable pub eval_or : ℕ → List BoolVector → Result BoolVector
unfolding combine set_all_valid
eval_or n [] =
    let out = acquire_bool_vector n in
    ok (record out { null_bitmap = set_all_valid out.null_bitmap n })
eval_or n (c ∷ children) = combine or_byte c children

-- The loop of `NotExpr`, from byte `i` on.
unfoldable pub not_bytes : ℕ → ℕ → BoolVector → BoolVector → Result BoolVector
unfolding store
not_bytes zero i out child = ok out
not_bytes (suc left) i out child = do
  n ← index child.null_bitmap i
  nulls ← store out.null_bitmap i n
  b ← index child.bits i
  bits ← store out.bits i (bit_and (bit_not b) n)
  not_bytes left (i + 1) (record out { bits = bits; null_bitmap = nulls }) child

unfoldable pub eval_not : BoolVector → Result BoolVector
unfolding not_bytes acquire_bool_vector
eval_not child = not_bytes ((child.rows + 7) / 8) 0 (acquire_bool_vector child.rows) child
