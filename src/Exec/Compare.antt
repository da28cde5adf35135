-- ===== src/Exec/Compare.antt =====
-- exec/expr.go (`evalCmp` and its kernels): the comparison of two columns, eight rows to a byte.
pub mod Kernel
pub mod Meaning
use vexq.Storage.Bitmap.{is_null_bit, index}
use vexq.Exec.Vector.{set_flag, BoolVector, acquire_bool_vector}
use vexq.Storage.Rle.{store}
use vexq.Prelude.{
  ◌>>=◌, ◌==◌, if◌then◌else◌, length, get_or, Bytes, ltb_i64, ltb_i32, Result, ok, ℕ, zero, suc,
  ◌+◌, ◌*◌, ◌/◌, ◌%◌, Bool, not, List, [], ◌∷◌,
}
use Prim.Native.Nat.{bit_and}

pub data BinOpKind : Type 0 where
  bin_eq bin_ne bin_lt bin_le bin_gt bin_ge : BinOpKind

-- The comparisons of a column's type; `le` is its own, since a NaN is neither below nor equal.
pub record Order : Type 0 where
  pub eq : ℕ → ℕ → Bool
  pub lt : ℕ → ℕ → Bool
  pub le : ℕ → ℕ → Bool

-- Int64 and date values are bit patterns of 64 and 32 bits.
abbrev pub int64_order : Order
int64_order = record { eq = λ a b. a == b; lt = ltb_i64; le = λ a b. not (ltb_i64 b a) }

abbrev pub date_order : Order
date_order = record { eq = λ a b. a == b; lt = ltb_i32; le = λ a b. not (ltb_i32 b a) }

-- `cmpInt64`, `cmpFloat64` and `cmpInt32`.
unfoldable pub cmp : Order → BinOpKind → ℕ → ℕ → Bool
cmp o bin_eq a b = o.eq a b
cmp o bin_ne a b = not (o.eq a b)
cmp o bin_lt a b = o.lt a b
cmp o bin_le a b = o.le a b
cmp o bin_gt a b = o.lt b a
cmp o bin_ge a b = o.le b a

-- The output's bitmap from byte `i` on; a bitmap that is too short counts as all valid.
unfoldable pub merge_nulls : Bytes → Bytes → ℕ → ℕ → Bytes
merge_nulls la ra i zero = []
merge_nulls la ra i (suc left) =
    bit_and (get_or la i 0xFF) (get_or ra i 0xFF) ∷ merge_nulls la ra (i + 1) left

module _ (test : ℕ → ℕ → Bool) (lv rv : List ℕ) where
  -- The byte of `k` rows from row `i` on: the lowest bit is row `i`'s.
  unfoldable pub pack_rows : ℕ → ℕ → Result ℕ
  pack_rows zero i = ok 0
  pack_rows (suc k) i = do
    a ← index lv i
    b ← index rv i
    higher ← pack_rows k (i + 1)
    ok ((if test a b then 1 else 0) + 2 * higher)

  -- Whole bytes, from byte `b` on.
  unfoldable pub packed_loop : ℕ → ℕ → Bytes → Bytes → Result Bytes
  unfolding pack_rows store
  packed_loop zero b bits mask = ok bits
  packed_loop (suc left) b bits mask = do
    byte ← pack_rows 8 (8 * b)
    m ← index mask b
    bits ← store bits b (bit_and byte m)
    packed_loop left (b + 1) bits mask

  -- The rows that fill no byte, from row `i` on.
  unfoldable pub tail_loop : ℕ → ℕ → Bytes → Bytes → Result Bytes
  tail_loop zero i bits mask = ok bits
  tail_loop (suc left) i bits mask = do
    null ← is_null_bit mask i
    bits ← (if null then ok bits else do a ← index lv i; b ← index rv i; set_flag bits i (test a b))
    tail_loop left (i + 1) bits mask

  unfoldable pub eval_cmp_rows : BoolVector → ℕ → Result BoolVector
  unfolding packed_loop tail_loop
  eval_cmp_rows out n = do
    bits ← packed_loop (n / 8) 0 out.bits out.null_bitmap
    bits ← tail_loop (n % 8) (8 * (n / 8)) bits out.null_bitmap
    ok (record out { bits = bits })

-- A column of one of the three types that compare.
pub record Column : Type 0 where
  pub values : List ℕ
  pub nulls : Bytes

-- The kernels of the three types; float64 values compare by the parameter `fl`.
unfoldable pub eval_cmp_int64 : BinOpKind → List ℕ → List ℕ → BoolVector → ℕ → Result BoolVector
unfolding cmp eval_cmp_rows
eval_cmp_int64 op lv rv out n = eval_cmp_rows (cmp int64_order op) lv rv out n

unfoldable pub eval_cmp_float64 :
    Order → BinOpKind → List ℕ → List ℕ → BoolVector → ℕ → Result BoolVector
unfolding cmp eval_cmp_rows
eval_cmp_float64 fl op lv rv out n = eval_cmp_rows (cmp fl op) lv rv out n

unfoldable pub eval_cmp_date : BinOpKind → List ℕ → List ℕ → BoolVector → ℕ → Result BoolVector
unfolding cmp eval_cmp_rows
eval_cmp_date op lv rv out n = eval_cmp_rows (cmp date_order op) lv rv out n

-- The type of both operands.
pub data ColumnKind : Type 0 where
  int64_kind float64_kind date_kind : ColumnKind

unfoldable pub cmp_kernel :
    Order → ColumnKind → BinOpKind → List ℕ → List ℕ → BoolVector → ℕ → Result BoolVector
unfolding eval_cmp_int64 eval_cmp_float64 eval_cmp_date
cmp_kernel fl int64_kind op = eval_cmp_int64 op
cmp_kernel fl float64_kind op = eval_cmp_float64 fl op
cmp_kernel fl date_kind op = eval_cmp_date op

-- `evalCmp` on two columns of one type.
unfoldable pub eval_cmp : Order → ColumnKind → BinOpKind → Column → Column → ℕ → Result BoolVector
unfolding acquire_bool_vector merge_nulls cmp_kernel
eval_cmp fl kind op l r n =
    let out = acquire_bool_vector n in
    let merged = merge_nulls l.nulls r.nulls 0 (length out.null_bitmap) in
    cmp_kernel fl kind op l.values r.values (record out { null_bitmap = merged }) n
