-- ===== src/Exec/Compare/Meaning.antt =====
-- `evalCmp` on columns, row by row.
use vexq.Exec.Compare.Kernel.{tail_loop_lem, packed_loop_lem}
use vexq.Storage.Bitmap.Laws.{null_at-zeros, All-zeros, All-get_or, Covers, null_at}
use vexq.Exec.Compare.{cmp, BinOpKind, Order, eval_cmp_rows, merge_nulls, Column, eval_cmp}
use vexq.Prelude.{
  if◌then◌else◌, length, get_or, replicate, length-replicate, All, Bytes, IsByte, ℕ, zero, suc, ◌+◌,
  ◌*◌, ◌/◌, ◌%◌, ◌<◌, ◌≡◌, refl, ap, ◌∙◌, Bool, ◌||◌, Option, none, some, [], ◌∷◌, arith,
}
use vexq.Exec.Compare.{
  cmp_kernel, eval_cmp_rows, int64_order, date_order, ColumnKind, int64_kind, float64_kind,
  date_kind,
}
use Prim.Native.Nat.{bit_and}
use vexq.Prelude.Digits.{bit_and-lt}
use vexq.Storage.Bitmap.Bits.{bit_is_zero-bit_and}
use vexq.Exec.Vector.{truth, acquire_bool_vector, Yields}

-- The value of a row; `none` is NULL.
unfoldable pub value_at : Column → ℕ → Option ℕ
value_at c j = if null_at c.nulls j then none else some (get_or c.values j 0)

-- A comparison with NULL is NULL.
unfoldable pub compare_values : (ℕ → ℕ → Bool) → Option ℕ → Option ℕ → Option Bool
compare_values test (some a) (some b) = some (test a b)
compare_values test (some a) none = none
compare_values test none y = none

-- A column of `n` rows.
pub record IsColumn (n : ℕ) (c : Column) : Type 0 where
  pub count : length c.values ≡ n
  pub covers : Covers c.nulls n

get_or-IsByte : (xs : Bytes) (i : ℕ) → All IsByte xs → get_or xs i 0xFF < 256
get_or-IsByte [] i h = omega arith
get_or-IsByte (x ∷ xs) zero h = h.0
get_or-IsByte (x ∷ xs) (suc i) h = get_or-IsByte xs i h.1

get_or-inside : (xs : Bytes) (i d d' : ℕ) → i < length xs → get_or xs i d ≡ get_or xs i d'
get_or-inside [] i d d' h = absurd (omega arith)
get_or-inside (x ∷ xs) zero d d' h = refl
get_or-inside (x ∷ xs) (suc i) d d' h = get_or-inside xs i d d' (omega arith)

module _ (la ra : Bytes) (hl : All IsByte la) (hr : All IsByte ra) where
  merge_nulls-IsByte : (i left : ℕ) → All IsByte (merge_nulls la ra i left)
  unfolding merge_nulls
  merge_nulls-IsByte i zero = tt
  merge_nulls-IsByte i (suc left) = (
    bit_and-lt 8 _ _ (get_or-IsByte la i hl) (get_or-IsByte ra i hr),
    merge_nulls-IsByte (i + 1) left,
  )

length-merge_nulls : (la ra : Bytes) (i left : ℕ) → length (merge_nulls la ra i left) ≡ left
unfolding merge_nulls
length-merge_nulls la ra i zero = refl
length-merge_nulls la ra i (suc left) = ap suc (length-merge_nulls la ra (i + 1) left)

get_or-merge_nulls :
    (la ra : Bytes) (i left q : ℕ)
    → q < left
    → get_or (merge_nulls la ra i left) q 0
      ≡ bit_and (get_or la (i + q) 0xFF) (get_or ra (i + q) 0xFF)
unfolding merge_nulls
get_or-merge_nulls la ra i zero q h = absurd (omega arith)
get_or-merge_nulls la ra i (suc left) zero h =
    ap (λ k. bit_and (get_or la k 0xFF) (get_or ra k 0xFF)) (omega arith)
get_or-merge_nulls la ra i (suc left) (suc q) h =
    get_or-merge_nulls la ra (i + 1) left q (omega arith)
    ∙ ap (λ k. bit_and (get_or la k 0xFF) (get_or ra k 0xFF)) (omega arith)

-- A row of the result is NULL when it is NULL on either side.
null_at-merge_nulls :
    (n : ℕ) (la ra : Bytes)
    → Covers la n
    → Covers ra n
    → (j : ℕ) → j < n
    → null_at (merge_nulls la ra 0 ((n + 7) / 8)) j ≡ (null_at la j || null_at ra j)
unfolding null_at
null_at-merge_nulls n la ra cl cr j h =
    let q : ℕ = j / 8 in
    let l : get_or la (0 + q) 0xFF ≡ get_or la q 0 =
      ap (λ k. get_or la k 0xFF) (omega arith)
      ∙ get_or-inside la q 0xFF 0 (omega (arith, cl.enough)) in
    let r : get_or ra (0 + q) 0xFF ≡ get_or ra q 0 =
      ap (λ k. get_or ra k 0xFF) (omega arith)
      ∙ get_or-inside ra q 0xFF 0 (omega (arith, cr.enough)) in
    rw (get_or-merge_nulls la ra 0 ((n + 7) / 8) q (omega arith), l, r)
      (bit_is_zero-bit_and (get_or la q 0) (get_or ra q 0) (j % 8) (All-get_or la q cl.bytes)
        (All-get_or ra q cr.bytes) (omega arith))

-- The order of the operands' type.
unfoldable pub order_of : Order → ColumnKind → Order
order_of fl int64_kind = int64_order
order_of fl float64_kind = fl
order_of fl date_kind = date_order

cmp_kernel-rows :
    (fl : Order) (kind : ColumnKind) (op : BinOpKind)
    → cmp_kernel fl kind op ≡ eval_cmp_rows (cmp (order_of fl kind) op)
unfolding cmp_kernel order_of
cmp_kernel-rows fl int64_kind op = refl
cmp_kernel-rows fl float64_kind op = refl
cmp_kernel-rows fl date_kind op = refl

-- The packed comparison of two columns of n rows and of one type does not fail or panic, and row
-- by row it is the comparison of the two values, NULL where one is NULL, for every operator and
-- for row counts that fill no byte.
pub eval_cmp-truth :
    (fl : Order) (kind : ColumnKind) (op : BinOpKind) (l r : Column) (n : ℕ)
    → IsColumn n l
    → IsColumn n r
    → Yields n
        (eval_cmp fl kind op l r n)
        (λ j. compare_values (cmp (order_of fl kind) op) (value_at l j) (value_at r j))
unfolding eval_cmp acquire_bool_vector
eval_cmp-truth fl kind op l r n hl hr =
    let size : ℕ = (n + 7) / 8 in
    let test : ℕ → ℕ → Bool = cmp (order_of fl kind) op in
    let mask : Bytes = merge_nulls l.nulls r.nulls 0 size in
    let covers : Covers mask n = record {
      bytes = merge_nulls-IsByte l.nulls r.nulls hl.covers.bytes hr.covers.bytes 0 size;
      enough = omega (arith, length-merge_nulls l.nulls r.nulls 0 size);
    } in
    let (bits1, e1, d1) =
      packed_loop_lem test l.values r.values n mask covers hl.count hr.count (n / 8) 0
        (replicate size 0) (omega arith)
        (record {
          bytes = All-zeros size;
          size = length-replicate {A = ℕ} size 0;
          rows = λ j hj. null_at-zeros size j ∙ ground arith;
        }) in
    let (bits2, e2, d2) =
      tail_loop_lem test l.values r.values n mask covers hl.count hr.count (n % 8) (8 * (n / 8))
        bits1 (omega arith) d1 in
    (
      record { bits = bits2; null_bitmap = mask; rows = n },
      rw (length-replicate {A = ℕ} size 0, cmp_kernel-rows fl kind op)
          (unfold eval_cmp_rows in rw (e1, e2) refl),
      record {
        count = refl;
        bit_bytes = d2.bytes;
        bit_size = d2.size;
        null_bytes = covers.bytes;
        null_size = length-merge_nulls l.nulls r.nulls 0 size;
      },
      λ j hj.
          let m = null_at-merge_nulls n l.nulls r.nulls hl.covers hr.covers j hj in
          unfold truth value_at compare_values in ground (arith, d2.rows j hj, m),
    )
