-- ===== src/Exec/Logic/Trees.antt =====
-- The results of `AndExpr`, `OrExpr` and `NotExpr`, row by row.
use vexq.Storage.Bitmap.{full_bitmap}
use vexq.Exec.Logic.Kleene.{
  or_byte-Lifts, and_byte-Lifts, fold_children-truth, kleene_not, kleene_and, kleene_or, Lifts,
}
use vexq.Exec.Vector.{
  copy_bytes-same, set_all_valid-zeros, acquire_bool_vector, acquire_bool_vector-HasRows,
  length-full_bitmap, truth, BoolVector, HasRows,
}
use vexq.Storage.Bitmap.Laws.{
  get_or-set, index-get_or, All-set, null_at-zeros, All-get_or, All-zeros, full_bitmap-Covers,
  null_at-full_bitmap, Covers, null_at,
}
use vexq.Exec.Logic.{
  or_byte, fold_children, and_byte, eval_not, copy_bytes, not_bytes, combine, eval_or, eval_and,
}
use vexq.Prelude.{
  ltb, ◌==◌, if◌then◌else◌, length, set, length-set, get_or, replicate, length-replicate, All,
  Bytes, IsByte, ok, ℕ, zero, suc, ◌+◌, ◌/◌, ◌%◌, ◌<◌, ◌≡◌, refl, ap, ◌∙◌, Bool, true, false,
  Option, some, List, [], ◌∷◌, map, foldl, arith,
}
use vexq.Exec.Vector.{Yields}
use vexq.Prelude.Digits.{bit_and-lt}
use Prim.Native.Nat.{bit_and}
use vexq.Storage.Bitmap.Bits.{bit_not, bit_is_zero-bit_and, bit_is_zero-bit_not}

module _ (f : ℕ → ℕ → ℕ → ℕ → ℕ × ℕ) (op : Option Bool → Option Bool → Option Bool) (l : Lifts f op)
    (n : ℕ) where
  combine-truth :
      (first : BoolVector) (children : List BoolVector)
      → HasRows n first
      → All (HasRows n) children
      → Yields n
          (combine f first children)
          (λ j. foldl op (truth first j) (map (λ c. truth c j) children))
  unfolding combine acquire_bool_vector
  combine-truth first children h hs =
      let size : ℕ = (first.rows + 7) / 8 in
      let e : size ≡ (n + 7) / 8 = ap (λ k. (k + 7) / 8) h.count in
      let b : copy_bytes (replicate size 0) first.bits ≡ first.bits =
        copy_bytes-same _ first.bits
          (omega (arith, h.bit_size, e, length-replicate {A = ℕ} size 0)) in
      let v : copy_bytes (replicate size 0) first.null_bitmap ≡ first.null_bitmap =
        copy_bytes-same _ first.null_bitmap
          (omega (arith, h.null_size, e, length-replicate {A = ℕ} size 0)) in
      let (out, r, h', at) = fold_children-truth f op l n first children h hs in
      (out, rw (b, v) (ap (λ k. fold_children f k first children) h.count ∙ r), h', at)

pub truth-full : (n j : ℕ) → j < n → null_at (full_bitmap n) j ≡ false
truth-full n j h = null_at-full_bitmap n j ∙ ground arith

pub full-HasRows :
    (n : ℕ) (bits : Bytes)
    → All IsByte bits
    → length bits ≡ (n + 7) / 8
    → HasRows n (record { bits = bits; null_bitmap = full_bitmap n; rows = n })
full-HasRows n bits b s =
    let c : Covers (full_bitmap n) n = full_bitmap-Covers n in
    record {
      count = refl;
      bit_bytes = b;
      bit_size = s;
      null_bytes = c.bytes;
      null_size = length-full_bitmap n;
    }

-- AND of BOOL columns of n rows succeeds, and each row is the conjunction of the children in
-- three-valued logic; no children is TRUE.
pub eval_and-truth :
    (n : ℕ) (children : List BoolVector)
    → All (HasRows n) children
    → Yields n
        (eval_and n children)
        (λ j. foldl kleene_and (some true) (map (λ c. truth c j) children))
unfolding eval_and acquire_bool_vector truth kleene_and
eval_and-truth n [] h =
    let c : Covers (full_bitmap n) n = full_bitmap-Covers n in
    (
      record { bits = full_bitmap n; null_bitmap = full_bitmap n; rows = n },
      rw (set_all_valid-zeros n) refl,
      full-HasRows n (full_bitmap n) c.bytes (length-full_bitmap n),
      λ j hj. rw (truth-full n j hj) refl,
    )
eval_and-truth n (c ∷ children) (h, hs) =
    combine-truth and_byte kleene_and and_byte-Lifts n c children h hs

-- OR of BOOL columns of n rows succeeds, and each row is the disjunction of the children in
-- three-valued logic; no children is FALSE.
pub eval_or-truth :
    (n : ℕ) (children : List BoolVector)
    → All (HasRows n) children
    → Yields n
        (eval_or n children)
        (λ j. foldl kleene_or (some false) (map (λ c. truth c j) children))
unfolding eval_or acquire_bool_vector truth kleene_or
eval_or-truth n [] h =
    let size : ℕ = (n + 7) / 8 in
    (
      record { bits = replicate size 0; null_bitmap = full_bitmap n; rows = n },
      rw (set_all_valid-zeros n) refl,
      full-HasRows n (replicate size 0) (All-zeros size) (length-replicate size 0),
      λ j hj. rw (truth-full n j hj, null_at-zeros size j) refl,
    )
eval_or-truth n (c ∷ children) (h, hs) =
    combine-truth or_byte kleene_or or_byte-Lifts n c children h hs

-- Byte `q` of the negation, from byte `i` on.
not_bytes_lem :
    (n left i : ℕ) (out child : BoolVector)
    → HasRows n out
    → HasRows n child
    → i + left ≡ (n + 7) / 8
    → (out' : BoolVector) × (not_bytes left i out child ≡ ok out')
      × HasRows n out'
      × ((q : ℕ)
          → q < (n + 7) / 8
          → (get_or out'.bits q 0 ≡ (
              if ltb q i
              then get_or out.bits q 0
              else bit_and (bit_not (get_or child.bits q 0)) (get_or child.null_bitmap q 0)))
            × (get_or out'.null_bitmap q 0
                ≡ (if ltb q i then get_or out.null_bitmap q 0 else get_or child.null_bitmap q 0)))
unfolding not_bytes
not_bytes_lem n zero i out child h c e = (out, refl, h, λ q hq. (ground arith, ground arith))
not_bytes_lem n (suc left) i out child h c e =
    let b : ℕ = get_or child.bits i 0 in
    let v : ℕ = get_or child.null_bitmap i 0 in
    let flipped : ℕ = bit_and (bit_not b) v in
    let hv : v < 256 = All-get_or child.null_bitmap i c.null_bytes in
    let out1 : BoolVector = record out {
      bits = set out.bits i flipped;
      null_bitmap = set out.null_bitmap i v;
    } in
    let h1 : HasRows n out1 = record {
      count = h.count;
      bit_bytes =
          All-set out.bits i flipped h.bit_bytes (bit_and-lt 8 (bit_not b) v (omega arith) hv);
      bit_size = length-set out.bits i flipped ∙ h.bit_size;
      null_bytes = All-set out.null_bitmap i v h.null_bytes hv;
      null_size = length-set out.null_bitmap i v ∙ h.null_size;
    } in
    let (out', r, h', at) = not_bytes_lem n left (i + 1) out1 child h1 c (omega arith) in
    let in1 : ltb i (length out.null_bitmap) ≡ true = ground (arith, h.null_size) in
    let in2 : ltb i (length out.bits) ≡ true = ground (arith, h.bit_size) in
    (
      out',
      rw
          (
            index-get_or child.null_bitmap i 0 (omega (arith, c.null_size)),
            in1,
            index-get_or child.bits i 0 (omega (arith, c.bit_size)),
            in2,
          )
          r,
      h',
      λ q hq.
          let x : get_or (set out.bits i flipped) q 0
              ≡ (if i == q then flipped else get_or out.bits q 0) =
            get_or-set out.bits i q _ 0 (omega (arith, h.bit_size)) in
          let y : get_or (set out.null_bitmap i v) q 0
              ≡ (if i == q then v else get_or out.null_bitmap q 0) =
            get_or-set out.null_bitmap i q _ 0 (omega (arith, h.null_size)) in
          (ground (arith, (at q hq).0, x), ground (arith, (at q hq).1, y)),
    )

-- NOT of a BOOL column of n rows succeeds, and each row is the negation in three-valued logic.
pub eval_not-truth :
    (n : ℕ) (child : BoolVector)
    → HasRows n child
    → Yields n (eval_not child) (λ j. kleene_not (truth child j))
unfolding eval_not truth null_at kleene_not
eval_not-truth n child c =
    let (out, r, h, at) =
      not_bytes_lem n ((n + 7) / 8) 0 (acquire_bool_vector n) child (acquire_bool_vector-HasRows n)
        c (omega arith) in
    (
      out,
      ap (λ k. not_bytes ((k + 7) / 8) 0 (acquire_bool_vector k) child) c.count ∙ r,
      h,
      λ j hj.
          let q : ℕ = j / 8 in
          let k : ℕ = j % 8 in
          let b : ℕ = get_or child.bits q 0 in
          let v : ℕ = get_or child.null_bitmap q 0 in
          let hb : b < 256 = All-get_or child.bits q c.bit_bytes in
          let hv : v < 256 = All-get_or child.null_bitmap q c.null_bytes in
          let x : get_or out.bits q 0 ≡ bit_and (bit_not b) v =
            (at q (omega arith)).0 ∙ ground arith in
          let y : get_or out.null_bitmap q 0 ≡ v = (at q (omega arith)).1 ∙ ground arith in
          rw (x, y)
            (ground (
              arith,
              bit_is_zero-bit_and (bit_not b) v k (omega arith) hv (omega arith),
              bit_is_zero-bit_not b k hb (omega arith),
            )),
    )
