-- ===== src/Exec/Logic/Kleene.antt =====
-- AND, OR and NOT of BOOL columns are the connectives of three-valued logic, row by row.
use vexq.Storage.Bitmap.Laws.{null_at, get_or-set, index-get_or, All-set, All-get_or}
use vexq.Exec.Vector.{truth, HasRows, BoolVector}
use vexq.Exec.Logic.{fold_children, fold_bytes, or_byte, and_byte}
use vexq.Prelude.{
  ltb, ◌==◌, if◌then◌else◌, set, length-set, get_or, All, ok, ℕ, zero, suc, ◌+◌, ◌/◌, ◌%◌, ◌<◌, ◌≡◌,
  refl, ap, ap₂, ◌∙◌, Bool, true, false, not, ◌||◌, Option, none, some, List, [], ◌∷◌, map, foldl,
  arith,
}
use Prim.Native.Nat.{bit_and, bit_or}
use vexq.Prelude.Digits.{bit_and-lt, bit_or-lt}
use vexq.Storage.Bitmap.Bits.{
  bit_is_zero, bit_not, bit_is_zero-bit_and, bit_is_zero-bit_or, bit_is_zero-bit_not,
}

-- `none` is NULL.
unfoldable pub kleene_and : Option Bool → Option Bool → Option Bool
kleene_and (some true) y = y
kleene_and (some false) y = some false
kleene_and none (some false) = some false
kleene_and none (some true) = none
kleene_and none none = none

unfoldable pub kleene_or : Option Bool → Option Bool → Option Bool
kleene_or (some false) y = y
kleene_or (some true) y = some true
kleene_or none (some true) = some true
kleene_or none (some false) = none
kleene_or none none = none

unfoldable pub kleene_not : Option Bool → Option Bool
kleene_not none = none
kleene_not (some b) = some (not b)

-- What bit `k` of a byte of bits and a byte of validity says.
pub flag_at : ℕ → ℕ → ℕ → Option Bool
flag_at b n k = if bit_is_zero n k then none else some (not (bit_is_zero b k))

-- Bytes from bytes, and the connective on each bit.
pub record Lifts (f : ℕ → ℕ → ℕ → ℕ → ℕ × ℕ) (op : Option Bool → Option Bool → Option Bool)
    : Type 0 where
  bytes :
      (lb ln rb rn : ℕ)
      → lb < 256
      → ln < 256
      → rb < 256
      → rn < 256
      → ((f lb ln rb rn).0 < 256) × ((f lb ln rb rn).1 < 256)
  bits :
      (lb ln rb rn k : ℕ)
      → lb < 256
      → ln < 256
      → rb < 256
      → rn < 256
      → k < 8
      → flag_at (f lb ln rb rn).0 (f lb ln rb rn).1 k ≡ op (flag_at lb ln k) (flag_at rb rn k)

bit_not-lt : (b : ℕ) → bit_not b < 256
bit_not-lt b = omega arith

-- Known true and known false.
module _ (b n k : ℕ) (hb : b < 256) (hn : n < 256) (hk : k < 8) where
  known_true-lt : bit_and b n < 256
  known_true-lt = bit_and-lt 8 b n hb hn

  known_false-lt : bit_and (bit_not b) n < 256
  known_false-lt = bit_and-lt 8 (bit_not b) n (bit_not-lt b) hn

  known_true : bit_is_zero (bit_and b n) k ≡ (bit_is_zero b k || bit_is_zero n k)
  known_true = bit_is_zero-bit_and b n k hb hn hk

  known_false : bit_is_zero (bit_and (bit_not b) n) k ≡ (not (bit_is_zero b k) || bit_is_zero n k)
  known_false =
      bit_is_zero-bit_and (bit_not b) n k (bit_not-lt b) hn hk
      ∙ ap (λ z. z || bit_is_zero n k) (bit_is_zero-bit_not b k hb hk)

pub and_byte-Lifts : Lifts and_byte kleene_and
unfolding and_byte flag_at kleene_and
and_byte-Lifts = record {
  bytes = λ lb ln rb rn h1 h2 h3 h4.
      let t : bit_and (bit_and lb ln) (bit_and rb rn) < 256 =
        bit_and-lt 8 _ _ (bit_and-lt 8 lb ln h1 h2) (bit_and-lt 8 rb rn h3 h4) in
      (
        t,
        bit_or-lt 8 _ _ t (
            bit_or-lt 8 _ _ (bit_and-lt 8 (bit_not lb) ln (bit_not-lt lb) h2)
              (bit_and-lt 8 (bit_not rb) rn (bit_not-lt rb) h4)),
      );
  bits = λ lb ln rb rn k h1 h2 h3 h4 hk.
      let lt : ℕ = bit_and lb ln in
      let rt : ℕ = bit_and rb rn in
      let lf : ℕ = bit_and (bit_not lb) ln in
      let rf : ℕ = bit_and (bit_not rb) rn in
      let a1 : lt < 256 = known_true-lt lb ln k h1 h2 hk in
      let a2 : rt < 256 = known_true-lt rb rn k h3 h4 hk in
      let a3 : lf < 256 = known_false-lt lb ln k h1 h2 hk in
      let a4 : rf < 256 = known_false-lt rb rn k h3 h4 hk in
      ground (
        arith,
        bit_is_zero-bit_or (bit_and lt rt) (bit_or lf rf) k (bit_and-lt 8 lt rt a1 a2)
            (bit_or-lt 8 lf rf a3 a4) hk,
        bit_is_zero-bit_and lt rt k a1 a2 hk,
        bit_is_zero-bit_or lf rf k a3 a4 hk,
        known_true lb ln k h1 h2 hk,
        known_true rb rn k h3 h4 hk,
        known_false lb ln k h1 h2 hk,
        known_false rb rn k h3 h4 hk,
      );
}

pub or_byte-Lifts : Lifts or_byte kleene_or
unfolding or_byte flag_at kleene_or
or_byte-Lifts = record {
  bytes = λ lb ln rb rn h1 h2 h3 h4.
      let t : bit_or (bit_and lb ln) (bit_and rb rn) < 256 =
        bit_or-lt 8 _ _ (bit_and-lt 8 lb ln h1 h2) (bit_and-lt 8 rb rn h3 h4) in
      (
        t,
        bit_or-lt 8 _ _ t (
            bit_and-lt 8 _ _ (bit_and-lt 8 (bit_not lb) ln (bit_not-lt lb) h2)
              (bit_and-lt 8 (bit_not rb) rn (bit_not-lt rb) h4)),
      );
  bits = λ lb ln rb rn k h1 h2 h3 h4 hk.
      let lt : ℕ = bit_and lb ln in
      let rt : ℕ = bit_and rb rn in
      let lf : ℕ = bit_and (bit_not lb) ln in
      let rf : ℕ = bit_and (bit_not rb) rn in
      let a1 : lt < 256 = known_true-lt lb ln k h1 h2 hk in
      let a2 : rt < 256 = known_true-lt rb rn k h3 h4 hk in
      let a3 : lf < 256 = known_false-lt lb ln k h1 h2 hk in
      let a4 : rf < 256 = known_false-lt rb rn k h3 h4 hk in
      ground (
        arith,
        bit_is_zero-bit_or (bit_or lt rt) (bit_and lf rf) k (bit_or-lt 8 lt rt a1 a2)
            (bit_and-lt 8 lf rf a3 a4) hk,
        bit_is_zero-bit_or lt rt k a1 a2 hk,
        bit_is_zero-bit_and lf rf k a3 a4 hk,
        known_true lb ln k h1 h2 hk,
        known_true rb rn k h3 h4 hk,
        known_false lb ln k h1 h2 hk,
        known_false rb rn k h3 h4 hk,
      );
}

module _ (f : ℕ → ℕ → ℕ → ℕ → ℕ × ℕ) (op : Option Bool → Option Bool → Option Bool) (l : Lifts f op)
    (n : ℕ) where
  -- Byte `q` of the result.
  byte_of : BoolVector → BoolVector → ℕ → ℕ × ℕ
  byte_of out child q =
      f (get_or out.bits q 0) (get_or out.null_bitmap q 0) (get_or child.bits q 0)
        (get_or child.null_bitmap q 0)

  fold_bytes_lem :
      (left i : ℕ) (out child : BoolVector)
      → HasRows n out
      → HasRows n child
      → i + left ≡ (n + 7) / 8
      → (out' : BoolVector) × (fold_bytes f left i out child ≡ ok out')
        × HasRows n out'
        × ((q : ℕ)
            → q < (n + 7) / 8
            → (get_or out'.bits q 0
                ≡ (if ltb q i then get_or out.bits q 0 else (byte_of out child q).0))
              × (get_or out'.null_bitmap q 0
                  ≡ (if ltb q i then get_or out.null_bitmap q 0 else (byte_of out child q).1)))
  unfolding fold_bytes byte_of
  fold_bytes_lem zero i out child h c e = (out, refl, h, λ q hq. (ground arith, ground arith))
  fold_bytes_lem (suc left) i out child h c e =
      let lb : ℕ = get_or out.bits i 0 in
      let ln : ℕ = get_or out.null_bitmap i 0 in
      let rb : ℕ = get_or child.bits i 0 in
      let rn : ℕ = get_or child.null_bitmap i 0 in
      let small =
        l.bytes lb ln rb rn (All-get_or out.bits i h.bit_bytes)
          (All-get_or out.null_bitmap i h.null_bytes) (All-get_or child.bits i c.bit_bytes)
          (All-get_or child.null_bitmap i c.null_bytes) in
      let out1 : BoolVector = record out {
        bits = set out.bits i (f lb ln rb rn).0;
        null_bitmap = set out.null_bitmap i (f lb ln rb rn).1;
      } in
      let h1 : HasRows n out1 = record {
        count = h.count;
        bit_bytes = All-set out.bits i _ h.bit_bytes small.0;
        bit_size = length-set out.bits i _ ∙ h.bit_size;
        null_bytes = All-set out.null_bitmap i _ h.null_bytes small.1;
        null_size = length-set out.null_bitmap i _ ∙ h.null_size;
      } in
      let (out', r, h', at) = fold_bytes_lem left (i + 1) out1 child h1 c (omega arith) in
      (
        out',
        rw
            (
              index-get_or out.bits i 0 (omega (arith, h.bit_size)),
              index-get_or out.null_bitmap i 0 (omega (arith, h.null_size)),
              index-get_or child.bits i 0 (omega (arith, c.bit_size)),
              index-get_or child.null_bitmap i 0 (omega (arith, c.null_size)),
            )
            r,
        h',
        λ q hq.
            let b : get_or (set out.bits i (f lb ln rb rn).0) q 0
                ≡ (if i == q then (f lb ln rb rn).0 else get_or out.bits q 0) =
              get_or-set out.bits i q _ 0 (omega (arith, h.bit_size)) in
            let v : get_or (set out.null_bitmap i (f lb ln rb rn).1) q 0
                ≡ (if i == q then (f lb ln rb rn).1 else get_or out.null_bitmap q 0) =
              get_or-set out.null_bitmap i q _ 0 (omega (arith, h.null_size)) in
            (ground (arith, (at q hq).0, b, v), ground (arith, (at q hq).1, b, v)),
      )

  -- Folding a child in is the connective, row by row.
  fold_bytes-truth :
      (out child : BoolVector)
      → HasRows n out
      → HasRows n child
      → (out' : BoolVector) × (fold_bytes f ((n + 7) / 8) 0 out child ≡ ok out')
        × HasRows n out'
        × ((j : ℕ) → j < n → truth out' j ≡ op (truth out j) (truth child j))
  unfolding truth null_at
  fold_bytes-truth out child h c =
      let (out', r, h', at) = fold_bytes_lem ((n + 7) / 8) 0 out child h c (omega arith) in
      (
        out',
        r,
        h',
        λ j hj.
            let q : ℕ = j / 8 in
            let k : ℕ = j % 8 in
            let b : get_or out'.bits q 0 ≡ (byte_of out child q).0 =
              (at q (omega arith)).0 ∙ ground arith in
            let v : get_or out'.null_bitmap q 0 ≡ (byte_of out child q).1 =
              (at q (omega arith)).1 ∙ ground arith in
            unfold flag_at byte_of in
            (ap₂ (λ x y. flag_at x y k) b v
              ∙ l.bits (get_or out.bits q 0) (get_or out.null_bitmap q 0) (get_or child.bits q 0)
                  (get_or child.null_bitmap q 0) k (All-get_or out.bits q h.bit_bytes)
                  (All-get_or out.null_bitmap q h.null_bytes) (All-get_or child.bits q c.bit_bytes)
                  (All-get_or child.null_bitmap q c.null_bytes) (omega arith)),
      )

  -- All children, the nearest first.
  pub fold_children-truth :
      (out : BoolVector) (children : List BoolVector)
      → HasRows n out
      → All (HasRows n) children
      → (out' : BoolVector) × (fold_children f n out children ≡ ok out')
        × HasRows n out'
        × ((j : ℕ) → j < n → truth out' j ≡ foldl op (truth out j) (map (λ c. truth c j) children))
  unfolding fold_children
  fold_children-truth out [] h hs = (out, refl, h, λ j hj. refl)
  fold_children-truth out (c ∷ children) h (hc, hs) =
      let (out1, r, h1, at) = fold_bytes-truth out c h hc in
      let (out', r', h', at') = fold_children-truth out1 children h1 hs in
      (
        out',
        rw r r',
        h',
        λ j hj. at' j hj ∙ ap (λ t. foldl op t (map (λ c. truth c j) children)) (at j hj),
      )
