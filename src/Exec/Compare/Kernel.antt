-- ===== src/Exec/Compare/Kernel.antt =====
-- The packed comparison gives each row the test's answer, and NULL where an operand is NULL.
use vexq.Exec.Vector.{set_flag-Writes}
use vexq.Storage.Bitmap.Laws.{
  is_null_bit-null_at, get_or-set, All-set, All-get_or, null_at, Covers, index-get_or,
}
use vexq.Exec.Compare.{is_null_bit, tail_loop, packed_loop, pack_rows}
use vexq.Prelude.{
  ltb, ◌==◌, if◌then◌else◌, ==_iff, Bool-cases, length, set, length-set, get_or, All, Bytes, IsByte,
  ok, ℕ, zero, suc, ◌+◌, ◌*◌, ◌/◌, ◌%◌, ◌^◌, ◌≤◌, ◌<◌, ◌≡◌, refl, ap, ◌∙◌, subst, inl, inr, Bool,
  true, false, not, ◌||◌, List, arith,
}
use native.Mathlib.Nat.{pow-suc}
use Prim.Native.Nat.{bit_and}
use vexq.Prelude.Digits.{digit, bit_and-lt}
use vexq.Storage.Bitmap.Bits.{bit_is_zero, bit_is_zero-digit, bit_is_zero-bit_and}

-- The digits of `here + 2 * p`: `here`, and those of `p`.
digit_first :
    (p here k : ℕ)
    → here < 2
    → (g : ℕ → ℕ) → here ≡ g 0
    → ((j : ℕ) → j < k → digit p j ≡ g (suc j))
    → (j : ℕ) → j < suc k
    → digit (here + 2 * p) j ≡ g j
unfolding digit
digit_first p here k h g e at zero hj = omega (arith, h) ∙ e
digit_first p here k h g e at (suc j) hj =
    ap (λ t. digit t j) (omega (arith, h)) ∙ at j (omega arith)

-- A write of byte `b` decides its eight rows.
written_row :
    (bits : Bytes) (b j x : ℕ) (v : Bool)
    → b < length bits
    → (b ≡ j / 8 → bit_is_zero x (j % 8) ≡ v)
    → null_at bits j ≡ (if ltb j (8 * b) then v else true)
    → null_at (set bits b x) j ≡ (if ltb j (8 * (b + 1)) then v else true)
unfolding null_at
written_row bits b j x v h here old =
    rw (get_or-set bits b (j / 8) x 0 h) (elim (Bool-cases (b == j / 8)) [
      | inl e ↦ rw e (here ((==_iff b (j / 8)).0 e) ∙ ground arith)
      | inr e ↦ rw e (old ∙ ground arith)
    ])

module _ (test : ℕ → ℕ → Bool) (lv rv : List ℕ) where
  abbrev pub answer : ℕ → Bool
  answer j = test (get_or lv j 0) (get_or rv j 0)

  pack_rows_lem :
      (k i : ℕ)
      → i + k ≤ length lv
      → i + k ≤ length rv
      → (p : ℕ) × (pack_rows test lv rv k i ≡ ok p)
        × (p < 2 ^ k)
        × ((j : ℕ) → j < k → digit p j ≡ (if answer (i + j) then 1 else 0))
  unfolding pack_rows
  pack_rows_lem zero i h h' = (0, refl, omega arith, λ j hj. absurd (omega arith))
  pack_rows_lem (suc k) i h h' =
      let (p, r, small, at) = pack_rows_lem k (i + 1) (omega arith) (omega arith) in
      let here : ℕ = if answer i then 1 else 0 in
      (
        here + 2 * p,
        rw (index-get_or lv i 0 (omega arith), index-get_or rv i 0 (omega arith), r) refl,
        ground (arith, pow-suc 2 k),
        λ j hj.
            digit_first p here k (ground arith) (λ m. if answer (i + m) then 1 else 0)
              (ap (λ m. if answer m then 1 else 0) (omega arith))
              (λ m hm. at m hm ∙ ap (λ t. if answer t then 1 else 0) (omega arith)) j hj,
      )

  -- The row's bit is set: the test holds, and neither operand is NULL.
  abbrev pub unset : Bytes → ℕ → Bool
  unset mask j = null_at mask j || not (answer j)

  byte_row :
      (mask : Bytes) (b j p : ℕ)
      → All IsByte mask
      → p < 256
      → b ≡ j / 8
      → digit p (j % 8) ≡ (if answer j then 1 else 0)
      → bit_is_zero (bit_and p (get_or mask b 0)) (j % 8) ≡ unset mask j
  unfolding null_at
  byte_row mask b j p bytes small e d =
      let hm : get_or mask b 0 < 256 = All-get_or mask b bytes in
      bit_is_zero-bit_and p (get_or mask b 0) (j % 8) small hm (omega arith)
      ∙ ground (
        arith,
        bit_is_zero-digit p (j % 8) small (omega arith),
        d,
        ap (λ q. bit_is_zero (get_or mask q 0) (j % 8)) e,
      )

  -- The rows below `i` are done, and the others still clear.
  pub record Done (n : ℕ) (mask : Bytes) (i : ℕ) (bits : Bytes) : Type 0 where
    pub bytes : All IsByte bits
    pub size : length bits ≡ (n + 7) / 8
    pub rows : (j : ℕ) → j < n → null_at bits j ≡ (if ltb j i then unset mask j else true)

  module _ (n : ℕ) (mask : Bytes) (covers : Covers mask n) (l : length lv ≡ n)
      (r : length rv ≡ n) where
    pub packed_loop_lem :
        (left b : ℕ) (bits : Bytes)
        → b + left ≡ n / 8
        → Done n mask (8 * b) bits
        → (bits' : Bytes) × (packed_loop test lv rv left b bits mask ≡ ok bits')
          × Done n mask (8 * (n / 8)) bits'
    unfolding packed_loop
    packed_loop_lem zero b bits e d =
        (bits, refl, subst (λ k. Done n mask (8 * k) bits) (omega arith) d)
    packed_loop_lem (suc left) b bits e d =
        let (p, eq, small, at) = pack_rows_lem 8 (8 * b) (omega arith) (omega arith) in
        let m : ℕ = get_or mask b 0 in
        let hm : m < 256 = All-get_or mask b covers.bytes in
        let x : ℕ = bit_and p m in
        let inside : ltb b (length bits) ≡ true = ground (arith, d.size) in
        let (bits', q, d') = packed_loop_lem left (b + 1) (set bits b x) (omega arith) (record {
          bytes = All-set bits b x d.bytes (bit_and-lt 8 p m small hm);
          size = length-set bits b x ∙ d.size;
          rows = λ j hj.
              let k : ℕ = j % 8 in
              let old : null_at bits j ≡ (if ltb j (8 * b) then unset mask j else true) =
                d.rows j hj in
              let here : b ≡ j / 8 → bit_is_zero x k ≡ unset mask j = λ e.
                byte_row mask b j p covers.bytes small e
                  (at k (omega arith) ∙ ap (λ t. if answer t then 1 else 0) (omega arith)) in
              written_row bits b j x (unset mask j) (omega (arith, d.size)) here old;
        }) in
        (bits', rw (eq, index-get_or mask b 0 (omega (arith, covers.enough)), inside) q, d')

    pub tail_loop_lem :
        (left i : ℕ) (bits : Bytes)
        → i + left ≡ n
        → Done n mask i bits
        → (bits' : Bytes) × (tail_loop test lv rv left i bits mask ≡ ok bits') × Done n mask n bits'
    unfolding tail_loop
    tail_loop_lem zero i bits e d = (bits, refl, subst (λ k. Done n mask k bits) (omega arith) d)
    tail_loop_lem (suc left) i bits e d =
        let c : Covers bits n = record { bytes = d.bytes; enough = omega (arith, d.size) } in
        let flag : is_null_bit mask i ≡ ok (null_at mask i) =
          is_null_bit-null_at i covers (omega arith) in
        elim (Bool-cases (null_at mask i)) [
          | inl null ↦
              let (bits', q, d') = tail_loop_lem left (i + 1) bits (omega arith) (record {
                bytes = d.bytes;
                size = d.size;
                rows = λ j hj. d.rows j hj ∙ skipped_row j null;
              }) in
              (bits', rw (flag, null) q, d')
          | inr present ↦
              let a : ℕ = get_or lv i 0 in
              let b : ℕ = get_or rv i 0 in
              let (bits1, w, c1, s1, at) = set_flag-Writes bits n i (test a b) c (omega arith) in
              let (bits', q, d') = tail_loop_lem left (i + 1) bits1 (omega arith) (record {
                bytes = c1.bytes;
                size = s1 ∙ d.size;
                rows = λ j hj. at j ∙ set_row j present (d.rows j hj);
              }) in
              (
                bits',
                rw
                    (
                      flag,
                      present,
                      index-get_or lv i 0 (omega arith),
                      index-get_or rv i 0 (omega arith),
                      w,
                    )
                    q,
                d',
              )
        ]
      where
        skipped_row :
            (j : ℕ)
            → null_at mask i ≡ true
            → (if ltb j i then unset mask j else true)
              ≡ (if ltb j (i + 1) then unset mask j else true)
        skipped_row j null = ground arith

        set_row :
            (j : ℕ)
            → null_at mask i ≡ false
            → null_at bits j ≡ (if ltb j i then unset mask j else true)
            → (if i == j then not (answer i) else null_at bits j)
              ≡ (if ltb j (i + 1) then unset mask j else true)
        set_row j present old = ground arith
