-- ===== src/Planner/Zones/Columns.antt =====
-- The bounds of one column: a cell within them that passes a comparison is not ruled out.
use vexq.Planner.Zones.Meaning.{int64_operand, sides, float64_passes, date_passes, int64_passes}
use mathlib.Core.Option
use vexq.Exec.Compare.{cmp, bin_ne}
use vexq.Prelude.{ap, inr, inl, Bool-cases, none}
use vexq.Planner.Zones.{
  float64_of, bounds_answer, ZoneMap, op_ne, Bool, BinOp, Bytes, int64_bounds, float64_bounds,
  date_bounds, Sign, cmp_ordered,
}
use vexq.Planner.Constants.{Numeric, comparison_kind, int_value, float_value}
use vexq.Prelude.{
  ◌≢◌, Option, ltb, leb, ◌==◌, u32, ltb_i64, ℕ, ◌%◌, ◌≤◌, ◌<◌, ◌≡◌, refl, ◌∙◌, true, false, not,
  ◌&&◌, ◌||◌, some, arith,
}
use vexq.Storage.Blocks.ZoneMaps.{key_i64, key_i32}
use vexq.Exec.Compare.{BinOpKind, int64_order, date_order}
use vexq.Planner.Constants.{FloatOps, exact_int64, sign_extend}
use vexq.Planner.Zones.{exact_float}
use vexq.Planner.Zones.Order.{kind_ne, bounds_answer-sides, turn, Ranked, Ordered}

-- Go's float64 is ordered by a number but for NaN, which compares false, and the conversion from int64
-- keeps the order; up to 2^53, and at an integral float, it does so exactly.
pub record FloatLaws (fl : FloatOps) : Type 0 where
  pub rank : ℕ → ℕ
  pub eq_rank :
      (a b : ℕ) → fl.order.eq a b ≡ (not (fl.is_nan a || fl.is_nan b) && (rank a == rank b))
  pub lt_rank :
      (a b : ℕ) → fl.order.lt a b ≡ (not (fl.is_nan a || fl.is_nan b) && ltb (rank a) (rank b))
  pub le_rank :
      (a b : ℕ) → fl.order.le a b ≡ (not (fl.is_nan a || fl.is_nan b) && leb (rank a) (rank b))
  pub of_int_number : (v : ℕ) → fl.is_nan (fl.of_int v) ≡ false
  pub of_int_mono : (a b : ℕ) → key_i64 a ≤ key_i64 b → rank (fl.of_int a) ≤ rank (fl.of_int b)
  pub of_int_exact :
      (a v f : ℕ)
      → exact_int64 fl f ≡ some v
      → exact_float a ≡ true
      → ltb (rank (fl.of_int a)) (rank f) ≡ ltb_i64 a v
  pub of_int_exact' :
      (a v f : ℕ)
      → exact_int64 fl f ≡ some v
      → exact_float a ≡ true
      → ltb (rank f) (rank (fl.of_int a)) ≡ ltb_i64 v a

int64_Ranked : (a v : ℕ) → Ranked int64_order a v (key_i64 a) (key_i64 v)
unfolding key_i64
int64_Ranked a v = record {
  eq = λ h. ground arith;
  eq' = λ h. ground arith;
  lt = λ h. ground arith;
  lt' = λ h. ground arith;
  le = λ h. ground arith;
  le' = λ h. ground arith;
}

int64_Ordered : (a v : ℕ) → Ordered ltb_i64 a v (key_i64 a) (key_i64 v)
unfolding key_i64
int64_Ordered a v = record { less = refl; more = refl }

date_Ranked : (a d : ℕ) → Ranked date_order a d (key_i32 a) (key_i32 d)
unfolding key_i32
date_Ranked a v = record {
  eq = λ h. ground arith;
  eq' = λ h. ground arith;
  lt = λ h. ground arith;
  lt' = λ h. ground arith;
  le = λ h. ground arith;
  le' = λ h. ground arith;
}

date_Ordered :
    (a d : ℕ)
    → d < u32
    → Ordered ltb_i64 (sign_extend (a % u32)) (sign_extend d) (key_i32 a) (key_i32 d)
unfolding key_i32 sign_extend
date_Ordered a v h = record { less = ground arith; more = ground arith }

module _ (fl : FloatOps) (laws : FloatLaws fl) where
  float_Ranked : (a v : ℕ) → Ranked fl.order a v (laws.rank a) (laws.rank v)
  float_Ranked a v = record {
    eq = λ h. ground (arith, laws.eq_rank a v);
    eq' = λ h. ground (arith, laws.eq_rank v a);
    lt = λ h. ground (arith, laws.lt_rank a v);
    lt' = λ h. ground (arith, laws.lt_rank v a);
    le = λ h. ground (arith, laws.le_rank a v);
    le' = λ h. ground (arith, laws.le_rank v a);
  }

  float_Ordered :
      (a v : ℕ)
      → fl.is_nan a ≡ false
      → fl.is_nan v ≡ false
      → Ordered fl.order.lt a v (laws.rank a) (laws.rank v)
  float_Ordered a v na nv = record {
    less = laws.lt_rank a v ∙ rw (na, nv) refl;
    more = laws.lt_rank v a ∙ rw (na, nv) refl;
  }

  -- What passes a comparison other than `<>` is no NaN.
  sides-number :
      (s : Bool) (kind : BinOpKind) (a v : ℕ)
      → kind ≢ bin_ne
      → sides fl.order kind s a v ≡ true
      → fl.is_nan a ≡ false
  unfolding cmp
  sides-number true bin_ne a v n h = absurd (n refl)
  sides-number false bin_ne a v n h = absurd (n refl)
  sides-number true kind a v n h = ground (
    arith,
    laws.eq_rank v a,
    laws.lt_rank v a,
    laws.lt_rank a v,
    laws.le_rank v a,
    laws.le_rank a v,
  )
  sides-number false kind a v n h = ground (
    arith,
    laws.eq_rank a v,
    laws.lt_rank v a,
    laws.lt_rank a v,
    laws.le_rank v a,
    laws.le_rank a v,
  )

  -- An integral literal beside an integer that a float64 holds.
  exact_Ordered :
      (a v f : ℕ)
      → exact_int64 fl f ≡ some v
      → exact_float a ≡ true
      → fl.is_nan f ≡ false
      → Ordered fl.order.lt (fl.of_int a) f (key_i64 a) (key_i64 v)
  unfolding key_i64
  exact_Ordered a v f e x n =
      let r = float_Ordered (fl.of_int a) f (laws.of_int_number a) n in
      record {
        less = r.less ∙ laws.of_int_exact a v f e x;
        more = r.more ∙ laws.of_int_exact' a v f e x;
      }

abbrev pub answered : BinOp → Option (Sign × Sign) → Bool
answered op r = elim r [ none ↦ true | some (lo, hi) ↦ bounds_answer op lo hi ]

module _ (fl : FloatOps) (laws : FloatLaws fl) (parse_time : Bytes → Option ℕ) (s : Bool)
    (op : BinOp) (kind : BinOpKind) (is_kind : comparison_kind op ≡ some kind)
    (other : op ≢ op_ne) where
  pub int64_answered :
      (zm : ZoneMap) (a : ℕ) (unsigned : Bool) (lit : Option Numeric)
      → key_i64 zm.minimum ≤ key_i64 a
      → key_i64 a ≤ key_i64 zm.maximum
      → int64_passes fl parse_time kind s (Option.map (int64_operand fl parse_time unsigned) lit) a
        ≡ true
      → answered (turn s op) (int64_bounds fl parse_time zm lit) ≡ true
  unfolding int64_passes int64_operand int64_bounds
  int64_answered zm a unsigned none lo hi h = refl
  int64_answered zm a unsigned (some (int_value v)) lo hi h =
      bounds_answer-sides s op kind int64_order ltb_i64 a v zm.minimum zm.maximum v
        (key_i64 zm.minimum) (key_i64 a) (key_i64 zm.maximum) (key_i64 v) is_kind (int64_Ranked a v)
        (int64_Ordered zm.minimum v) (int64_Ordered zm.maximum v) lo hi h other
  int64_answered zm a unsigned (some (float_value f)) lo hi h =
      elim (Bool-cases
        (fl.is_nan f || not (exact_float zm.minimum) || not (exact_float zm.maximum))) [
          | inl e ↦ rw e refl
          | inr e ↦
              let n : fl.is_nan f ≡ false = ground arith in
              let x : exact_float zm.minimum ≡ true = ground arith in
              let y : exact_float zm.maximum ≡ true = ground arith in
              rw e (by_value unsigned h n x y (exact_int64 fl f) refl)
        ]
    where
      in_floats :
          fl.is_nan f ≡ false
          → sides fl.order kind s (fl.of_int a) f ≡ true
          → bounds_answer
              (turn s op)
              (cmp_ordered fl.order.lt (fl.of_int zm.minimum) f)
              (cmp_ordered fl.order.lt (fl.of_int zm.maximum) f)
            ≡ true
      in_floats n h =
          bounds_answer-sides s op kind fl.order fl.order.lt (fl.of_int a) f (fl.of_int zm.minimum)
            (fl.of_int zm.maximum) f (laws.rank (fl.of_int zm.minimum)) (laws.rank (fl.of_int a))
            (laws.rank (fl.of_int zm.maximum)) (laws.rank f) is_kind
            (float_Ranked fl laws (fl.of_int a) f)
            (float_Ordered fl laws (fl.of_int zm.minimum) f (laws.of_int_number zm.minimum) n)
            (float_Ordered fl laws (fl.of_int zm.maximum) f (laws.of_int_number zm.maximum) n)
            (laws.of_int_mono zm.minimum a lo) (laws.of_int_mono a zm.maximum hi) h other

      by_value :
          (unsigned : Bool)
          → int64_passes fl parse_time kind s
              (some (int64_operand fl parse_time unsigned (float_value f)))
              a
            ≡ true
          → fl.is_nan f ≡ false
          → exact_float zm.minimum ≡ true
          → exact_float zm.maximum ≡ true
          → (o : Option ℕ) → exact_int64 fl f ≡ o
          → bounds_answer
              (turn s op)
              (cmp_ordered fl.order.lt (fl.of_int zm.minimum) f)
              (cmp_ordered fl.order.lt (fl.of_int zm.maximum) f)
            ≡ true
      by_value false h n x y o e = in_floats n h
      by_value true h n x y none e = in_floats n (rw (int64_passes, int64_operand, e) at h)
      by_value true h n x y (some v) e =
          bounds_answer-sides s op kind int64_order fl.order.lt a v (fl.of_int zm.minimum)
            (fl.of_int zm.maximum) f (key_i64 zm.minimum) (key_i64 a) (key_i64 zm.maximum)
            (key_i64 v) is_kind (int64_Ranked a v) (exact_Ordered fl laws zm.minimum v f e x n)
            (exact_Ordered fl laws zm.maximum v f e y n) lo hi
            (rw (int64_passes, int64_operand, e) at h) other

  pub float64_answered :
      (zm : ZoneMap) (a : ℕ) (lit : Option Numeric)
      → (fl.is_nan zm.minimum ≡ false
          → fl.is_nan zm.maximum ≡ false
          → fl.is_nan a ≡ false
          → (laws.rank zm.minimum ≤ laws.rank a) × (laws.rank a ≤ laws.rank zm.maximum))
      → float64_passes fl parse_time kind s lit a ≡ true
      → answered (turn s op) (float64_bounds fl parse_time zm lit) ≡ true
  unfolding float64_passes float64_bounds
  float64_answered zm a none b h = refl
  float64_answered zm a (some v) b h =
      let w = float64_of fl parse_time v in
      elim (Bool-cases (fl.is_nan w || fl.is_nan zm.minimum || fl.is_nan zm.maximum)) [
        | inl e ↦ rw e refl
        | inr e ↦
            let n : fl.is_nan w ≡ false = ground arith in
            let x : fl.is_nan zm.minimum ≡ false = ground arith in
            let y : fl.is_nan zm.maximum ≡ false = ground arith in
            let number : fl.is_nan a ≡ false =
              sides-number fl laws s kind a w (λ z. other (kind_ne op (is_kind ∙ ap some z))) h in
            let (lo, hi) = b x y number in
            rw e (
              bounds_answer-sides s op kind fl.order fl.order.lt a w zm.minimum zm.maximum w
                (laws.rank zm.minimum) (laws.rank a) (laws.rank zm.maximum) (laws.rank w) is_kind
                (float_Ranked fl laws a w) (float_Ordered fl laws zm.minimum w x n)
                (float_Ordered fl laws zm.maximum w y n) lo hi h other)
      ]

  pub date_answered :
      (zm : ZoneMap) (a : ℕ) (lit : Option ℕ)
      → ((d : ℕ) → lit ≡ some d → d < u32)
      → key_i32 zm.minimum ≤ key_i32 a
      → key_i32 a ≤ key_i32 zm.maximum
      → date_passes fl parse_time kind s lit a ≡ true
      → answered (turn s op) (date_bounds fl parse_time zm (Option.map sign_extend lit)) ≡ true
  unfolding date_passes date_bounds
  date_answered zm a none small lo hi h = refl
  date_answered zm a (some d) small lo hi h =
      bounds_answer-sides s op kind date_order ltb_i64 a d (sign_extend (zm.minimum % u32))
        (sign_extend (zm.maximum % u32)) (sign_extend d) (key_i32 zm.minimum) (key_i32 a)
        (key_i32 zm.maximum) (key_i32 d) is_kind (date_Ranked a d)
        (date_Ordered zm.minimum d (small d refl)) (date_Ordered zm.maximum d (small d refl)) lo hi
        h other
