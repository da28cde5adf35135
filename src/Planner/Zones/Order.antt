-- ===== src/Planner/Zones/Order.antt =====
-- The comparisons of the cells and of the bounds, on numbers that order them.
use vexq.Planner.Zones.Meaning.{sides}
use vexq.Prelude.{
  ap, ◌∙◌, ltb, leb, ◌==◌, if◌then◌else◌, ℕ, ◌≤◌, ◌<◌, ◌≡◌, refl, sym, ◌≢◌, Bool, true, false, some,
  arith,
}
use vexq.Sql.Ast.{op_eq, BinOp, op_ne}
use vexq.Exec.Compare.{Order, BinOpKind, bin_eq, bin_ne, bin_lt, bin_le, bin_gt, bin_ge, cmp}
use vexq.Planner.Constants.{comparison_kind}
use vexq.Planner.Zones.{cmp_ordered, flip, bounds_answer}

-- An order says of `a` and `b` no more than the numbers `x` and `y` do.
pub record Ranked (o : Order) (a b x y : ℕ) : Type 0 where
  pub eq : o.eq a b ≡ true → x ≡ y
  pub eq' : o.eq b a ≡ true → x ≡ y
  pub lt : o.lt a b ≡ true → x < y
  pub lt' : o.lt b a ≡ true → y < x
  pub le : o.le a b ≡ true → x ≤ y
  pub le' : o.le b a ≡ true → y ≤ x

abbrev pub nat_order : Order
nat_order = record { eq = ◌==◌; lt = ltb; le = leb }

cmp-nat_order :
    (o : Order) (a b x y : ℕ)
    → Ranked o a b x y
    → (kind : BinOpKind) → kind ≢ bin_ne
    → cmp o kind a b ≡ true
    → cmp nat_order kind x y ≡ true
unfolding cmp
cmp-nat_order o a b x y r bin_eq n h = ground (arith, r.eq h)
cmp-nat_order o a b x y r bin_ne n h = absurd (n refl)
cmp-nat_order o a b x y r bin_lt n h = ground (arith, r.lt h)
cmp-nat_order o a b x y r bin_le n h = ground (arith, r.le h)
cmp-nat_order o a b x y r bin_gt n h = ground (arith, r.lt' h)
cmp-nat_order o a b x y r bin_ge n h = ground (arith, r.le' h)

Ranked-swap : (o : Order) (a b x y : ℕ) → Ranked o a b x y → Ranked o b a y x
Ranked-swap o a b x y r = record {
  eq = λ h. sym (r.eq' h);
  eq' = λ h. sym (r.eq h);
  lt = r.lt';
  lt' = r.lt;
  le = r.le';
  le' = r.le;
}

abbrev pub turn : Bool → BinOp → BinOp
turn s op = if s then flip op else op

nat_bounds :
    (s : Bool) (op : BinOp) (kind : BinOpKind) (lo hi x y : ℕ)
    → comparison_kind op ≡ some kind
    → lo ≤ x
    → x ≤ hi
    → (if s then cmp nat_order kind y x else cmp nat_order kind x y) ≡ true
    → bounds_answer (turn s op) (cmp_ordered ltb lo y) (cmp_ordered ltb hi y) ≡ true
unfolding comparison_kind cmp bounds_answer cmp_ordered flip
nat_bounds false op_ne kind lo hi x y e l h t = refl
nat_bounds true op_ne kind lo hi x y e l h t = refl
nat_bounds false op kind lo hi x y e l h t = ground arith
nat_bounds true op kind lo hi x y e l h t = ground arith

-- A signed test of a bound and a literal, on the numbers that order them.
pub record Ordered (lt : ℕ → ℕ → Bool) (a b x y : ℕ) : Type 0 where
  pub less : lt a b ≡ ltb x y
  pub more : lt b a ≡ ltb y x

cmp_ordered-Ordered :
    (lt : ℕ → ℕ → Bool) (a b x y : ℕ)
    → Ordered lt a b x y
    → cmp_ordered lt a b ≡ cmp_ordered ltb x y
unfolding cmp_ordered
cmp_ordered-Ordered lt a b x y r = rw (r.less, r.more) refl

pub kind_ne : (op : BinOp) → comparison_kind op ≡ some bin_ne → op ≡ op_ne
unfolding comparison_kind
kind_ne op_eq e = cc
kind_ne op e = cc

nat_order-sides :
    (o : Order) (a v x y : ℕ)
    → Ranked o a v x y
    → (s : Bool) (kind : BinOpKind) → kind ≢ bin_ne
    → sides o kind s a v ≡ true
    → (if s then cmp nat_order kind y x else cmp nat_order kind x y) ≡ true
nat_order-sides o a v x y r true kind n h =
    cmp-nat_order o v a y x (Ranked-swap o a v x y r) kind n h
nat_order-sides o a v x y r false kind n h = cmp-nat_order o a v x y r kind n h

-- A cell that lies between the bounds and passes the comparison: the bounds do not rule it out.
pub bounds_answer-sides :
    (s : Bool) (op : BinOp) (kind : BinOpKind) (o : Order) (lt : ℕ → ℕ → Bool)
    (a v lo hi v' low x high y : ℕ)
    → comparison_kind op ≡ some kind
    → Ranked o a v x y
    → Ordered lt lo v' low y
    → Ordered lt hi v' high y
    → low ≤ x
    → x ≤ high
    → sides o kind s a v ≡ true
    → op ≢ op_ne
    → bounds_answer (turn s op) (cmp_ordered lt lo v') (cmp_ordered lt hi v') ≡ true
bounds_answer-sides s op kind o lt a v lo hi v' low x high y e r l h lx xh t n =
    rw (cmp_ordered-Ordered lt lo v' low y l, cmp_ordered-Ordered lt hi v' high y h)
      (nat_bounds s op kind low high x y e lx xh
        (nat_order-sides o a v x y r s kind (λ z. n (kind_ne op (e ∙ ap some z))) t))
