-- ===== src/Planner/Zones/Sound.antt =====
-- A row group that the zone maps rule out holds no row that passes the predicate.
use vexq.Exec.Compare.{bin_eq, bin_ne, bin_lt, bin_le, bin_gt, bin_ge}
use vexq.Sql.Ast.{
  op_eq, op_lt, op_le, op_gt, op_ge, op_and, op_or, op_add, op_sub, op_mul, op_div, column_ref,
  between_expr, binary_expr,
}
use vexq.Prelude.{
  ◌==◌, ==_iff, Bool-cases, Option-cases, get_elem?, Bytes, u32, ℕ, ◌≤◌, ◌<◌, ◌≡◌, refl, ap, ◌≢◌,
  inl, inr, Bool, true, false, not, ◌&&◌, ◌||◌, Option, none, some, List, arith,
}
use vexq.Planner.Constants.{epoch_days}
use vexq.Sql.Ast.{
  string_literal, int_literal, Expr, column_ref, binary_expr, between_expr, BinOp, op_eq, op_ne,
  op_lt, op_le, op_gt, op_ge, op_and, op_or, op_add, op_sub, op_mul, op_div,
}
use vexq.Storage.Schema.{
  Field, ZoneMap, ColumnSectionMeta, RowGroupMeta, index_of, type_int64, type_float64, type_date,
}
use vexq.Storage.Blocks.ZoneMaps.{Within, key_i64, key_i32}
use vexq.Exec.Compare.{BinOpKind}
use vexq.Planner.Constants.{
  FloatOps, zone_literal, date_days, fold_constant, comparison_kind, exact_date_days,
  parse_date_days, zone_date_literal,
}
use vexq.Planner.Zones.{
  column_name, zone_pred_eval, zone_range_pred, flip, column_range, named_range, is_ne, zone_bounds,
}
use vexq.Planner.Zones.Meaning.{
  Row, cell_passes, field_passes, named_passes, passes, may_pass, is_unsigned_float, int64_literal,
  between, between_uniform, is_uniform,
}
use vexq.Planner.Zones.Between.{&&-sides, between-sides}
use vexq.Planner.Zones.Order.{turn}
use vexq.Planner.Zones.Columns.{
  FloatLaws, answered, int64_answered, float64_answered, date_answered,
}

exact_date_days-small : (v d : ℕ) → exact_date_days v ≡ some d → d < u32
unfolding exact_date_days
exact_date_days-small v d h = ground arith

epoch_days-small : (t : Option ℕ) (d : ℕ) → epoch_days t ≡ some d → d < u32
unfolding epoch_days
epoch_days-small none d h = cc
epoch_days-small (some t) d h = exact_date_days-small _ d h

date_days-small :
    (parse_time : Bytes → Option ℕ) (e : Expr) (d : ℕ) → date_days parse_time e ≡ some d → d < u32
unfolding date_days parse_date_days
date_days-small parse_time (int_literal v) d h = exact_date_days-small v d h
date_days-small parse_time (string_literal s) d h = epoch_days-small (parse_time s) d h
date_days-small parse_time e d h = cc

module _ (fl : FloatOps) (laws : FloatLaws fl) (parse_time : Bytes → Option ℕ) where
  -- A value of a column lies within the column's bounds, in the order of its type; a NaN need not.
  pub record Bounded (t : ℕ) (zm : ZoneMap) (a : ℕ) : Type 0 where
    pub as_int64 : t ≡ type_int64 → Within key_i64 zm a
    pub as_date : t ≡ type_date → Within key_i32 zm a
    pub as_float64 :
        t ≡ type_float64
        → fl.is_nan zm.minimum ≡ false
        → fl.is_nan zm.maximum ≡ false
        → fl.is_nan a ≡ false
        → (laws.rank zm.minimum ≤ laws.rank a) × (laws.rank a ≤ laws.rank zm.maximum)

  zone_bounds-Bounded :
      (s : Bool) (op : BinOp) (kind : BinOpKind) (lit : Expr) (t : ℕ) (zm : ZoneMap) (a : ℕ)
      → comparison_kind op ≡ some kind
      → op ≢ op_ne
      → Bounded t zm a
      → cell_passes fl parse_time kind s lit t a ≡ true
      → answered (turn s op) (zone_bounds fl parse_time t zm lit) ≡ true
  unfolding zone_bounds cell_passes zone_date_literal
  zone_bounds-Bounded s op kind lit t zm a e n b h = elim (Bool-cases (t == type_int64)) [
    | inl i ↦
        let w = b.as_int64 ((==_iff t type_int64).0 i) in
        rw i (
          int64_answered fl laws parse_time s op kind e n zm a (is_unsigned_float lit)
            (zone_literal fl lit) w.low w.high (rw (cell_passes, int64_literal, i) at h))
    | inr i ↦ elim (Bool-cases (t == type_float64)) [
      | inl f ↦
          rw (i, f)
            (float64_answered fl laws parse_time s op kind e n zm a (zone_literal fl lit)
              (b.as_float64 ((==_iff t type_float64).0 f)) (rw (cell_passes, i, f) at h))
      | inr f ↦ elim (Bool-cases (t == type_date)) [
        | inl d ↦
            let w = b.as_date ((==_iff t type_date).0 d) in
            rw (i, f, d)
              (date_answered fl laws parse_time s op kind e n zm a
                (date_days parse_time (fold_constant fl lit))
                (λ x. date_days-small parse_time (fold_constant fl lit) x) w.low w.high
                (rw (cell_passes, i, f, d) at h))
        | inr d ↦ rw (i, f, d) refl
      ]
    ]
  ]

  -- Each cell that is not NULL lies within the bounds of its column's section, where these are known.
  abbrev pub Encloses : List Field → RowGroupMeta → Row → Type 0
  Encloses schema rg row =
      (i : ℕ) (field : Field) (col : ColumnSectionMeta) (a : ℕ)
      → get_elem? schema i ≡ some field
      → get_elem? rg.columns i ≡ some col
      → row i ≡ some a
      → col.stats.has_min_max ≡ true
      → Bounded field.data_type col.stats a

  is_ne-turn : (s : Bool) → is_ne fl parse_time (turn s op_ne) ≡ true
  unfolding is_ne flip
  is_ne-turn true = refl
  is_ne-turn false = refl

  not_ne : (s : Bool) (op : BinOp) → is_ne fl parse_time (turn s op) ≡ false → op ≢ op_ne
  not_ne s op h z = cc (h, ap (λ o. is_ne fl parse_time (turn s o)) z, is_ne-turn s)

  column_range-keeps :
      (s : Bool) (op : BinOp) (kind : BinOpKind) (lit : Expr) (f : Option Field)
      (c : Option ColumnSectionMeta) (cell : Option ℕ)
      → comparison_kind op ≡ some kind
      → ((field : Field) (col : ColumnSectionMeta) (a : ℕ)
          → f ≡ some field
          → c ≡ some col
          → cell ≡ some a
          → col.stats.has_min_max ≡ true
          → Bounded field.data_type col.stats a)
      → field_passes fl parse_time kind s lit f cell ≡ true
      → column_range fl parse_time (turn s op) lit f c ≡ true
  unfolding column_range field_passes
  column_range-keeps s op kind lit none none cell e b h = refl
  column_range-keeps s op kind lit none (some col) cell e b h = refl
  column_range-keeps s op kind lit (some field) none cell e b h = refl
  column_range-keeps s op kind lit (some field) (some col) none e b h = absurd (cc)
  column_range-keeps s op kind lit (some field) (some col) (some a) e b h =
      elim (Bool-cases (not col.stats.has_min_max || is_ne fl parse_time (turn s op))) [
        | inl g ↦ rw g refl
        | inr g ↦
            let there : col.stats.has_min_max ≡ true = ground arith in
            let n : is_ne fl parse_time (turn s op) ≡ false = ground arith in
            rw g (
              zone_bounds-Bounded s op kind lit field.data_type col.stats a e (not_ne s op n)
                (b field col a refl refl refl there) h)
      ]

  named_range-keeps :
      (s : Bool) (op : BinOp) (kind : BinOpKind) (name : Bytes) (lit : Expr) (schema : List Field)
      (rg : RowGroupMeta) (row : Row)
      → comparison_kind op ≡ some kind
      → Encloses schema rg row
      → named_passes fl parse_time kind s name lit schema row ≡ true
      → named_range fl parse_time (turn s op) name lit schema rg ≡ true
  unfolding named_range named_passes
  named_range-keeps s op kind name lit schema rg row e b h =
      elim (Option-cases (index_of schema name)) [
        | inl x ↦ rw (named_range, x) refl
        | inr (i, x) ↦
            rw (named_range, x)
              (column_range-keeps s op kind lit (get_elem? schema i) (get_elem? rg.columns i)
                (row i) e (b i) (rw (named_passes, x) at h))
      ]

  comparison-keeps :
      (op : BinOp) (kind : BinOpKind) (l r : Expr) (schema : List Field) (rg : RowGroupMeta)
      (row : Row)
      → comparison_kind op ≡ some kind
      → Encloses schema rg row
      → passes fl parse_time op l r schema row ≡ true
      → zone_range_pred fl parse_time op l r schema rg ≡ true
  unfolding zone_range_pred passes
  comparison-keeps op kind l r schema rg row e b h = elim (Option-cases (column_name l)) [
    | inr (name, x) ↦
        rw (zone_range_pred, x)
          (named_range-keeps false op kind name r schema rg row e b (rw (passes, e, x) at h))
    | inl x ↦ elim (Option-cases (column_name r)) [
      | inr (name, y) ↦
          rw (zone_range_pred, x, y)
            (named_range-keeps true op kind name l schema rg row e b (rw (passes, e, x, y) at h))
      | inl y ↦ rw (zone_range_pred, x, y) refl
    ]
  ]

  between-keeps :
      (e lo hi : Expr) (schema : List Field) (rg : RowGroupMeta) (row : Row)
      → Encloses schema rg row
      → between_uniform fl parse_time (column_name e) lo hi schema ≡ true
      → between fl parse_time (column_name e) lo hi schema row ≡ true
      → (zone_range_pred fl parse_time op_ge e lo schema rg
          && zone_range_pred fl parse_time op_le e hi schema rg)
        ≡ true
  unfolding comparison_kind
  between-keeps e lo hi schema rg row b u h =
      let (above, below) = between-sides fl parse_time e lo hi schema row u h in
      rw
        (
          comparison-keeps op_ge bin_ge e lo schema rg row refl b above,
          comparison-keeps op_le bin_le e hi schema rg row refl b below,
        )
        refl

  -- zonePredEval never rules out a row group that holds a row on which the predicate may be TRUE,
  -- as exec compares a cell with a literal: an INT64 cell with an unsigned integral float literal
  -- as an integer and with any other float literal as a float; FLOAT64; DATE; AND and OR; and
  -- BETWEEN, of which all is compared as floats once a bound is a float. Conditions: each known
  -- pair of bounds encloses the cells of its column; float64 comparisons and conversions follow
  -- their order; every BETWEEN without NOT in the tree of AND and OR is on a column, and if that
  -- is INT64, both bounds are int64 literals, once they are coerced, or neither is.
  pub zone_pred_eval-Keeps :
      (e : Expr) (schema : List Field) (rg : RowGroupMeta) (row : Row)
      → Encloses schema rg row
      → is_uniform fl parse_time e schema ≡ true
      → may_pass fl parse_time e schema row ≡ true
      → zone_pred_eval fl parse_time e schema rg ≡ true
  unfolding zone_pred_eval may_pass is_uniform comparison_kind
  zone_pred_eval-Keeps (column_ref t n) schema rg row b u h = refl
  zone_pred_eval-Keeps (binary_expr op_and l r) schema rg row b u h =
      let (ul, ur) = &&-sides _ _ u in
      let (hl, hr) = &&-sides _ _ h in
      rw
        (zone_pred_eval-Keeps l schema rg row b ul hl, zone_pred_eval-Keeps r schema rg row b ur hr)
        refl
  zone_pred_eval-Keeps (binary_expr op_or l r) schema rg row b u h =
      let (ul, ur) =
        &&-sides (is_uniform fl parse_time l schema) (is_uniform fl parse_time r schema) u in
      ground (
        arith,
        zone_pred_eval-Keeps l schema rg row b ul,
        zone_pred_eval-Keeps r schema rg row b ur,
      )
  zone_pred_eval-Keeps (binary_expr op_add l r) schema rg row b u h = refl
  zone_pred_eval-Keeps (binary_expr op_sub l r) schema rg row b u h = refl
  zone_pred_eval-Keeps (binary_expr op_mul l r) schema rg row b u h = refl
  zone_pred_eval-Keeps (binary_expr op_div l r) schema rg row b u h = refl
  zone_pred_eval-Keeps (binary_expr op_eq l r) schema rg row b u h =
      comparison-keeps op_eq bin_eq l r schema rg row refl b h
  zone_pred_eval-Keeps (binary_expr op_ne l r) schema rg row b u h =
      comparison-keeps op_ne bin_ne l r schema rg row refl b h
  zone_pred_eval-Keeps (binary_expr op_lt l r) schema rg row b u h =
      comparison-keeps op_lt bin_lt l r schema rg row refl b h
  zone_pred_eval-Keeps (binary_expr op_le l r) schema rg row b u h =
      comparison-keeps op_le bin_le l r schema rg row refl b h
  zone_pred_eval-Keeps (binary_expr op_gt l r) schema rg row b u h =
      comparison-keeps op_gt bin_gt l r schema rg row refl b h
  zone_pred_eval-Keeps (binary_expr op_ge l r) schema rg row b u h =
      comparison-keeps op_ge bin_ge l r schema rg row refl b h
  zone_pred_eval-Keeps (between_expr e lo hi negate) schema rg row b u h =
      elim (Bool-cases negate) [
        | inl n ↦ rw n refl
        | inr n ↦ rw n (
            between-keeps e lo hi schema rg row b (rw (is_uniform, n) at u) (rw (may_pass, n) at h))
      ]
  zone_pred_eval-Keeps e schema rg row b u h = refl
