-- ===== src/Planner/Zones/Between.antt =====
-- planner/physical.go: BETWEEN on a column, as exec evaluates it, beside the comparisons with each bound.
use vexq.Prelude.{
  ◌==◌, if◌then◌else◌, Bool-cases, Option-cases, get_elem?, Bytes, ℕ, ◌≡◌, refl, inl, inr, Bool,
  true, false, not, ◌&&◌, Option, none, some, List,
}
use vexq.Sql.Ast.{Expr, op_ge, op_le}
use vexq.Storage.Schema.{Field, index_of, type_int64}
use vexq.Exec.Compare.{bin_ge, bin_le}
use vexq.Planner.Constants.{FloatOps, Numeric, int_value, float_value, comparison_kind}
use vexq.Planner.Zones.{column_name, float64_of}
use vexq.Planner.Zones.Meaning.{
  Row, is_int, is_float, int64_passes, float64_passes, int64_literal, cell_passes, field_passes,
  named_passes, passes, between_int64, field_between, between, field_uniform, between_uniform,
}

pub &&-sides : (p q : Bool) → (p && q) ≡ true → (p ≡ true) × (q ≡ true)
&&-sides true q h = (refl, h)
&&-sides false q h = absurd (cc)

else_branch : (b p q : Bool) → b ≡ false → (if b then p else q) ≡ true → q ≡ true
else_branch true p q e h = absurd (cc)
else_branch false p q e h = h

module _ (fl : FloatOps) (parse_time : Bytes → Option ℕ) where
  between_int64-sides :
      (lo hi : Option Numeric) (a : ℕ)
      → (if is_int lo then is_int hi else not (is_int hi)) ≡ true
      → between_int64 fl parse_time lo hi a ≡ true
      → (int64_passes fl parse_time bin_ge false lo a ≡ true)
        × (int64_passes fl parse_time bin_le false hi a ≡ true)
  unfolding between_int64 int64_passes float64_passes is_int is_float float64_of
  between_int64-sides none none a u h = (refl, refl)
  between_int64-sides none (some (int_value w)) a u h = absurd (cc)
  between_int64-sides none (some (float_value g)) a u h = (refl, h)
  between_int64-sides (some (int_value v)) none a u h = absurd (cc)
  between_int64-sides (some (int_value v)) (some (int_value w)) a u h = &&-sides _ _ h
  between_int64-sides (some (int_value v)) (some (float_value g)) a u h = absurd (cc)
  between_int64-sides (some (float_value f)) none a u h = ((&&-sides _ _ h).0, refl)
  between_int64-sides (some (float_value f)) (some (int_value w)) a u h = absurd (cc)
  between_int64-sides (some (float_value f)) (some (float_value g)) a u h = &&-sides _ _ h

  field_between-sides :
      (lo hi : Expr) (f : Option Field) (cell : Option ℕ)
      → field_uniform fl parse_time lo hi f ≡ true
      → field_between fl parse_time lo hi f cell ≡ true
      → (field_passes fl parse_time bin_ge false lo f cell ≡ true)
        × (field_passes fl parse_time bin_le false hi f cell ≡ true)
  unfolding field_between field_passes field_uniform
  field_between-sides lo hi none cell u h = (refl, refl)
  field_between-sides lo hi (some field) none u h = absurd (cc)
  field_between-sides lo hi (some field) (some a) u h =
      elim (Bool-cases (field.data_type == type_int64)) [
        | inl e ↦
            let (l, r) =
              between_int64-sides (int64_literal fl parse_time lo) (int64_literal fl parse_time hi)
                a (rw (field_uniform, e) at u) (rw (field_between, e) at h) in
            (rw (cell_passes, e) l, rw (cell_passes, e) r)
        | inr e ↦
            &&-sides (cell_passes fl parse_time bin_ge false lo field.data_type a)
              (cell_passes fl parse_time bin_le false hi field.data_type a)
              (else_branch (field.data_type == type_int64) _ _ e h)
      ]

  pub between-sides :
      (e lo hi : Expr) (schema : List Field) (row : Row)
      → between_uniform fl parse_time (column_name e) lo hi schema ≡ true
      → between fl parse_time (column_name e) lo hi schema row ≡ true
      → (passes fl parse_time op_ge e lo schema row ≡ true)
        × (passes fl parse_time op_le e hi schema row ≡ true)
  unfolding passes comparison_kind between between_uniform
  between-sides e lo hi schema row u h = elim (Option-cases (column_name e)) [
    | inl x ↦ absurd (cc (rw x at u))
    | inr (name, x) ↦ elim (Option-cases (index_of schema name)) [
      | inl y ↦ (
        rw (passes, comparison_kind, x, named_passes, y) refl,
        rw (passes, comparison_kind, x, named_passes, y) refl,
      )
      | inr (i, y) ↦
          let (l, r) =
            field_between-sides lo hi (get_elem? schema i) (row i) (rw (x, between_uniform, y) at u)
              (rw (x, between, y) at h) in
          (
            rw (passes, comparison_kind, x, named_passes, y) l,
            rw (passes, comparison_kind, x, named_passes, y) r,
          )
    ]
  ]
