-- ===== src/PlannerSamples.antt =====
-- Runs of the planner's definitions, and its theorems at concrete inputs.
use mathlib.Core.Option.{some_inj}
use vexq.Sql.Ast.{between_expr, case_expr, more_whens, no_whens, absent, present, op_gt, op_and}
use vexq.Planner.Logical.{LogicalScan, LogicalNode, logical_scan, logical_filter, logical_project}
use vexq.Planner.Optimizer.{push_predicates}
use vexq.Planner.Optimizer.Pushdown.{Operators, rows_of, FilterFree, push_predicates-rows_of}
use vexq.Planner.Walk.{collect_cols, rewrite_expr}
use vexq.Planner.Walk.Columns.{columns_of, collect_cols-columns_of}
use vexq.Planner.Walk.Renaming.{renaming, SubqueryFree, rewrite_expr-renaming}
use vexq.Planner.Constants.{zone_literal}
use vexq.Storage.Schema.{index_of}
use vexq.Planner.Zones.Sound.{Encloses}
use vexq.Planner.Constants.{comparison_kind}
use vexq.Planner.Zones.{column_name, float64_of}
use vexq.Exec.Compare.{cmp}
use vexq.Sql.Ast.{float_literal, int_literal, column_ref, op_gt, op_and, binary_expr, Expr}
use vexq.Storage.Schema.{ColumnSectionMeta, Field, RowGroupMeta}
use vexq.Planner.Zones.Sound.{zone_pred_eval-Keeps, Bounded}
use vexq.Planner.Zones.Meaning.{may_pass, is_uniform, Row}
use vexq.Planner.Zones.{zone_pred_eval}
use vexq.Prelude.{
  ltb, leb, ◌==◌, if◌then◌else◌, codes, bytes_eq, Bytes, u64, ok, ℕ, zero, suc, ◌+◌, ◌-◌, ◌*◌, ◌/◌,
  ◌%◌, ◌^◌, ◌≡◌, refl, subst, Bool, true, false, ◌&&◌, Option, none, some, [], ◌∷◌, ◌++◌, map,
  arith,
}
use vexq.Storage.Blocks.ZoneMaps.{key_i64}
use vexq.Planner.Constants.{FloatOps, exact_int64}
use vexq.Planner.Zones.Columns.{FloatLaws}

-- The place of a pattern of sign and magnitude.
abbrev place : ℕ → ℕ
place f = if ltb f (2 ^ 63) then f + 2 ^ 63 else u64 - f

abbrev signed_place : ℕ → ℕ
signed_place v = (v + 2 ^ 63) % u64

-- Whole numbers as sign and magnitude, as a stand-in for float64.
abbrev whole_floats : FloatOps
whole_floats = record {
  order = record {
    eq = λ a b. place a == place b;
    lt = λ a b. ltb (place a) (place b);
    le = λ a b. leb (place a) (place b);
  };
  is_nan = λ f. false;
  neg = λ f. if ltb f (2 ^ 63) then f + 2 ^ 63 else f - 2 ^ 63;
  of_int =
      λ v. if leb (2 ^ 63) (signed_place v) then signed_place v - 2 ^ 63 else u64 - signed_place v;
  to_int = λ f. (place f + 2 ^ 63) % u64;
  trunc = λ f. f;
}

place-of_int : (v : ℕ) → place (whole_floats.of_int v) ≡ signed_place v
place-of_int v = ground arith

to_int_exact : (f v : ℕ) → exact_int64 whole_floats f ≡ some v → signed_place v ≡ place f
unfolding exact_int64
to_int_exact f v h = ground arith

whole_floats-FloatLaws : FloatLaws whole_floats
unfolding key_i64
whole_floats-FloatLaws = record {
  rank = place;
  eq_rank = λ a b. refl;
  lt_rank = λ a b. refl;
  le_rank = λ a b. refl;
  of_int_number = λ v. refl;
  of_int_mono = λ a b h. rw (place-of_int a, place-of_int b) h;
  of_int_exact = λ a v f e x. rw (place-of_int a, to_int_exact f v e) refl;
  of_int_exact' = λ a v f e x. rw (place-of_int a, to_int_exact f v e) refl;
}

abbrev count_column : Field
count_column = record { name = codes "n"; data_type = 1; encoding = 0; nullable = true }

-- The counts of a row group lie between -4 and 9.
abbrev small_counts : ColumnSectionMeta
small_counts = record {
  section_offset = 4;
  section_length = 200;
  stats = record { null_count = 1; sum = 12; minimum = u64 - 4; maximum = 9; has_min_max = true };
  dict_offset = 0;
  dict_length = 0;
}

abbrev small_group : RowGroupMeta
small_group = record { file_offset = 4; num_rows = 3; columns = small_counts ∷ [] }

abbrev seven : Row
seven i = some 7

no_time : Bytes → Option ℕ
no_time s = none

-- `n > 5 AND 8 > n AND n BETWEEN 1 AND 9`.
abbrev above_five : Expr
above_five =
    binary_expr op_and
      (binary_expr op_and (binary_expr op_gt (column_ref [] (codes "n")) (int_literal 5))
        (binary_expr op_gt (int_literal 8) (column_ref [] (codes "n"))))
      (between_expr (column_ref [] (codes "n")) (int_literal 1) (int_literal 9) false)

above_five_uniform : is_uniform whole_floats no_time above_five (count_column ∷ []) ≡ true
unfolding is_uniform index_of bytes_eq zone_literal column_name
above_five_uniform = refl

seven-Bounded : Bounded whole_floats whole_floats-FloatLaws no_time 1 small_counts.stats 7
unfolding key_i64
seven-Bounded = record {
  as_int64 = λ t. record { present = refl; low = omega arith; high = omega arith };
  as_date = λ t. absurd (omega arith);
  as_float64 = λ t. absurd (omega arith);
}

small_group-Encloses :
    Encloses whole_floats whole_floats-FloatLaws no_time (count_column ∷ []) small_group seven
small_group-Encloses zero field col a e1 e2 e3 e4 =
    subst (λ f. Bounded whole_floats whole_floats-FloatLaws no_time f.data_type col.stats a)
      (some_inj.0 e1)
      (subst (λ c. Bounded whole_floats whole_floats-FloatLaws no_time 1 c.stats a) (some_inj.0 e2)
        (subst (λ x. Bounded whole_floats whole_floats-FloatLaws no_time 1 small_counts.stats x)
          (some_inj.0 e3) seven-Bounded))
small_group-Encloses (suc i) field col a e1 e2 e3 e4 = absurd (cc)

seven_passes : may_pass whole_floats no_time above_five (count_column ∷ []) seven ≡ true
unfolding may_pass index_of bytes_eq zone_literal comparison_kind column_name cmp
seven_passes = refl

zone_pred_eval-Keeps_example :
    zone_pred_eval whole_floats no_time above_five (count_column ∷ []) small_group ≡ true
zone_pred_eval-Keeps_example =
    zone_pred_eval-Keeps whole_floats whole_floats-FloatLaws no_time above_five (count_column ∷ [])
      small_group seven small_group-Encloses above_five_uniform seven_passes

-- No row of the group is above 20.
zone_pred_eval_skips :
    zone_pred_eval whole_floats no_time
      (binary_expr op_gt (column_ref [] (codes "n")) (int_literal 20))
      (count_column ∷ [])
      small_group
    ≡ false
unfolding zone_pred_eval index_of bytes_eq zone_literal
zone_pred_eval_skips = refl

-- Whole numbers of which an odd one is rounded to the next, as float64 rounds 2^53 + 3.
abbrev even_floats : FloatOps
even_floats = record whole_floats { of_int = λ v. (v + 1) / 2 * 2; trunc = λ f. 0 }

-- The counts of this group are 96.
abbrev one_group : RowGroupMeta
one_group = record {
  file_offset = 4;
  num_rows = 1;
  columns =
      record small_counts {
        stats = record { null_count = 0; sum = 96; minimum = 96; maximum = 96; has_min_max = true };
      }
      ∷ [];
}

-- `n BETWEEN 2.0 AND 95` where 2.0 is taken to have a fraction: exec compares 96 with 95 as floats.
abbrev mixed_between : Expr
mixed_between = between_expr (column_ref [] (codes "n")) (float_literal 2) (int_literal 95) false

mixed_between_passes :
    may_pass even_floats no_time mixed_between (count_column ∷ []) (λ i. some 96) ≡ true
unfolding may_pass index_of bytes_eq zone_literal column_name cmp exact_int64 float64_of
mixed_between_passes = refl

-- The bounds of different types are compared one by one, and the row group is ruled out.
mixed_between_skips :
    zone_pred_eval even_floats no_time mixed_between (count_column ∷ []) one_group ≡ false
unfolding zone_pred_eval index_of bytes_eq zone_literal
mixed_between_skips = refl

abbrev count_ref : Expr
count_ref = column_ref [] (codes "n")

abbrev count_scan : LogicalScan
count_scan = record {
  table_name = codes "t";
  file_path = codes "t.vxq";
  fields = count_column ∷ [];
  predicate = present (binary_expr op_gt count_ref (int_literal 1));
  needed_cols = none;
  source_names = [];
}

-- Two filters over a scan that has a predicate, below a projection of the column.
abbrev two_filters : LogicalNode
two_filters =
    logical_project
      (logical_filter
        (logical_filter (logical_scan count_scan) (binary_expr op_gt count_ref (int_literal 2)))
        (binary_expr op_gt (int_literal 9) count_ref))
      (record { alias = codes "m"; expr = count_ref; data_type = 1 } ∷ [])

-- Rows are numbers, and only AND and the comparisons with a column read them.
compare_rows : Expr → ℕ → Bool
compare_rows (binary_expr op_and p q) r = compare_rows p r && compare_rows q r
compare_rows (binary_expr op_gt (column_ref t n) (int_literal v)) r = ltb v r
compare_rows (binary_expr op_gt (int_literal v) (column_ref t n)) r = ltb r v
compare_rows e r = true

abbrev number_rows : Operators ℕ
number_rows = record {
  table = λ name path. 1 ∷ 2 ∷ 3 ∷ 9 ∷ 10 ∷ [];
  is_true = compare_rows;
  project = λ exprs rows. rows;
  aggregate = λ group_by aggs rows. rows;
  sort = λ order_by rows. rows;
  limit = λ count offset rows. rows;
  distinct = λ rows. rows;
  join = λ cond l r. l ++ r;
}

compare_rows-and :
    (p q : Expr) (r : ℕ)
    → compare_rows (binary_expr op_and p q) r ≡ (compare_rows p r && compare_rows q r)
unfolding compare_rows
compare_rows-and p q r = refl

push_predicates-rows_of_example :
    (rows_of number_rows (push_predicates two_filters) ≡ rows_of number_rows two_filters)
    × FilterFree (push_predicates two_filters)
push_predicates-rows_of_example = push_predicates-rows_of number_rows compare_rows-and two_filters

-- `n BETWEEN 1 AND CASE WHEN m > 2 THEN n END`.
abbrev nested_columns : Expr
nested_columns =
    between_expr count_ref (int_literal 1)
      (case_expr
        (more_whens (binary_expr op_gt (column_ref [] (codes "m")) (int_literal 2)) count_ref
          no_whens)
        absent)
      false

collect_cols-columns_of_example :
    collect_cols nested_columns (codes "a" ∷ []) ≡ codes "a" ∷ [] ++ columns_of nested_columns
collect_cols-columns_of_example = collect_cols-columns_of nested_columns (codes "a" ∷ [])

nested_columns-SubqueryFree : SubqueryFree nested_columns
unfolding SubqueryFree
nested_columns-SubqueryFree = (tt, tt, (((tt, tt), tt, tt), tt))

qualified : Bytes → Bytes
qualified name = codes "t." ++ name

rewrite_expr-renaming_example :
    (e' : Expr) × (rewrite_expr (renaming qualified) nested_columns ≡ ok e')
    × (columns_of e' ≡ map qualified (columns_of nested_columns))
rewrite_expr-renaming_example =
    rewrite_expr-renaming qualified nested_columns nested_columns-SubqueryFree
