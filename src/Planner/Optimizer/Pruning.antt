-- ===== src/Planner/Optimizer/Pruning.antt =====
-- Column pruning leaves every column that an expression of the plan names, and every needed one.
use vexq.Prelude.{
  Bool-cases, bytes_eq, bytes_eq→eq, All, Bytes, ℕ, ◌≡◌, refl, sym, ap, ◌∙◌, inl, inr, true, false,
  ◌&&◌, ◌||◌, Option, none, some, List, [], ◌∷◌, ◌++◌, map, arith,
}
use vexq.Sql.Ast.{Expr, present, column_ref}
use vexq.Storage.Schema.{Field}
use vexq.Planner.Walk.{predicate_cols}
use vexq.Planner.Logical.{
  LogicalScan, AggItem, LogicalNode, logical_scan, logical_filter, logical_project,
  logical_aggregate, logical_sort, logical_limit, logical_distinct, logical_join, expr_name,
}
use vexq.Planner.Optimizer.{
  member, unique_from, unique_strings, add_needed, filter_names, schema_cols_in, sort_cols,
  project_cols, group_cols, agg_cols, scan_names, output_names, side_needed, scan_needed,
  prune_columns,
}

pub member-append :
    (c : Bytes) (xs ys : List Bytes) → member c (xs ++ ys) ≡ (member c xs || member c ys)
unfolding member
member-append c [] ys = refl
member-append c (x ∷ xs) ys = ground (arith, member-append c xs ys)

member-unique_from :
    (c : Bytes) (seen ss : List Bytes)
    → member c seen ≡ false
    → member c (unique_from seen ss) ≡ member c ss
unfolding member unique_from
member-unique_from c seen [] h = refl
member-unique_from c seen (s ∷ ss) h = elim (Bool-cases (member s seen)) [
  | inl e ↦ elim (Bool-cases (bytes_eq s c)) [
    | inl q ↦ absurd (cc (h, e, bytes_eq→eq s c q))
    | inr q ↦ rw (e, q) (member-unique_from c seen ss h)
  ]
  | inr e ↦ elim (Bool-cases (bytes_eq s c)) [
    | inl q ↦ rw (e, q) refl
    | inr q ↦ rw (e, q) (member-unique_from c (s ∷ seen) ss (rw (q, h) refl))
  ]
]

member_unique : (c : Bytes) (ss : List Bytes) → member c (unique_strings ss) ≡ member c ss
unfolding unique_strings
member_unique c ss = member-unique_from c [] ss (unfold member in refl)

member-filter_names :
    (c : Bytes) (want names : List Bytes)
    → member c (filter_names want names) ≡ (member c want && member c names)
unfolding member filter_names
member-filter_names c want [] = ground arith
member-filter_names c want (n ∷ names) = elim (Bool-cases (bytes_eq n c)) [
  | inl q ↦
      ground (arith, ap (λ x. member x want) (bytes_eq→eq n c q), member-filter_names c want names)
  | inr q ↦ ground (arith, member-filter_names c want names)
]

member-append_mono :
    (c : Bytes) (xs ys xs' ys' : List Bytes)
    → (member c xs ≡ true → member c xs' ≡ true)
    → (member c ys ≡ true → member c ys' ≡ true)
    → member c (xs ++ ys) ≡ true
    → member c (xs' ++ ys') ≡ true
member-append_mono c xs ys xs' ys' hx hy m = elim (Bool-cases (member c xs)) [
  | inl e ↦ rw (member-append c xs' ys', hx e) refl
  | inr e ↦
      let m' : member c ys ≡ true = rw (member-append c xs ys, e) at m in
      ground (arith, member-append c xs' ys', hy m')
]

filter_names_mono :
    (c : Bytes) (want want' names : List Bytes)
    → (member c want ≡ true → member c names ≡ true → member c want' ≡ true)
    → member c (filter_names want names) ≡ true
    → member c (filter_names want' names) ≡ true
filter_names_mono c want want' names h m =
    let a : member c want ≡ true = ground (arith, member-filter_names c want names) in
    let b : member c names ≡ true = ground (arith, member-filter_names c want names) in
    rw (member-filter_names c want' names, h a b, b) refl

member-left : (c : Bytes) (xs ys : List Bytes) → member c xs ≡ true → member c (xs ++ ys) ≡ true
member-left c xs ys h = rw (member-append c xs ys, h) refl

-- What an ancestor needs; nothing says every column.
abbrev pub Needs : Option (List Bytes) → Bytes → Type 0
Needs none c = Unit
Needs (some names) c = member c names ≡ true

-- Every name of one list stands in the other.
abbrev pub Sub : List Bytes → List Bytes → Type 0
Sub xs ys = (c : Bytes) → member c xs ≡ true → member c ys ≡ true

Needs-add :
    (needed : Option (List Bytes)) (extra : List Bytes) (c : Bytes)
    → Needs needed c
    → Needs (add_needed needed extra) c
unfolding add_needed
Needs-add none extra c h = tt
Needs-add (some ns) extra c h =
    ground (arith, member_unique c (ns ++ extra), member-append c ns extra)

Needs-extra :
    (needed : Option (List Bytes)) (extra : List Bytes) (c : Bytes)
    → member c extra ≡ true
    → Needs (add_needed needed extra) c
unfolding add_needed
Needs-extra none extra c h = tt
Needs-extra (some ns) extra c h =
    ground (arith, member_unique c (ns ++ extra), member-append c ns extra)

scan_names-old :
    (names : List Bytes) (o : Option (List Bytes)) (c : Bytes)
    → member c (scan_names names o) ≡ true
    → member c names ≡ true
unfolding scan_names
scan_names-old names none c m = m
scan_names-old names (some []) c m = m
scan_names-old names (some (n ∷ ns)) c m = ground (arith, member-filter_names c names (n ∷ ns))

scan_names-new :
    (names ns : List Bytes) (c : Bytes)
    → member c names ≡ true
    → member c ns ≡ true
    → member c (scan_names names (some ns)) ≡ true
unfolding scan_names
scan_names-new names [] c m h = m
scan_names-new names (n ∷ ns) c m h = rw (member-filter_names c names (n ∷ ns), m, h) refl

schema_cols_in-Needs :
    (names want : List Bytes) (c : Bytes)
    → member c names ≡ true
    → member c want ≡ true
    → Needs (schema_cols_in names want) c
unfolding schema_cols_in
schema_cols_in-Needs names want c m h =
    by_names (filter_names want names) (rw (member-filter_names c want names, m, h) refl)
  where
    by_names :
        (l : List Bytes)
        → member c l ≡ true
        → Needs (elim l [ [] ↦ none | n ∷ ns ↦ some (n ∷ ns) ]) c
    by_names [] e = tt
    by_names (n ∷ ns) e = e

-- The expressions are columns.
abbrev pub IsColumn : Expr → Type 0
IsColumn (column_ref table name) = Unit
IsColumn e = ⊥

module _ (format_int format_float : ℕ → Bytes) where
  -- Every column that an expression names is put out by the node below it; GROUP BY is on columns.
  unfoldable pub WellScoped : LogicalNode → Type 0
  WellScoped (logical_scan s) =
      Sub (predicate_cols s.predicate) (output_names format_int format_float (logical_scan s))
  WellScoped (logical_filter child p) =
      Sub (predicate_cols (present p)) (output_names format_int format_float child)
      × WellScoped child
  WellScoped (logical_project child exprs) =
      Sub (project_cols exprs) (output_names format_int format_float child) × WellScoped child
  WellScoped (logical_aggregate child group_by aggs) =
      Sub (group_cols group_by ++ agg_cols aggs) (output_names format_int format_float child)
      × All IsColumn group_by
      × WellScoped child
  WellScoped (logical_sort child order_by) =
      Sub (sort_cols order_by) (output_names format_int format_float child) × WellScoped child
  WellScoped (logical_limit child count offset) = WellScoped child
  WellScoped (logical_distinct child) = WellScoped child
  WellScoped (logical_join l r cond) =
      Sub (predicate_cols (present cond))
        (output_names format_int format_float l ++ output_names format_int format_float r)
      × WellScoped l
      × WellScoped r

  -- Needed names that were put out still are.
  abbrev pub Keeps : Option (List Bytes) → LogicalNode → LogicalNode → Type 0
  Keeps needed n n' =
      (c : Bytes)
      → Needs needed c
      → member c (output_names format_int format_float n) ≡ true
      → member c (output_names format_int format_float n') ≡ true

  scan-Keeps :
      (s : LogicalScan) (needed : Option (List Bytes))
      → Keeps needed (logical_scan s) (logical_scan (scan_needed format_int format_float s needed))
  unfolding output_names scan_needed
  scan-Keeps s none c h m = m
  scan-Keeps s (some ns) c h m =
      scan_names-new (map (λ (f : Field). f.name) s.fields)
        (unique_strings (ns ++ predicate_cols s.predicate)) c
        (scan_names-old (map (λ (f : Field). f.name) s.fields) s.needed_cols c m)
        (Needs-add (some ns) (predicate_cols s.predicate) c h)

  group-names :
      (c : Bytes) (exprs : List Expr)
      → All IsColumn exprs
      → member c (map (expr_name format_int format_float) exprs) ≡ true
      → member c (group_cols exprs) ≡ true
  unfolding group_cols expr_name member predicate_cols
  group-names c [] h m = m
  group-names c (column_ref table name ∷ exprs) (h, hs) m = ground (arith, group-names c exprs hs)
  group-names c (e ∷ exprs) (h, hs) m = absurd h

  side-Needs :
      (side : LogicalNode) (cond : Expr) (needed : Option (List Bytes)) (c : Bytes)
      → Needs (add_needed needed (predicate_cols (present cond))) c
      → member c (output_names format_int format_float side) ≡ true
      → Needs (side_needed format_int format_float side cond needed) c
  unfolding side_needed add_needed
  side-Needs side cond none c h m = tt
  side-Needs side cond (some ns) c h m =
      schema_cols_in-Needs (output_names format_int format_float side)
        (ns ++ predicate_cols (present cond)) c m
        (sym (member_unique c (ns ++ predicate_cols (present cond))) ∙ h)

  -- What is left is well scoped, and no needed column is lost.
  pub prune-Both :
      (n : LogicalNode) (needed : Option (List Bytes))
      → WellScoped n
      → WellScoped (prune_columns format_int format_float n needed)
        × Keeps needed n (prune_columns format_int format_float n needed)
  unfolding WellScoped prune_columns output_names
  prune-Both (logical_scan s) none ws = (ws, λ c h m. m)
  prune-Both (logical_scan s) (some ns) ws = (
    λ c m.
        scan_names-new (map (λ (f : Field). f.name) s.fields)
          (unique_strings (ns ++ predicate_cols s.predicate)) c
          (scan_names-old (map (λ (f : Field). f.name) s.fields) s.needed_cols c (ws c m))
          (Needs-extra (some ns) (predicate_cols s.predicate) c m),
    scan-Keeps s (some ns),
  )
  prune-Both (logical_filter child p) needed (sub, ws) =
      let cols = predicate_cols (present p) in
      let (ws', keeps) = prune-Both child (add_needed needed cols) ws in
      (
        (λ c m. keeps c (Needs-extra needed cols c m) (sub c m), ws'),
        λ c h m. keeps c (Needs-add needed cols c h) m,
      )
  prune-Both (logical_project child exprs) needed (sub, ws) =
      let cols = project_cols exprs in
      let (ws', keeps) = prune-Both child (some (unique_strings cols)) ws in
      ((λ c m. keeps c (member_unique c cols ∙ m) (sub c m), ws'), λ c h m. m)
  prune-Both (logical_aggregate child group_by aggs) needed (sub, columns, ws) =
      let cols = group_cols group_by ++ agg_cols aggs in
      let (ws', keeps) = prune-Both child (some (unique_strings cols)) ws in
      (
        (λ c m. keeps c (member_unique c cols ∙ m) (sub c m), columns, ws'),
        λ c h m.
            member-append_mono c _ (map (λ (agg : AggItem). agg.alias) aggs) _
              (map (λ (agg : AggItem). agg.alias) aggs)
              (filter_names_mono c (output_names format_int format_float child) _
                (map (expr_name format_int format_float) group_by)
                (λ a b.
                  keeps c
                    (member_unique c cols
                      ∙ member-left c (group_cols group_by) (agg_cols aggs)
                          (group-names c group_by columns b))
                    a))
              (λ e. e) m,
      )
  prune-Both (logical_sort child order_by) needed (sub, ws) =
      let cols = sort_cols order_by in
      let (ws', keeps) = prune-Both child (add_needed needed cols) ws in
      (
        (λ c m. keeps c (Needs-extra needed cols c m) (sub c m), ws'),
        λ c h m. keeps c (Needs-add needed cols c h) m,
      )
  prune-Both (logical_limit child count offset) needed ws = prune-Both child needed ws
  prune-Both (logical_distinct child) needed ws = prune-Both child needed ws
  prune-Both (logical_join l r cond) needed (sub, wl, wr) =
      let cols = predicate_cols (present cond) in
      let (wl', kl) = prune-Both l (side_needed format_int format_float l cond needed) wl in
      let (wr', kr) = prune-Both r (side_needed format_int format_float r cond needed) wr in
      let both : (c : Bytes)
          → Needs (add_needed needed cols) c
          → member c
              (output_names format_int format_float l ++ output_names format_int format_float r)
            ≡ true
          → member c (
              output_names format_int format_float (
                prune_columns format_int format_float l
                  (side_needed format_int format_float l cond needed))
              ++ output_names format_int format_float (
                  prune_columns format_int format_float r
                    (side_needed format_int format_float r cond needed)))
            ≡ true =
        λ c h m.
          member-append_mono c (output_names format_int format_float l)
            (output_names format_int format_float r) _ _
            (λ a. kl c (side-Needs l cond needed c h a) a)
            (λ b. kr c (side-Needs r cond needed c h b) b) m in
      (
        (λ c m. both c (Needs-extra needed cols c m) (sub c m), wl', wr'),
        λ c h m. both c (Needs-add needed cols c h) m,
      )
