-- ===== src/Storage/Blocks/ZoneMaps.antt =====
-- The statistics of an INT64 or DATE section: the null count, and the bounds by which a scan skips
-- row groups.
use vexq.Storage.Bitmap.Laws.{null_at, Covers}
use vexq.Storage.Schema.{ZoneMap}
use vexq.Storage.Blocks.{
  no_stats, write_blocks, fixed_block, write_int64_blocks, write_date_blocks, count_null,
  note_int64, note_date,
}
use vexq.Prelude.{
  if◌then◌else◌, Bool-cases, length, get_or, Bytes, u32, u64, ok, ℕ, zero, suc, ◌+◌, ◌%◌, ◌^◌, ◌≤◌,
  ◌<◌, ◌≡◌, refl, ap, ◌∙◌, inl, inr, Bool, true, false, List, [], ◌∷◌, arith,
}
use vexq.Storage.Blocks.Rows.{write_blocks-noted, noted}

-- The null rows among `n` rows from `i` on.
pub nulls_in : (ℕ → Bool) → ℕ → ℕ → ℕ
nulls_in f i zero = 0
nulls_in f i (suc n) = (if f i then 1 else 0) + nulls_in f (i + 1) n

-- `note` keeps the least and the greatest value, by the order of `key`.
record Tracks (key : ℕ → ℕ) (note : ZoneMap → ℕ → ZoneMap) : Type 0 where
  nulls : (st : ZoneMap) (v : ℕ) → (note st v).null_count ≡ st.null_count
  present : (st : ZoneMap) (v : ℕ) → (note st v).has_min_max ≡ true
  low :
      (st : ZoneMap) (v : ℕ)
      → (key (note st v).minimum ≤ key v)
        × (st.has_min_max ≡ true → key (note st v).minimum ≤ key st.minimum)
  high :
      (st : ZoneMap) (v : ℕ)
      → (key v ≤ key (note st v).maximum)
        × (st.has_min_max ≡ true → key st.maximum ≤ key (note st v).maximum)

-- The values between a zone map's bounds.
pub record Within (key : ℕ → ℕ) (st : ZoneMap) (v : ℕ) : Type 0 where
  pub present : st.has_min_max ≡ true
  pub low : key st.minimum ≤ key v
  pub high : key v ≤ key st.maximum

module _ (key : ℕ → ℕ) (note : ZoneMap → ℕ → ZoneMap) (t : Tracks key note) where
  noted-null_count :
      (f : ℕ → Bool) (i : ℕ) (vs : List ℕ) (st : ZoneMap)
      → (noted note count_null f i vs st).null_count ≡ st.null_count + nulls_in f i (length vs)
  unfolding noted nulls_in
  noted-null_count f i [] st = omega arith
  noted-null_count f i (v ∷ vs) st = ground (
    arith,
    noted-null_count f (i + 1) vs (if f i then count_null st else note st v),
    t.nulls st v,
  )

  -- The bounds only widen.
  noted-Within :
      (f : ℕ → Bool) (i : ℕ) (vs : List ℕ) (st : ZoneMap) (u : ℕ)
      → Within key st u
      → Within key (noted note count_null f i vs st) u
  unfolding noted
  noted-Within f i [] st u w = w
  noted-Within f i (v ∷ vs) st u w = elim (Bool-cases (f i)) [
    | inl e ↦ rw e (
        noted-Within f (i + 1) vs (count_null st) u
          (record { present = w.present; low = w.low; high = w.high }))
    | inr e ↦ rw e (
        noted-Within f (i + 1) vs (note st v) u (record {
          present = t.present st v;
          low = omega (arith, w.low, (t.low st v).1 w.present);
          high = omega (arith, w.high, (t.high st v).1 w.present);
        }))
  ]

  noted-row :
      (f : ℕ → Bool) (i : ℕ) (vs : List ℕ) (st : ZoneMap) (j : ℕ)
      → j < length vs
      → f (i + j) ≡ false
      → Within key (noted note count_null f i vs st) (get_or vs j 0)
  unfolding noted
  noted-row f i [] st j h e = absurd (omega arith)
  noted-row f i (v ∷ vs) st zero h e =
      let e' : f i ≡ false = ap f (omega arith) ∙ e in
      rw e' (
        noted-Within f (i + 1) vs (note st v) v
          (record { present = t.present st v; low = (t.low st v).0; high = (t.high st v).0 }))
  noted-row f i (v ∷ vs) st (suc j) h e =
      noted-row f (i + 1) vs (if f i then count_null st else note st v) j (omega arith)
        (ap f (omega arith) ∙ e)

-- The order of int64 and of int32 values that are given as bit patterns.
unfoldable pub key_i64 : ℕ → ℕ
key_i64 v = (v + 2 ^ 63) % u64

unfoldable pub key_i32 : ℕ → ℕ
key_i32 v = (v + 2 ^ 31) % u32

note_int64-Tracks : Tracks key_i64 note_int64
unfolding note_int64 key_i64
note_int64-Tracks = record {
  nulls = λ st v. ground arith;
  present = λ st v. ground arith;
  low = λ st v. ground arith;
  high = λ st v. ground arith;
}

note_date-Tracks : Tracks key_i32 note_date
unfolding note_date key_i32
note_date-Tracks = record {
  nulls = λ st v. ground arith;
  present = λ st v. ground arith;
  low = λ st v. ground arith;
  high = λ st v. ground arith;
}

-- What a zone map says of a column: the number of nulls, and that every other value lies within the
-- bounds.
pub record Summary (key : ℕ → ℕ) (nulls : Bytes) (values : List ℕ) (st : ZoneMap) : Type 0 where
  pub null_count : st.null_count ≡ nulls_in (null_at nulls) 0 (length values)
  pub rows :
      (i : ℕ) → i < length values → null_at nulls i ≡ false → Within key st (get_or values i 0)

noted-Summary :
    (key : ℕ → ℕ) (note : ZoneMap → ℕ → ZoneMap)
    → Tracks key note
    → (nulls : Bytes) (values : List ℕ)
    → Summary key nulls values (noted note count_null (null_at nulls) 0 values no_stats)
noted-Summary key note t nulls values = record {
  null_count = omega (arith, noted-null_count key note t (null_at nulls) 0 values no_stats);
  rows = λ i h e.
      noted-row key note t (null_at nulls) 0 values no_stats i h
        (ap (null_at nulls) (omega arith) ∙ e);
}

-- A column of words of any width, of any number of blocks, is written for a bitmap that covers its
-- rows, and the statistics that are kept block by block are those of one pass over the rows.
pub fixed_blocks-noted :
    {St : Type 0} (note : St → ℕ → St) (note_null : St → St) (k : ℕ) (nulls : Bytes)
    (values : List ℕ) (out : Bytes) (st : St)
    → Covers nulls (length values)
    → (out' : Bytes) × (write_blocks note note_null
          (fixed_block k)
          nulls
          (length values)
          0
          values
          out
          st
        ≡ ok (out', noted note note_null (null_at nulls) 0 values st))
unfolding fixed_block
fixed_blocks-noted note note_null k nulls values out st c =
    write_blocks-noted note note_null (fixed_block k) nulls (length values) (length values) 0 values
      out st (λ vals bm h b. (_, refl)) c (omega arith) (omega arith)

-- For a bitmap that covers the rows, an INT64 section is written, the null count of its zone map
-- is the number of NULL rows, and every other value lies between minimum and maximum in the signed
-- order.
pub write_int64_blocks-Summary :
    (nulls : Bytes) (values : List ℕ) (out : Bytes)
    → Covers nulls (length values)
    → (out' : Bytes) × (st : ZoneMap) × (write_int64_blocks nulls values out ≡ ok (out', st))
      × Summary key_i64 nulls values st
unfolding write_int64_blocks
write_int64_blocks-Summary nulls values out c =
    let (out', e) = fixed_blocks-noted note_int64 count_null 8 nulls values out no_stats c in
    (out', _, e, noted-Summary key_i64 note_int64 note_int64-Tracks nulls values)

-- For a bitmap that covers the rows, a DATE section is written, the null count of its zone map is
-- the number of NULL rows, and every other value lies between minimum and maximum in the signed
-- order.
pub write_date_blocks-Summary :
    (nulls : Bytes) (values : List ℕ) (out : Bytes)
    → Covers nulls (length values)
    → (out' : Bytes) × (st : ZoneMap) × (write_date_blocks nulls values out ≡ ok (out', st))
      × Summary key_i32 nulls values st
unfolding write_date_blocks
write_date_blocks-Summary nulls values out c =
    let (out', e) = fixed_blocks-noted note_date count_null 4 nulls values out no_stats c in
    (out', _, e, noted-Summary key_i32 note_date note_date-Tracks nulls values)
