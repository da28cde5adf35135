-- ===== src/Storage/Writer/Sections.antt =====
-- A section is written without a panic, and what it says of itself fits the footer.
use vexq.Storage.Dict.{marshal, new_dict_builder, add, DictBuilder}
use vexq.Storage.Rle.RoundTrip.{decode-encode_rle_bool}
use vexq.Storage.Rle.{encode_rle_bool}
use vexq.Storage.Bitmap.Laws.{is_null_bit-null_at, null_at, Covers}
use vexq.Storage.Schema.{ZoneMap}
use vexq.Storage.Blocks.{
  write_string_blocks, assign_codes, FloatStats, write_date_blocks, write_float64_blocks,
  write_bool_blocks, note_float64, count_null, write_int64_blocks, note_int64, Floats, note_date,
  no_stats,
}
use vexq.Storage.Writer.{
  plain_section, string_values, bool_values, date_values, float64_values, int64_values, Values,
  Section, write_section,
}
use vexq.Prelude.{
  ◌>>=◌, ltb, if◌then◌else◌, codes, length, length-append, All, Bytes, u32, u64, Result, ok, ℕ, suc,
  ◌+◌, ◌-◌, ◌%◌, ◌≤◌, ◌<◌, ◌≡◌, refl, sym, ap, subst, Bool, false, List, [], ◌∷◌, ◌++◌, arith,
}
use vexq.Storage.Blocks.ZoneMaps.{fixed_blocks-noted}
use vexq.Storage.Blocks.Rows.{noted, noted-keeps, write_blocks-noted}

-- The number of rows, and values that are words of their type's width.
abbrev pub count_of : Values → ℕ
count_of (int64_values vs) = length vs
count_of (float64_values vs) = length vs
count_of (date_values vs) = length vs
count_of (bool_values vs) = length vs
count_of (string_values vs) = length vs

abbrev pub AreWords : Values → Type 0
AreWords (int64_values vs) = All (λ v. v < u64) vs
AreWords (float64_values vs) = All (λ v. v < u64) vs
AreWords (date_values vs) = All (λ v. v < u32) vs
AreWords (bool_values vs) = Unit
AreWords (string_values vs) = Unit

-- Statistics of 64-bit words, when `left` more rows may be null.
pub record StatsFit (left : ℕ) (st : ZoneMap) : Type 0 where
  pub null_count : st.null_count + left < u64
  pub sum : st.sum < u64
  pub minimum : st.minimum < u64
  pub maximum : st.maximum < u64

pub record SectionFits (s : Section) : Type 0 where
  pub stats : StatsFit 0 s.stats
  pub dict_offset : s.dict_offset < u32
  pub dict_length : s.dict_length < u32

-- Sums of 64-bit patterns are 64-bit patterns.
pub record AreFloats (fl : Floats) : Type 0 where
  pub add_fits : (a b : ℕ) → a < u64 → b < u64 → fl.float_add a b < u64

note_int64-StatsFit :
    (n v : ℕ) (st : ZoneMap) → v < u64 → StatsFit (suc n) st → StatsFit n (note_int64 st v)
unfolding note_int64
note_int64-StatsFit n v st h f = ground arith

note_date-StatsFit :
    (n v : ℕ) (st : ZoneMap) → v < u32 → StatsFit (suc n) st → StatsFit n (note_date st v)
unfolding note_date
note_date-StatsFit n v st h f = ground arith

count_null-StatsFit : (n : ℕ) (st : ZoneMap) → StatsFit (suc n) st → StatsFit n (count_null st)
count_null-StatsFit n st f = ground arith

no_stats-StatsFit : (n : ℕ) → n < u64 → StatsFit n no_stats
no_stats-StatsFit n h = ground arith

-- A section with no dictionary.
plain-Written :
    (r : Result (Bytes × ZoneMap)) (out : Bytes) (st : ZoneMap)
    → r ≡ ok (out, st)
    → StatsFit 0 st
    → (s : Section) × ((r >>= plain_section) ≡ ok s) × SectionFits s
unfolding plain_section
plain-Written r out st e fits = (
  record { bytes = out; stats = st; dict_offset = 0; dict_length = 0 },
  ap (λ m. m >>= plain_section) e,
  record { stats = fits; dict_offset = omega arith; dict_length = omega arith },
)

-- The statistics of float64 values, likewise.
record FloatsFit (left : ℕ) (st : FloatStats) : Type 0 where
  nulls : st.nulls + left < u64
  sum : st.sum_f < u64
  low : st.min_f < u64
  high : st.max_f < u64

note_float64-FloatsFit :
    (fl : Floats)
    → AreFloats fl
    → (n v : ℕ) (st : FloatStats) → v < u64
    → FloatsFit (suc n) st
    → FloatsFit n (note_float64 fl st v)
unfolding note_float64
note_float64-FloatsFit fl a n v st h f = ground (arith, a.add_fits st.sum_f v)

float_zone_map-StatsFit :
    (st : FloatStats)
    → FloatsFit 0 st
    → StatsFit 0 (record {
      null_count = st.nulls;
      sum = st.sum_f;
      minimum = if st.has then st.min_f else 0;
      maximum = if st.has then st.max_f else 0;
      has_min_max = st.has;
    })
float_zone_map-StatsFit st f = ground arith

All-any : (vs : List Bool) → All (λ v. Unit {0}) vs
All-any [] = tt
All-any (v ∷ vs) = (tt, All-any vs)

keys-add : (db : DictBuilder) (v : Bytes) → length (add db v).0.keys ≤ length db.keys + 1
unfolding add
keys-add db v = ground (arith, length-append db.keys (v ∷ []))

-- A code for each row; at most as many nulls and new keys as rows.
assign_codes_lem :
    (nulls : Bytes) (total i : ℕ) (vs : List Bytes) (db : DictBuilder) (null_count : ℕ)
    → Covers nulls total
    → i + length vs ≤ total
    → (codes : List ℕ) × (db' : DictBuilder) × (n : ℕ) × (assign_codes nulls i vs db null_count
        ≡ ok (codes, db', n))
      × (length codes ≡ length vs)
      × (n ≤ null_count + length vs)
      × (length db'.keys ≤ length db.keys + length vs)
unfolding assign_codes
assign_codes_lem nulls total i [] db null_count c h =
    ([], db, null_count, refl, refl, omega arith, omega arith)
assign_codes_lem nulls total i (v ∷ vs) db null_count c h =
    let null : Bool = null_at nulls i in
    let db' : DictBuilder = if null then db else (add db v).0 in
    let count : ℕ = if null then null_count + 1 else null_count in
    let (codes, db'', n, e, size, le, keys) =
      assign_codes_lem nulls total (i + 1) vs db' count c (omega arith) in
    (
      (if null then 0xFFFFFFFF else (add db v).1) ∷ codes,
      db'',
      n,
      rw (is_null_bit-null_at i c (omega arith), e) refl,
      ap suc size,
      ground (arith, le),
      ground (arith, keys, keys-add db v),
    )

module _ (fl : Floats) (nulls : Bytes) where
  int64-Written :
      (vs : List ℕ)
      → Covers nulls (length vs)
      → length vs < u32
      → All (λ v. v < u64) vs
      → (s : Section) × (write_section fl nulls (int64_values vs) ≡ ok s) × SectionFits s
  unfolding write_section write_int64_blocks
  int64-Written vs c few h =
      let (out, e) = fixed_blocks-noted note_int64 count_null 8 nulls vs [] no_stats c in
      plain-Written _ out _ e (
        noted-keeps note_int64 count_null StatsFit (λ v. v < u64) note_int64-StatsFit
          count_null-StatsFit (null_at nulls) 0 vs no_stats h
          (no_stats-StatsFit (length vs) (omega arith)))

  date-Written :
      (vs : List ℕ)
      → Covers nulls (length vs)
      → length vs < u32
      → All (λ v. v < u32) vs
      → (s : Section) × (write_section fl nulls (date_values vs) ≡ ok s) × SectionFits s
  unfolding write_section write_date_blocks
  date-Written vs c few h =
      let (out, e) = fixed_blocks-noted note_date count_null 4 nulls vs [] no_stats c in
      plain-Written _ out _ e (
        noted-keeps note_date count_null StatsFit (λ v. v < u32) note_date-StatsFit
          count_null-StatsFit (null_at nulls) 0 vs no_stats h
          (no_stats-StatsFit (length vs) (omega arith)))

  float64-Written :
      (vs : List ℕ)
      → AreFloats fl
      → Covers nulls (length vs)
      → length vs < u32
      → All (λ v. v < u64) vs
      → (s : Section) × (write_section fl nulls (float64_values vs) ≡ ok s) × SectionFits s
  unfolding write_section write_float64_blocks
  float64-Written vs a c few h =
      let zero_stats : FloatStats = record {
        nulls = 0;
        sum_f = 0;
        min_f = 0;
        max_f = 0;
        has = false;
      } in
      let one_more : FloatStats → FloatStats = λ st. record st { nulls = st.nulls + 1 } in
      let (out, e) = fixed_blocks-noted (note_float64 fl) one_more 8 nulls vs [] zero_stats c in
      let fits : FloatsFit 0 (noted (note_float64 fl) one_more (null_at nulls) 0 vs zero_stats) =
        noted-keeps (note_float64 fl) one_more FloatsFit (λ v. v < u64)
          (note_float64-FloatsFit fl a) (λ n st f. ground arith) (null_at nulls) 0 vs zero_stats h
          (ground arith) in
      plain-Written _ out _
        (ap
          (λ r. r >>= (λ (out, st). ok (
            out,
            record {
              null_count = st.nulls;
              sum = st.sum_f;
              minimum = if st.has then st.min_f else 0;
              maximum = if st.has then st.max_f else 0;
              has_min_max = st.has;
            },
          )))
          e)
        (float_zone_map-StatsFit _ fits)

  bool-Written :
      (vs : List Bool)
      → Covers nulls (length vs)
      → length vs < u32
      → (s : Section) × (write_section fl nulls (bool_values vs) ≡ ok s) × SectionFits s
  unfolding write_section write_bool_blocks
  bool-Written vs c few =
      let keep : ZoneMap → Bool → ZoneMap = λ stats v. stats in
      let (out, e) =
        write_blocks-noted keep count_null encode_rle_bool nulls (length vs) (length vs) 0 vs []
          no_stats
          (λ vals bm h b. let r = decode-encode_rle_bool vals bm b (omega arith) in (r.0, r.3)) c
          (omega arith) (omega arith) in
      plain-Written _ out _ e (
        noted-keeps keep count_null StatsFit (λ v. Unit) (λ n v st t f. ground arith)
          count_null-StatsFit (null_at nulls) 0 vs no_stats (All-any vs)
          (no_stats-StatsFit (length vs) (omega arith)))

  string-Written :
      (vs : List Bytes)
      → Covers nulls (length vs)
      → length vs < u32
      → (s : Section) × (write_section fl nulls (string_values vs) ≡ ok s) × SectionFits s
  unfolding write_section write_string_blocks
  string-Written vs c few =
      let (codes, db, n, e, size, le, keys) =
        assign_codes_lem nulls (length vs) 0 vs new_dict_builder 0 c (omega arith) in
      let (out, w) =
        fixed_blocks-noted (λ (st : Unit {0}) (v : ℕ). st) (λ st. st) 4 nulls codes [] tt
          (subst (Covers nulls) (sym size) c) in
      let stats : ZoneMap = record {
        null_count = n;
        sum = 0;
        minimum = 0;
        maximum = length db.keys - 1;
        has_min_max = ltb 0 (length db.keys);
      } in
      (
        record {
          bytes = out ++ marshal db;
          stats = stats;
          dict_offset = length out % u32;
          dict_length = length (marshal db) % u32;
        },
        rw (e, w) refl,
        record {
          stats = record {
            null_count = omega arith;
            sum = omega arith;
            minimum = omega arith;
            maximum = omega arith;
          };
          dict_offset = omega arith;
          dict_length = omega arith;
        },
      )

-- Any column whose bitmap covers its rows, and of words, is written.
pub write_section-SectionFits :
    (fl : Floats) (nulls : Bytes) (values : Values)
    → AreFloats fl
    → Covers nulls (count_of values)
    → count_of values < u32
    → AreWords values
    → (s : Section) × (write_section fl nulls values ≡ ok s) × SectionFits s
write_section-SectionFits fl nulls (int64_values vs) a c few h = int64-Written fl nulls vs c few h
write_section-SectionFits fl nulls (float64_values vs) a c few h =
    float64-Written fl nulls vs a c few h
write_section-SectionFits fl nulls (date_values vs) a c few h = date-Written fl nulls vs c few h
write_section-SectionFits fl nulls (bool_values vs) a c few h = bool-Written fl nulls vs c few
write_section-SectionFits fl nulls (string_values vs) a c few h = string-Written fl nulls vs c few
