-- ===== src/Storage/Blocks.antt =====
-- storage/writer.go: the blocks of a column section and the statistics that are kept on the way.
pub mod Rows
pub mod ZoneMaps
use vexq.Prelude.{
  ◌>>=◌, ltb, if◌then◌else◌, codes, length, take, drop, replicate, Bytes, u32, u64, ltb_i64,
  ltb_i32, Result, ok, ℕ, zero, suc, ◌+◌, ◌-◌, ◌/◌, ◌%◌, Bool, true, false, List, [], ◌∷◌, ◌++◌,
}
use vexq.Encoding.{to_le, append_checksum}
use vexq.Storage.Bitmap.{is_null_bit, set_valid_bit}
use vexq.Storage.Rle.{encode_rle_bool}
use vexq.Storage.Dict.{DictBuilder, new_dict_builder, add, marshal}
use vexq.Storage.Schema.{ZoneMap, block_rows, null_bitmap_bytes}

-- The rows from `i` on, of which `left` remain.
sub_from : ℕ → ℕ → Bytes → ℕ → Bytes → Result Bytes
sub_from zero i bitmap start sub = ok sub
sub_from (suc left) i bitmap start sub = do
  null ← is_null_bit bitmap (start + i)
  sub ← (if null then ok sub else set_valid_bit sub i)
  sub_from left (i + 1) bitmap start sub

-- The bitmap of the rows `start` to `start + rows`.
unfoldable pub sub_bitmap : Bytes → ℕ → ℕ → Result Bytes
unfolding sub_from
sub_bitmap bitmap start rows = sub_from rows 0 bitmap start (replicate ((rows + 7) / 8) 0)

-- The statistics `St` of a column of `A`: `note` for a value, `note_null` for a null.
module _ {St A : Type 0} (note : St → A → St) (note_null : St → St) where
  unfoldable pub note_rows : Bytes → ℕ → List A → St → Result St
  note_rows block_nulls i [] st = ok st
  note_rows block_nulls i (v ∷ vs) st = do
    null ← is_null_bit block_nulls i
    note_rows block_nulls (i + 1) vs (if null then note_null st else note st v)

  -- The loop over the blocks, from row `start` on; a round takes at least one of the values left.
  unfoldable pub write_blocks :
      (List A → Bytes → Result Bytes) → Bytes → ℕ → ℕ → List A → Bytes → St → Result (Bytes × St)
  unfolding note_rows
  write_blocks block nulls zero start rest out st = ok (out, st)
  write_blocks block nulls (suc fuel) start [] out st = ok (out, st)
  write_blocks block nulls (suc fuel) start (v ∷ vs) out st = do
    let vals = take block_rows (v ∷ vs)
    block_nulls ← sub_bitmap nulls start (length vals)
    bytes ← block vals block_nulls
    st ← note_rows block_nulls 0 vals st
    write_blocks block nulls fuel (start + block_rows) (drop block_rows (v ∷ vs)) (out ++ bytes) st

-- A bitmap of the full size, the words of `k` bytes, and the checksum.
unfoldable pub append_words : ℕ → Bytes → List ℕ → Bytes
append_words k buf [] = buf
append_words k buf (v ∷ vs) = append_words k (buf ++ to_le k v) vs

unfoldable pub fixed_block : ℕ → List ℕ → Bytes → Result Bytes
unfolding append_words
fixed_block k vals block_nulls =
    let bitmap_full =
      take null_bitmap_bytes block_nulls ++ replicate (null_bitmap_bytes - length block_nulls) 0 in
    ok (append_checksum (append_words k bitmap_full vals))

abbrev pub no_stats : ZoneMap
no_stats = record { null_count = 0; sum = 0; minimum = 0; maximum = 0; has_min_max = false }

abbrev pub count_null : ZoneMap → ZoneMap
count_null stats = record stats { null_count = stats.null_count + 1 }

unfoldable pub note_int64 : ZoneMap → ℕ → ZoneMap
note_int64 stats v =
    let summed = record stats { sum = (stats.sum + v) % u64 } in
    if stats.has_min_max
    then record summed {
      minimum = if ltb_i64 v stats.minimum then v else stats.minimum;
      maximum = if ltb_i64 stats.maximum v then v else stats.maximum;
    }
    else record summed { minimum = v; maximum = v; has_min_max = true }

unfoldable pub note_date : ZoneMap → ℕ → ZoneMap
note_date stats v =
    if stats.has_min_max
    then record stats {
      minimum = if ltb_i32 v (stats.minimum % u32) then v else stats.minimum;
      maximum = if ltb_i32 (stats.maximum % u32) v then v else stats.maximum;
    }
    else record stats { minimum = v; maximum = v; has_min_max = true }

-- The section's bytes behind `out`, and the zone map. A value is its bit pattern.
unfoldable pub write_int64_blocks : Bytes → List ℕ → Bytes → Result (Bytes × ZoneMap)
unfolding sub_bitmap write_blocks note_int64 fixed_block
write_int64_blocks nulls values out =
    write_blocks note_int64 count_null (fixed_block 8) nulls (length values) 0 values out no_stats

unfoldable pub write_date_blocks : Bytes → List ℕ → Bytes → Result (Bytes × ZoneMap)
unfolding sub_bitmap write_blocks note_date fixed_block
write_date_blocks nulls values out =
    write_blocks note_date count_null (fixed_block 4) nulls (length values) 0 values out no_stats

unfoldable pub write_bool_blocks : Bytes → List Bool → Bytes → Result (Bytes × ZoneMap)
unfolding sub_bitmap write_blocks
write_bool_blocks nulls values out =
    write_blocks (λ stats v. stats) count_null encode_rle_bool nulls (length values) 0 values out
      no_stats

-- The addition and the order of float64 values, given as bit patterns.
pub record Floats : Type 0 where
  pub float_add : ℕ → ℕ → ℕ
  pub float_lt : ℕ → ℕ → Bool

pub record FloatStats : Type 0 where
  pub nulls : ℕ
  pub sum_f : ℕ
  pub min_f : ℕ
  pub max_f : ℕ
  pub has : Bool

module _ (fl : Floats) where
  unfoldable pub note_float64 : FloatStats → ℕ → FloatStats
  note_float64 st v =
      let summed = record st { sum_f = fl.float_add st.sum_f v } in
      if st.has
      then record summed {
        min_f = if fl.float_lt v st.min_f then v else st.min_f;
        max_f = if fl.float_lt st.max_f v then v else st.max_f;
      }
      else record summed { min_f = v; max_f = v; has = true }

  unfoldable pub write_float64_blocks : Bytes → List ℕ → Bytes → Result (Bytes × ZoneMap)
  unfolding sub_bitmap write_blocks note_float64 fixed_block
  write_float64_blocks nulls values out = do
    (out, st) ←
        write_blocks note_float64 (λ st. record st { nulls = st.nulls + 1 }) (fixed_block 8) nulls
          (length values) 0 values out
          (record { nulls = 0; sum_f = 0; min_f = 0; max_f = 0; has = false })
    ok (
      out,
      record {
        null_count = st.nulls;
        sum = st.sum_f;
        minimum = if st.has then st.min_f else 0;
        maximum = if st.has then st.max_f else 0;
        has_min_max = st.has;
      },
    )

-- The code of each row from `i` on, and the dictionary that holds the strings; a null's code is all
-- ones.
unfoldable pub assign_codes :
    Bytes → ℕ → List Bytes → DictBuilder → ℕ → Result (List ℕ × DictBuilder × ℕ)
assign_codes nulls i [] db null_count = ok ([], db, null_count)
assign_codes nulls i (s ∷ values) db null_count = do
  null ← is_null_bit nulls i
  let added = add db s
  (codes, db, null_count) ←
      assign_codes nulls (i + 1) values (if null then db else added.0)
        (if null then null_count + 1 else null_count)
  ok ((if null then 0xFFFFFFFF else added.1) ∷ codes, db, null_count)

unfoldable pub write_string_blocks : Bytes → List Bytes → Bytes → Result (Bytes × ZoneMap × Bytes)
unfolding sub_bitmap write_blocks assign_codes fixed_block
write_string_blocks nulls values out = do
  (codes, db, null_count) ← assign_codes nulls 0 values new_dict_builder 0
  (out, _) ←
      write_blocks (λ (st : Unit {0}) (v : ℕ). st) (λ st. st) (fixed_block 4) nulls (length codes) 0
        codes out tt
  let n = length db.keys
  ok (
    out,
    record {
      null_count = null_count;
      sum = 0;
      minimum = 0;
      maximum = n - 1;
      has_min_max = ltb 0 n;
    },
    marshal db,
  )
