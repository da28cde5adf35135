-- ===== src/Storage/Rle.antt =====
-- storage/codec.go: run-length encoding of a BOOL column block, with its checksum.
pub mod Encode
pub mod Decode
pub mod RoundTrip
use vexq.Prelude.{
  ltb, leb, ◌==◌, if◌then◌else◌, ltb→lt, lt→ltb, leb→le, ==_iff, tests, Bool-cases, Option-cases,
  length, get_elem?, set, length-append, length-set, get_elem?-set_self, get_elem?-set_ne, get_or,
  take, drop, replicate, take-append-drop, length-take, length-drop, length-replicate, length-map,
  append_cancel, take_append, All, All-append, Bytes, IsByte, u16, u32, u64, ltb_i64, ltb_i32,
  Error, checksum, corrupt_footer, bad_magic, type_mismatch, column_complete, row_group_open,
  missing_columns, index_out_of_range, unexpected_eof, eof, Result, ok, err, panic, ◌>>=◌,
  reject_if, Safe, Safe-bind, ℕ, zero, suc, ◌+◌, ◌-◌, ◌*◌, ◌/◌, ◌%◌, ◌^◌, ◌≤◌, ◌<◌, min, ◌≡◌, refl,
  sym, ap, ap₂, ◌∙◌, subst, fun_ext, ◌≢◌, ◌↔◌, ◌⊎◌, inl, inr, Bool, true, false, not, ◌&&◌, ◌||◌,
  Option, none, some, List, [], ◌∷◌, ◌++◌, map, append-nil, append_assoc, foldl, arith,
}
use vexq.Storage.Bitmap.{index, is_null_bit, set_null_bit, full_bitmap}
use vexq.Encoding.{append_uint32, read_uint32, append_checksum, verify_trailing}

pub record Run : Type 0 where
  pub len : ℕ
  pub val : ℕ

-- The byte of row `i`: 0xFF for a null, else the value.
unfoldable pub cell : List Bool → Bytes → ℕ → Result ℕ
cell values nulls i = do
  null ← is_null_bit nulls i
  if null then ok 0xFF else (do v ← index values i; ok (if v then 1 else 0))

-- The inner loop: `left` rows follow those that `len`, a uint32, counts.
unfoldable pub run_length : ℕ → List Bool → Bytes → ℕ → ℕ → ℕ → Result ℕ
run_length zero values nulls i cur len = ok len
run_length (suc left) values nulls i cur len = do
  next ← cell values nulls (i + len)
  let more = run_length left values nulls i cur ((len + 1) % u32)
  if next == cur then more else ok len

-- The outer loop from row `i`; each round takes at least one row.
unfoldable pub runs_from : ℕ → List Bool → Bytes → ℕ → Result (List Run)
runs_from zero values nulls i = ok []
runs_from (suc fuel) values nulls i =
    let more = (λ (cur : ℕ) (len : ℕ). do
      rest ← runs_from fuel values nulls (i + len)
      ok (record { len = len; val = cur } ∷ rest)) in
    if ltb i (length values)
    then (do
      cur ← cell values nulls i
      len ← run_length (length values - (i + 1)) values nulls i cur 1
      more cur len)
    else ok []

unfoldable pub append_runs : Bytes → List Run → Bytes
append_runs b [] = b
append_runs b (r ∷ rs) = append_runs (append_uint32 b r.len ++ r.val ∷ []) rs

unfoldable pub encode_rle_bool : List Bool → Bytes → Result Bytes
unfolding cell run_length runs_from append_runs
encode_rle_bool values nulls = do
  runs ← runs_from (length values) values nulls 0
  ok (append_checksum (append_runs (append_uint32 [] (length runs)) runs))

unfoldable pub read_runs : ℕ → Bytes → Result (List Run)
read_runs zero rest = ok []
read_runs (suc k) rest = reject_if (ltb (length rest) 5) corrupt_footer (do
  (l, rest) ← read_uint32 rest
  v ← index rest 0
  runs ← read_runs k (drop 1 rest)
  ok (record { len = l; val = v } ∷ runs))

unfoldable pub total_rows : List Run → ℕ
total_rows [] = 0
total_rows (r ∷ rs) = r.len + total_rows rs

-- `values[i] = v`, which panics out of range.
unfoldable pub store {ℓ} : {A : Type ℓ} → List A → ℕ → A → Result (List A)
store xs i v = if ltb i (length xs) then ok (set xs i v) else panic

-- The decoded values and null bitmap, and the next row.
pub record Cursor : Type 0 where
  pub values : List Bool
  pub nulls : Bytes
  pub pos : ℕ

unfoldable pub put_cell : ℕ → Cursor → Result Cursor
unfolding store
put_cell val c =
    if val == 0xFF
    then (do
      nulls ← set_null_bit c.nulls c.pos
      ok (record { values = c.values; nulls = nulls; pos = c.pos + 1 }))
    else if val == 1
    then (do
      values ← store c.values c.pos true
      ok (record { values = values; nulls = c.nulls; pos = c.pos + 1 }))
    else ok (record c { pos = c.pos + 1 })

unfoldable pub fill_run : ℕ → ℕ → Cursor → Result Cursor
fill_run zero val c = ok c
fill_run (suc left) val c = do c ← put_cell val c; fill_run left val c

unfoldable pub fill_runs : List Run → Cursor → Result Cursor
fill_runs [] c = ok c
fill_runs (r ∷ rs) c = do c ← fill_run r.len r.val c; fill_runs rs c

-- The values, the null bitmap and the row count.
unfoldable pub decode_rle_bool : Bytes → Result (List Bool × Bytes × ℕ)
unfolding read_runs total_rows put_cell fill_run fill_runs
decode_rle_bool b = do
  payload ← verify_trailing b
  reject_if (ltb (length payload) 4) corrupt_footer (do
    (run_count, rest) ← read_uint32 payload
    runs ← read_runs run_count rest
    let total = total_rows runs
    c ←
        fill_runs runs
          (record { values = replicate total false; nulls = full_bitmap total; pos = 0 })
    ok (c.values, c.nulls, total))
