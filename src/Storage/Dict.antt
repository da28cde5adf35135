-- ===== src/Storage/Dict.antt =====
-- storage/codec.go: the dictionary of a STRING column in one row group. A string is its bytes.
pub mod Builder
pub mod Memo
pub mod RoundTrip
pub mod Bounds
use vexq.Prelude.{
  ltb, leb, ◌==◌, if◌then◌else◌, ltb→lt, lt→ltb, leb→le, ==_iff, tests, Bool-cases, Option-cases,
  codes, bytes_eq, bytes_eq→eq, bytes_eq_refl, bytes_eq_iff, length, get_elem?, set, length-append,
  length-set, get_elem?-set_self, get_elem?-set_ne, get_or, take, drop, replicate, take-append-drop,
  length-take, length-drop, length-replicate, length-map, append_cancel, take_append, All,
  All-append, Bytes, IsByte, u16, u32, u64, ltb_i64, ltb_i32, Error, checksum, corrupt_footer,
  bad_magic, type_mismatch, column_complete, row_group_open, missing_columns, index_out_of_range,
  unexpected_eof, eof, Result, ok, err, panic, ◌>>=◌, reject_if, Safe, Safe-bind, ℕ, zero, suc, ◌+◌,
  ◌-◌, ◌*◌, ◌/◌, ◌%◌, ◌^◌, ◌≤◌, ◌<◌, min, ◌≡◌, refl, sym, ap, ap₂, ◌∙◌, subst, fun_ext, ◌≢◌, ◌↔◌,
  ◌⊎◌, inl, inr, Bool, true, false, not, ◌&&◌, ◌||◌, Option, none, some, List, [], ◌∷◌, ◌++◌, map,
  append-nil, append_assoc, foldl, arith,
}
use vexq.Encoding.{append_uint32, read_uint32, append_checksum, verify_trailing}
use vexq.Storage.Bitmap.{index}

-- `map[string]uint32`: the newest entry of a key first.
unfoldable pub lookup_code : Bytes → List (Bytes × ℕ) → Option ℕ
lookup_code s [] = none
lookup_code s ((k, code) ∷ m) = if bytes_eq k s then some code else lookup_code s m

pub record DictBuilder : Type 0 where
  pub codes : List (Bytes × ℕ)
  pub keys : List Bytes

abbrev pub new_dict_builder : DictBuilder
new_dict_builder = record { codes = []; keys = [] }

add_new : DictBuilder → Bytes → DictBuilder × ℕ
add_new db s =
    let code = length db.keys % u32 in
    (record { codes = (s, code) ∷ db.codes; keys = db.keys ++ s ∷ [] }, code)

unfoldable pub add : DictBuilder → Bytes → DictBuilder × ℕ
unfolding lookup_code add_new
add db s = elim (lookup_code s db.codes) [ some code ↦ (db, code) | none ↦ add_new db s ]

unfoldable pub lookup : DictBuilder → Bytes → Option ℕ
unfolding lookup_code
lookup db s = lookup_code s db.codes

unfoldable pub len : DictBuilder → ℕ
len db = length db.keys

unfoldable pub get_by_code : DictBuilder → ℕ → Result Bytes
unfolding index
get_by_code db code = index db.keys code

-- The offset of each key's bytes, when `at` bytes stand before the first.
unfoldable pub offsets_from : ℕ → List Bytes → List ℕ
offsets_from at [] = []
offsets_from at (s ∷ keys) = (at % u32) ∷ offsets_from (at + length s) keys

unfoldable pub concat : List Bytes → Bytes
concat [] = []
concat (s ∷ keys) = s ++ concat keys

unfoldable pub append_offsets : Bytes → List ℕ → Bytes
append_offsets b [] = b
append_offsets b (o ∷ os) = append_offsets (append_uint32 b o) os

-- Fewer than 2^32 keys: from there on Go's table of offsets is too short for them.
unfoldable pub marshal : DictBuilder → Bytes
unfolding offsets_from concat append_offsets
marshal db =
    let payload = concat db.keys in
    let b = append_offsets (append_uint32 [] (length db.keys)) (offsets_from 0 db.keys) in
    append_checksum (append_uint32 b (length payload) ++ payload)

-- The reader's dictionary, with the memo of `get`.
pub record Dictionary : Type 0 where
  pub offsets : List ℕ
  pub payload : Bytes
  pub cache : List Bytes

unfoldable pub read_offsets : ℕ → Bytes → Result (List ℕ × Bytes)
read_offsets zero rest = ok ([], rest)
read_offsets (suc k) rest = do
  (o, rest) ← read_uint32 rest
  (os, rest) ← read_offsets k rest
  ok (o ∷ os, rest)

-- `b[:n]`, which panics out of range.
unfoldable pub first_bytes : Bytes → ℕ → Result Bytes
first_bytes b n = if ltb (length b) n then panic else ok (take n b)

unfoldable pub unmarshal_dictionary : Bytes → Result Dictionary
unfolding read_offsets first_bytes
unmarshal_dictionary b = do
  payload ← verify_trailing b
  reject_if (ltb (length payload) 4) corrupt_footer (do
    (n, rest) ← read_uint32 payload
    reject_if (ltb (length rest) (n * 4 + 4)) corrupt_footer (do
      (offsets, rest) ← read_offsets n rest
      (total_len, rest) ← read_uint32 rest
      reject_if (ltb (length rest % u32) total_len) corrupt_footer (do
        payload ← first_bytes rest total_len
        ok (record { offsets = offsets; payload = payload; cache = [] }))))

-- `b[lo:hi]`, which panics out of range.
unfoldable pub slice {ℓ} : {A : Type ℓ} → List A → ℕ → ℕ → Result (List A)
slice b lo hi = if leb lo hi && leb hi (length b) then ok (take (hi - lo) (drop lo b)) else panic

-- The next entry's offset, or the end of the payload.
unfoldable pub entry_end : List ℕ → Bytes → ℕ → ℕ
entry_end offsets payload code =
    if ltb (code + 1) (length offsets) then get_or offsets (code + 1) 0 else length payload % u32

-- The bytes of one entry.
unfoldable pub read_entry : List ℕ → Bytes → ℕ → Result Bytes
unfolding slice entry_end
read_entry offsets payload code =
    slice payload (get_or offsets code 0) (entry_end offsets payload code)

unfoldable pub is_empty : Bytes → Bool
is_empty [] = true
is_empty (x ∷ s) = false

-- The entry is read and stored in a memo that is as long as the offsets.
miss : Dictionary → ℕ → Result (Bytes × Dictionary)
unfolding read_entry
miss d code = do
  s ← read_entry d.offsets d.payload code
  ok (s, record d { cache = set d.cache code s })

-- The string of `code`, and the dictionary with its memo filled in.
unfoldable pub get : Dictionary → ℕ → Result (Bytes × Dictionary)
unfolding miss is_empty
get d code =
    if leb (length d.offsets) code
    then panic
    else if ltb code (length d.cache)
    then (let s = get_or d.cache code [] in if is_empty s then miss d code else ok (s, d))
    else miss (record d { cache = replicate (length d.offsets) [] }) code

-- The codes from `code` on, of which `left` remain.
find_from : ℕ → Dictionary → ℕ → Bytes → Result (Option ℕ × Dictionary)
find_from zero d code s = ok (none, d)
find_from (suc left) d code s = do
  (t, d) ← get d code
  let more = find_from left d (code + 1) s
  if bytes_eq t s then ok (some code, d) else more

unfoldable pub find : Dictionary → Bytes → Result (Option ℕ × Dictionary)
unfolding find_from
find d s = find_from (length d.offsets) d 0 s
