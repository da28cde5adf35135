-- ===== src/Storage/Dict/RoundTrip.antt =====
-- A dictionary that is marshalled and parsed again has every string under its code.
use vexq.Storage.Dict.Builder.{get_elem?-lt}
use vexq.Storage.Dict.Memo.{get-Answers, Answers, MemoValid}
use vexq.Prelude.{
  inl, ltb, leb, length, get_elem?, length-append, take, append_cancel, take_append, Bytes, u32, ok,
  ℕ, zero, suc, ◌+◌, ◌-◌, ◌*◌, ◌%◌, ◌<◌, ◌≡◌, refl, sym, ap, ◌∙◌, true, false, some, List, [], ◌∷◌,
  ◌++◌, append-nil, append_assoc, arith,
}
use vexq.Encoding.{to_le, append_uint32}
use vexq.Encoding.RoundTrip.{length-to_le, read_le-to_le, verify_trailing-append_checksum}
use vexq.Storage.Dict.{
  get, entry_end, DictBuilder, Dictionary, offsets_from, concat, append_offsets, marshal,
  read_offsets, first_bytes, unmarshal_dictionary, slice, read_entry,
}

offset_bytes : List ℕ → Bytes
offset_bytes [] = []
offset_bytes (o ∷ os) = to_le 4 o ++ offset_bytes os

append_offsets-offset_bytes : (os : List ℕ) (b : Bytes) → append_offsets b os ≡ b ++ offset_bytes os
unfolding append_offsets offset_bytes
append_offsets-offset_bytes [] b = sym (append-nil b)
append_offsets-offset_bytes (o ∷ os) b =
    append_offsets-offset_bytes os (append_uint32 b o) ∙ simp append_assoc

length-offset_bytes : (os : List ℕ) → length (offset_bytes os) ≡ length os * 4
unfolding offset_bytes
length-offset_bytes [] = omega arith
length-offset_bytes (o ∷ os) =
    omega
      (arith, length-append (to_le 4 o) (offset_bytes os), length-to_le 4 o, length-offset_bytes os)

read_offsets-offset_bytes :
    (at : ℕ) (keys : List Bytes) (rest : Bytes)
    → read_offsets (length keys) (offset_bytes (offsets_from at keys) ++ rest)
      ≡ ok (offsets_from at keys, rest)
unfolding read_offsets offset_bytes offsets_from
read_offsets-offset_bytes at [] rest = refl
read_offsets-offset_bytes at (s ∷ keys) rest = rw (
  append_assoc,
  read_le-to_le 4 (at % u32) (offset_bytes (offsets_from (at + length s) keys) ++ rest)
      (omega arith),
  read_offsets-offset_bytes (at + length s) keys rest,
)

length-offsets_from : (at : ℕ) (keys : List Bytes) → length (offsets_from at keys) ≡ length keys
unfolding offsets_from
length-offsets_from at [] = refl
length-offsets_from at (s ∷ keys) = ap suc (length-offsets_from (at + length s) keys)

-- The dictionary that a builder's blob parses to.
pub parsed : DictBuilder → Dictionary
parsed db = record { offsets = offsets_from 0 db.keys; payload = concat db.keys; cache = [] }

take-length {ℓ} : {A : Type ℓ} (xs : List A) → take (length xs) xs ≡ xs
take-length [] = refl
take-length (x ∷ xs) = ap (◌∷◌ x) (take-length xs)

-- Parsing what `marshal` wrote gives the builder's strings, if their number and their total length
-- fit in a uint32.
pub unmarshal_dictionary-marshal :
    (db : DictBuilder)
    → length db.keys < u32
    → length (concat db.keys) < u32
    → unmarshal_dictionary (marshal db) ≡ ok (parsed db)
unfolding unmarshal_dictionary marshal parsed
unmarshal_dictionary-marshal db few small =
    let os : Bytes = offset_bytes (offsets_from 0 db.keys) in
    let p : Bytes = concat db.keys in
    let tail : Bytes = to_le 4 (length p) ++ p in
    let whole : append_offsets (to_le 4 (length db.keys)) (offsets_from 0 db.keys)
          ++ to_le 4 (length p)
          ++ p
        ≡ to_le 4 (length db.keys) ++ (os ++ tail) =
      rw (append_offsets-offset_bytes (offsets_from 0 db.keys) (to_le 4 (length db.keys)))
        (simp append_assoc) in
    let long : ltb (length (to_le 4 (length db.keys) ++ (os ++ tail))) 4 ≡ false = ground (
      arith,
      length-append (to_le 4 (length db.keys)) (os ++ tail),
      length-to_le 4 (length db.keys),
    ) in
    let long' : ltb (length (os ++ tail)) (length db.keys * 4 + 4) ≡ false = ground (
      arith,
      length-append os tail,
      length-offset_bytes (offsets_from 0 db.keys),
      length-offsets_from 0 db.keys,
      length-append (to_le 4 (length p)) p,
      length-to_le 4 (length p),
    ) in
    let enough : ltb (length p % u32) (length p) ≡ false = ground arith in
    let inside : ltb (length p) (length p) ≡ false = ground arith in
    rw (
      verify_trailing-append_checksum,
      whole,
      long,
      read_le-to_le 4 (length db.keys) (os ++ tail) few,
      long',
      read_offsets-offset_bytes 0 db.keys tail,
      read_le-to_le 4 (length p) p small,
      enough,
      first_bytes,
      inside,
      take-length,
    )

slice_middle :
    (front s rest : Bytes)
    → slice (front ++ s ++ rest) (length front) (length front + length s) ≡ ok s
unfolding slice
slice_middle front s rest =
    let size : length (front ++ s ++ rest) ≡ length front + length s + length rest =
      omega (arith, length-append (front ++ s) rest, length-append front s) in
    let lo : leb (length front) (length front + length s) ≡ true = ground arith in
    let hi : leb (length front + length s) (length (front ++ s ++ rest)) ≡ true =
      ground (arith, size) in
    let cut : length front + length s - length front ≡ length s = omega arith in
    rw (lo, hi, cut, append_assoc front s rest, append_cancel front (s ++ rest), take_append s rest)

-- The first entry, whose bytes end where `entry_end` says.
first_entry :
    (front t rest : Bytes) (o : ℕ) (os : List ℕ)
    → o ≡ length front
    → entry_end (o ∷ os) (front ++ t ++ rest) 0 ≡ length front + length t
    → read_entry (o ∷ os) (front ++ t ++ rest) 0 ≡ ok t
unfolding read_entry entry_end
first_entry front t rest o os p q = rw (q, p) (slice_middle front t rest)

later_entry :
    (o : ℕ) (os : List ℕ) (payload : Bytes) (code : ℕ)
    → read_entry (o ∷ os) payload (suc code) ≡ read_entry os payload code
unfolding read_entry entry_end
later_entry o os payload code =
    let next : suc code + 1 ≡ suc (code + 1) = omega arith in
    let test : ltb (suc (code + 1)) (suc (length os)) ≡ ltb (code + 1) (length os) = ground arith in
    rw (next, test)

-- The bytes of entry `code`, when `front` stands before the keys.
entry_lem :
    (keys : List Bytes) (front : Bytes) (code : ℕ) (s : Bytes)
    → length (front ++ concat keys) < u32
    → get_elem? keys code ≡ some s
    → read_entry (offsets_from (length front) keys) (front ++ concat keys) code ≡ ok s
unfolding offsets_from concat
entry_lem [] front code s small e = cc
entry_lem (t ∷ []) front zero s small e =
    let size : length (front ++ t ++ []) ≡ length front + length t =
      rw append-nil (length-append front t) in
    let same : front ++ (t ++ []) ≡ front ++ t ++ [] = sym (append_assoc front t []) in
    let found : s ≡ t = cc e in
    let ends : length (front ++ t ++ []) % u32 ≡ length front + length t =
      omega (arith, size, ap length same) in
    rw (found, same)
      (first_entry front t [] (length front % u32) [] (omega (arith, size, ap length same))
        (unfold entry_end in ends))
entry_lem (t ∷ u ∷ keys) front zero s small e =
    let rest : Bytes = u ++ concat keys in
    let size : length (front ++ (t ++ rest)) ≡ length front + (length t + length rest) =
      omega (arith, length-append front (t ++ rest), length-append t rest) in
    let same : front ++ (t ++ rest) ≡ front ++ t ++ rest = sym (append_assoc front t rest) in
    let found : s ≡ t = cc e in
    rw (found, same)
      (first_entry front t rest (length front % u32) _ (omega arith)
        (unfold entry_end in ground (arith, size)))
entry_lem (t ∷ keys) front (suc code) s small e =
    let same : front ++ (t ++ concat keys) ≡ front ++ t ++ concat keys =
      sym (append_assoc front t (concat keys)) in
    let size : length front + length t ≡ length (front ++ t) = sym (length-append front t) in
    later_entry _ _ _ code
    ∙ rw (same, size) (entry_lem keys (front ++ t) code s (rw same at small) e)

MemoValid-parsed : (db : DictBuilder) → MemoValid (parsed db)
unfolding parsed
MemoValid-parsed db = record { size = inl refl; filled = λ i. inl refl }

-- The marshalled form of a builder parses, and Get on the result answers the string of every code,
-- keeps the content and leaves a valid memo, where the number of strings and their total length
-- are below 2^32.
pub get-marshal :
    (db : DictBuilder) (code : ℕ) (s : Bytes)
    → length db.keys < u32
    → length (concat db.keys) < u32
    → get_elem? db.keys code ≡ some s
    → (unmarshal_dictionary (marshal db) ≡ ok (parsed db))
      × Answers (parsed db) s (get (parsed db) code)
unfolding parsed
get-marshal db code s few small e = (
  unmarshal_dictionary-marshal db few small,
  get-Answers (parsed db) code s (MemoValid-parsed db)
      (unfold parsed in rw length-offsets_from (get_elem?-lt db.keys code e))
      (unfold parsed in entry_lem db.keys [] code s small e),
)
