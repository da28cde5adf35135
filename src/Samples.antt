-- ===== src/Samples.antt =====
-- Concrete runs of the codec, and the storage theorems at concrete inputs.
use vexq.Prelude.{
  if◌then◌else◌, codes, bytes_eq, length, get_elem?, get_or, Bytes, u32, checksum, ok, err, Safe, ℕ,
  zero, suc, ◌<◌, ◌≡◌, refl, ◌⊎◌, inl, inr, Bool, true, false, some, List, [], ◌∷◌, ◌++◌, arith,
}
use vexq.Encoding.{checksum_ieee, append_checksum, verify_trailing}
use vexq.Encoding.Corruption.{verify_trailing_changed}
use vexq.Encoding.{to_le}
use vexq.Encoding.RoundTrip.{verify_trailing-append_checksum}
use vexq.Storage.Bitmap.Laws.{Covers, null_at}
use vexq.Storage.Rle.{encode_rle_bool, decode_rle_bool}
use vexq.Storage.Rle.RoundTrip.{decode-encode_rle_bool}
use vexq.Storage.Dict.{
  concat, DictBuilder, new_dict_builder, add, marshal, Dictionary, unmarshal_dictionary, get,
  read_entry, lookup_code,
}
use vexq.Storage.Dict.Builder.{IsConsistent, add-IsConsistent}
use vexq.Storage.Dict.Bounds.{FitsIn, unmarshal_dictionary-Safe}
use vexq.Storage.Dict.Memo.{MemoValid, Answers, get-Answers}
use vexq.Storage.Dict.RoundTrip.{parsed, get-marshal}

-- Four rows, the third null.
abbrev flags : List Bool
flags = true ∷ true ∷ false ∷ false ∷ []

abbrev row_nulls : Bytes
row_nulls = 0xB ∷ []

row_nulls-Covers : Covers row_nulls 4
row_nulls-Covers = record { bytes = (omega arith, tt); enough = omega arith }

decode-encode_rle_bool_example :
    (block : Bytes) × (vs : List Bool) × (bm : Bytes) × (encode_rle_bool flags row_nulls ≡ ok block)
    × (decode_rle_bool block ≡ ok (vs, bm, 4))
    × (length vs ≡ 4)
    × ((j : ℕ) → j < 4 → null_at bm j ≡ null_at row_nulls j)
    × ((j : ℕ)
        → j < 4
        → get_or vs j false ≡ (if null_at row_nulls j then false else get_or flags j false))
decode-encode_rle_bool_example =
    decode-encode_rle_bool flags row_nulls row_nulls-Covers (omega arith)

abbrev ship : DictBuilder
ship = record {
  codes = (codes "RAIL", 1) ∷ (codes "AIR", 0) ∷ [];
  keys = codes "AIR" ∷ codes "RAIL" ∷ [];
}

ship_lem :
    (add (add (add new_dict_builder (codes "AIR")).0 (codes "RAIL")).0 (codes "AIR")) ≡ (ship, 0)
unfolding add bytes_eq
ship_lem = refl

empty-IsConsistent : IsConsistent new_dict_builder
unfolding lookup_code
empty-IsConsistent = record {
  fits = omega arith;
  sound = λ s code h. cc;
  complete = λ s code h. cc;
}

add-IsConsistent_example :
    IsConsistent (add new_dict_builder (codes "AIR")).0
    × (get_elem? (add new_dict_builder (codes "AIR")).0.keys (add new_dict_builder (codes "AIR")).1
        ≡ some (codes "AIR"))
    × ((code : ℕ)
        → code < 0
        → get_elem? (add new_dict_builder (codes "AIR")).0.keys code ≡ get_elem? [] code)
add-IsConsistent_example =
    add-IsConsistent new_dict_builder (codes "AIR") empty-IsConsistent (omega arith)

ship_payload : length (concat ship.keys) < u32
unfolding concat
ship_payload = omega arith

get-marshal_example :
    (unmarshal_dictionary (marshal ship) ≡ ok (parsed ship))
    × Answers (parsed ship) (codes "RAIL") (get (parsed ship) 1)
get-marshal_example = get-marshal ship 1 (codes "RAIL") (omega arith) ship_payload refl

-- A memo with the first entry filled in.
abbrev two_words : Dictionary
two_words = record {
  offsets = 0 ∷ 3 ∷ [];
  payload = codes "AIRRAIL";
  cache = codes "AIR" ∷ [] ∷ [];
}

two_words_filled :
    (i : ℕ)
    → (get_or two_words.cache i [] ≡ [])
      ⊎ (read_entry two_words.offsets two_words.payload i ≡ ok (get_or two_words.cache i []))
unfolding read_entry
two_words_filled zero = inr refl
two_words_filled (suc zero) = inl refl
two_words_filled (suc (suc i)) = inl refl

two_words-MemoValid : MemoValid two_words
two_words-MemoValid = record { size = inr refl; filled = two_words_filled }

second_word : read_entry two_words.offsets two_words.payload 1 ≡ ok (codes "RAIL")
unfolding read_entry
second_word = refl

get-Answers_example : Answers two_words (codes "RAIL") (get two_words 1)
get-Answers_example =
    get-Answers two_words 1 (codes "RAIL") two_words-MemoValid (omega arith) second_word

verify_trailing-append_checksum_example :
    verify_trailing (append_checksum (codes "abc")) ≡ ok (codes "abc")
verify_trailing-append_checksum_example = verify_trailing-append_checksum (codes "abc")

-- The check value of CRC32-IEEE.
checksum_ieee_check : checksum_ieee (codes "123456789") ≡ 0xCBF43926
unfolding checksum_ieee
checksum_ieee_check = refl

-- The checksum of "abc" behind "acc".
verify_trailing_changed_example :
    verify_trailing (codes "acc" ++ to_le 4 (checksum_ieee (codes "abc"))) ≡ err checksum
verify_trailing_changed_example =
    verify_trailing_changed (codes "a") (codes "c") 98 99 (omega arith, tt) (omega arith, tt)
      (omega arith) (omega arith) (λ e. omega (arith, e))

unmarshal_dictionary-Safe_example :
    Safe (FitsIn (marshal ship)) (unmarshal_dictionary (marshal ship))
unmarshal_dictionary-Safe_example = unmarshal_dictionary-Safe (marshal ship)
