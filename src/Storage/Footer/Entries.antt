-- ===== src/Storage/Footer/Entries.antt =====
-- The fields and the columns of a footer, as bytes that are read back.
use vexq.Prelude.{
  ltb, ◌==◌, if◌then◌else◌, length, length-append, append_cancel, take_append, All, Bytes, u16, u32,
  u64, ok, ℕ, ◌+◌, ◌%◌, ◌≤◌, ◌<◌, ◌≡◌, refl, sym, ◌∙◌, Bool, true, false, not, List, [], ◌∷◌, ◌++◌,
  append-nil, append_assoc, arith,
}
use vexq.Encoding.{to_le}
use vexq.Encoding.RoundTrip.{read_back, length-to_le}
use vexq.Storage.Schema.{Field, ColumnSectionMeta}
use vexq.Storage.Footer.{
  append_field, append_fields, append_column_meta, append_columns, split_at, read_byte, read_field,
  read_fields, read_column, read_columns,
}

-- What the footer can hold: a name's length in 16 bits, and words of 64 and 32 bits.
pub record FieldFits (f : Field) : Type 0 where
  pub name : length f.name < u16

pub record ColumnFits (c : ColumnSectionMeta) : Type 0 where
  pub section_offset : c.section_offset < u64
  pub section_length : c.section_length < u64
  pub null_count : c.stats.null_count < u64
  pub sum : c.stats.sum < u64
  pub minimum : c.stats.minimum < u64
  pub maximum : c.stats.maximum < u64
  pub dict_offset : c.dict_offset < u32
  pub dict_length : c.dict_length < u32

pub bit : Bool → ℕ
bit b = if b then 1 else 0

bit_back : (b : Bool) → (bit b % 2 == 1) ≡ b
unfolding bit
bit_back true = refl
bit_back false = refl

pub long_append : (k : ℕ) (a b : Bytes) → k ≤ length a → ltb (length (a ++ b)) k ≡ false
long_append k a b h = ground (arith, length-append a b)

field_bytes : Field → Bytes
field_bytes f =
    to_le 2 (length f.name) ++ (f.name ++ f.data_type ∷ f.encoding ∷ bit f.nullable ∷ [])

append_field-field_bytes :
    (f : Field) → FieldFits f → (b : Bytes) → append_field b f ≡ b ++ field_bytes f
unfolding append_field field_bytes bit
append_field-field_bytes f h b =
    let short : length f.name % u16 ≡ length f.name = omega (arith, h.name) in
    rw short (simp append_assoc)

split_at_lem : (a b : Bytes) → split_at (length a) (a ++ b) ≡ ok (a, b)
unfolding split_at
split_at_lem a b = rw (long_append (length a) a b (omega arith), take_append, append_cancel)

read_field-field_bytes :
    (f : Field) (rest : Bytes) → FieldFits f → read_field (field_bytes f ++ rest) ≡ ok (f, rest)
unfolding read_field read_byte
read_field-field_bytes f rest h =
    let a : Bytes = to_le 2 (length f.name) in
    let tail : Bytes = f.data_type ∷ f.encoding ∷ bit f.nullable ∷ rest in
    let whole : field_bytes f ++ rest ≡ a ++ (f.name ++ tail) =
      unfold field_bytes in simp append_assoc in
    let two : ltb (length (a ++ (f.name ++ tail))) 2 ≡ false =
      long_append 2 a (f.name ++ tail) (omega (arith, length-to_le 2 (length f.name))) in
    let room : ltb (length (f.name ++ tail)) (length f.name + 3) ≡ false =
      ground (arith, length-append f.name tail) in
    rw (
      whole,
      two,
      read_back 2 (length f.name) h.name,
      room,
      split_at_lem f.name tail,
      bit_back f.nullable,
    )

pub field_list_bytes : List Field → Bytes
field_list_bytes [] = []
field_list_bytes (f ∷ fields) = field_bytes f ++ field_list_bytes fields

pub append_fields-bytes :
    (fields : List Field)
    → All FieldFits fields
    → (b : Bytes) → append_fields b fields ≡ b ++ field_list_bytes fields
unfolding append_fields field_list_bytes
append_fields-bytes [] h b = sym (append-nil b)
append_fields-bytes (f ∷ fields) (h, hs) b =
    append_fields-bytes fields hs (append_field b f)
    ∙ rw (append_field-field_bytes f h b) (append_assoc b (field_bytes f) (field_list_bytes fields))

pub read_fields-bytes :
    (fields : List Field) (rest : Bytes)
    → All FieldFits fields
    → read_fields (length fields) (field_list_bytes fields ++ rest) ≡ ok (fields, rest)
unfolding read_fields field_list_bytes
read_fields-bytes [] rest h = refl
read_fields-bytes (f ∷ fields) rest (h, hs) = rw (
  append_assoc (field_bytes f) (field_list_bytes fields) rest,
  read_field-field_bytes f (field_list_bytes fields ++ rest) h,
  read_fields-bytes fields rest hs,
)

-- A column's 57 bytes in front of others.
column_onto : ColumnSectionMeta → Bytes → Bytes
column_onto c rest =
    to_le 8 c.section_offset
    ++ (to_le 8 c.section_length
        ++ (to_le 8 c.stats.null_count
            ++ (to_le 8 c.stats.sum
                ++ (to_le 8 c.stats.minimum
                    ++ (to_le 8 c.stats.maximum
                        ++ (bit c.stats.has_min_max
                            ∷ (to_le 4 c.dict_offset ++ (to_le 4 c.dict_length ++ rest))))))))

column_bytes : ColumnSectionMeta → Bytes
unfolding column_onto
column_bytes c = column_onto c []

column_bytes-append :
    (c : ColumnSectionMeta) (rest : Bytes) → column_bytes c ++ rest ≡ column_onto c rest
unfolding column_bytes
column_bytes-append c rest = simp (append_assoc, append-nil)

append_column_meta-bytes :
    (c : ColumnSectionMeta) (b : Bytes) → append_column_meta b c ≡ b ++ column_bytes c
unfolding append_column_meta column_bytes bit
append_column_meta-bytes c b = simp (append_assoc, append-nil)

length-column_bytes : (c : ColumnSectionMeta) → length (column_bytes c) ≡ 57
unfolding column_bytes
length-column_bytes c = simp (length-append, length-to_le)

bit_flag : (b : Bool) → not (bit b == 0) ≡ b
unfolding bit
bit_flag true = refl
bit_flag false = refl

read_column-bytes :
    (c : ColumnSectionMeta) (rest : Bytes)
    → ColumnFits c
    → read_column (column_bytes c ++ rest) ≡ ok (c, rest)
unfolding read_column read_byte
read_column-bytes c rest h =
    let long : ltb (length (column_bytes c ++ rest)) 57 ≡ false =
      long_append 57 (column_bytes c) rest (omega (arith, length-column_bytes c)) in
    rw (long, column_bytes-append c rest)
      (unfold column_onto in
        rw (
          read_back 8 c.section_offset h.section_offset,
          read_back 8 c.section_length h.section_length,
          read_back 8 c.stats.null_count h.null_count,
          read_back 8 c.stats.sum h.sum,
          read_back 8 c.stats.minimum h.minimum,
          read_back 8 c.stats.maximum h.maximum,
          read_back 4 c.dict_offset h.dict_offset,
          read_back 4 c.dict_length h.dict_length,
          bit_flag c.stats.has_min_max,
        ))

pub column_list_bytes : List ColumnSectionMeta → Bytes
column_list_bytes [] = []
column_list_bytes (c ∷ cs) = column_bytes c ++ column_list_bytes cs

pub append_columns-bytes :
    (cs : List ColumnSectionMeta) (b : Bytes) → append_columns b cs ≡ b ++ column_list_bytes cs
unfolding append_columns column_list_bytes
append_columns-bytes [] b = sym (append-nil b)
append_columns-bytes (c ∷ cs) b =
    append_columns-bytes cs (append_column_meta b c)
    ∙ rw (append_column_meta-bytes c b) (append_assoc b (column_bytes c) (column_list_bytes cs))

pub read_columns-bytes :
    (cs : List ColumnSectionMeta) (rest : Bytes)
    → All ColumnFits cs
    → read_columns (length cs) (column_list_bytes cs ++ rest) ≡ ok (cs, rest)
unfolding read_columns column_list_bytes
read_columns-bytes [] rest h = refl
read_columns-bytes (c ∷ cs) rest (h, hs) = rw (
  append_assoc (column_bytes c) (column_list_bytes cs) rest,
  read_column-bytes c (column_list_bytes cs ++ rest) h,
  read_columns-bytes cs rest hs,
)
