-- ===== src/WriterSamples.antt =====
-- The file format's theorems at concrete inputs: a table of one INT64 column.
use vexq.Storage.Writer.{append_column}
use vexq.Encoding.{checksum_ieee, append_checksum, to_le}
use vexq.Storage.Blocks.ZoneMaps.{key_i64, Summary}
use vexq.Storage.Bitmap.{is_null_bit, set_valid_bit}
use vexq.Storage.Blocks.Rows.{sub_bitmap-Cut, Cut, noted}
use vexq.Storage.Writer.Sections.{AreFloats}
use vexq.Storage.Schema.{magic, Field, FileMeta, ZoneMap}
use vexq.Storage.Footer.RoundTrip.{read_footer-marshal_footer, MetaFits}
use vexq.Storage.Footer.{read_footer, read_footer_within, marshal_footer}
use vexq.Storage.Blocks.{
  no_stats, fixed_block, count_null, note_int64, write_blocks, sub_bitmap, Floats,
  write_int64_blocks,
}
use vexq.Storage.Footer.Bounds.{read_footer-Safe, IsRectangular}
use vexq.Storage.Writer.{
  finish, int64_values, end_row_group, no_section, new_writer, begin_row_group, Writer,
}
use vexq.Storage.Writer.Invariant.{Acceptable, new_writer-IsValid, Follows}
use vexq.Prelude.{
  codes, length, take, replicate, Bytes, Result, ok, err, panic, Safe, ℕ, ◌-◌, ◌^◌, ◌≡◌, refl, true,
  false, Option, none, some, List, [], ◌∷◌, ◌++◌, arith,
}
use vexq.Storage.Bitmap.Bits.{set_bit, bit_is_zero}
use vexq.Storage.Blocks.ZoneMaps.{write_int64_blocks-Summary, fixed_blocks-noted}
use vexq.Storage.Bitmap.Laws.{null_at, Covers}
use vexq.Storage.Writer.History.{Step, Reach, Reach-Follows, Reach-read_footer}

abbrev amount : Field
amount = record { name = codes "amount"; data_type = 1; encoding = 0; nullable = true }

-- Rows 0 to 2: 5, NULL and -1.
abbrev amounts : List ℕ
amounts = 5 ∷ 9 ∷ (2 ^ 64 - 1) ∷ []

abbrev amount_nulls : Bytes
amount_nulls = 5 ∷ []

amount_nulls-Covers : Covers amount_nulls 3
amount_nulls-Covers = record { bytes = (omega arith, tt); enough = omega arith }

-- Float64 sums are not computed here.
abbrev no_floats : Floats
no_floats = record { float_add = λ a b. 0; float_lt = λ a b. false }

no_floats-AreFloats : AreFloats no_floats
no_floats-AreFloats = record { add_fits = λ a b h k. omega arith }

abbrev the_stats : Result (Bytes × ZoneMap) → Option ZoneMap
the_stats (ok (out, st)) = some st
the_stats (err e) = none
the_stats panic = none

-- The NULL row's 9 counts for nothing; -1 is below 5.
amount_zone_map :
    the_stats (write_int64_blocks amount_nulls amounts [])
    ≡ some
        (record { null_count = 1; sum = 4; minimum = 2 ^ 64 - 1; maximum = 5; has_min_max = true })
unfolding write_int64_blocks set_valid_bit is_null_bit set_bit bit_is_zero to_le append_checksum
    checksum_ieee
amount_zone_map = refl

write_int64_blocks-Summary_example :
    (out : Bytes) × (st : ZoneMap) × (write_int64_blocks amount_nulls amounts [] ≡ ok (out, st))
    × Summary key_i64 amount_nulls amounts st
write_int64_blocks-Summary_example =
    write_int64_blocks-Summary amount_nulls amounts [] amount_nulls-Covers

sub_bitmap-Cut_example :
    (sub : Bytes) × (sub_bitmap (0xF0 ∷ 0x01 ∷ []) 4 5 ≡ ok sub) × Cut (0xF0 ∷ 0x01 ∷ []) 4 5 sub
sub_bitmap-Cut_example =
    sub_bitmap-Cut (0xF0 ∷ 0x01 ∷ []) 4 5
      (record { bytes = (omega arith, (omega arith, tt)); enough = omega arith })

fixed_blocks-noted_example :
    (out' : Bytes) × (write_blocks note_int64 count_null
        (fixed_block 8)
        amount_nulls
        3
        0
        amounts
        []
        no_stats
      ≡ ok (out', noted note_int64 count_null (null_at amount_nulls) 0 amounts no_stats))
fixed_blocks-noted_example =
    fixed_blocks-noted note_int64 count_null 8 amount_nulls amounts [] no_stats amount_nulls-Covers

abbrev empty_meta : FileMeta
empty_meta = record { fields = amount ∷ []; row_groups = [] }

empty_meta-MetaFits : MetaFits empty_meta
empty_meta-MetaFits = record {
  few_fields = omega arith;
  few_groups = omega arith;
  fields = (record { name = omega arith }, tt);
  row_groups = tt;
}

read_footer-marshal_footer_example :
    read_footer (magic ++ marshal_footer empty_meta) ≡ ok empty_meta
unfolding marshal_footer to_le
read_footer-marshal_footer_example =
    read_footer-marshal_footer magic empty_meta empty_meta-MetaFits (omega arith) (omega arith)

-- The footer length of this file is negative.
read_footer-Safe_example : Safe IsRectangular (read_footer_within 25 (replicate 20 0xFF ++ magic))
read_footer-Safe_example = read_footer-Safe 25 (replicate 20 0xFF ++ magic) (omega arith)

-- One row group is open, and its column is not written yet.
abbrev opened : Writer
opened = record {
  fields = amount ∷ [];
  out = magic;
  offset = 4;
  row_groups = [];
  rg_num_rows = 3;
  rg_col_written = false ∷ [];
  rg_col_meta = no_section ∷ [];
  rg_start_off = 4;
}

opened_calls : Reach no_floats (new_writer (amount ∷ [])) opened
unfolding begin_row_group new_writer
opened_calls = Reach.next Reach.here (Step.began 3 refl)

Reach-Follows_example : Follows (new_writer (amount ∷ [])) opened
unfolding opened_calls
Reach-Follows_example =
    Reach-Follows no_floats no_floats-AreFloats (new_writer (amount ∷ [])) opened_calls
      (tt, omega arith) (new_writer-IsValid (amount ∷ []))

abbrev unwrap : Result Writer → Writer
unwrap (ok w) = w
unwrap (err e) = new_writer []
unwrap panic = new_writer []

-- The column is written, and the group is closed.
abbrev filled : Writer
filled = unwrap (append_column no_floats opened false 0 (some amount_nulls) (int64_values amounts))

abbrev closed : Writer
closed = unwrap (end_row_group filled)

amounts-Acceptable : Acceptable opened (some amount_nulls) (int64_values amounts)
amounts-Acceptable = record {
  covers = amount_nulls-Covers;
  few = omega arith;
  words = (omega arith, (omega arith, (omega arith, tt)));
}

closed_calls : Reach no_floats (new_writer (amount ∷ [])) closed
unfolding append_column end_row_group write_int64_blocks set_valid_bit is_null_bit set_bit
    bit_is_zero to_le append_checksum checksum_ieee
closed_calls =
    Reach.next
      (Reach.next opened_calls (Step.appended 0 (some amount_nulls) (int64_values amounts) refl))
      (Step.ended refl)

Reach-read_footer_example :
    (file : Bytes) × (finish closed ≡ ok file)
    × (read_footer file ≡ ok (record { fields = amount ∷ []; row_groups = closed.row_groups }))
    × (take (length closed.out) file ≡ closed.out)
unfolding append_column end_row_group write_int64_blocks set_valid_bit is_null_bit set_bit
    bit_is_zero to_le append_checksum checksum_ieee marshal_footer closed_calls opened_calls
Reach-read_footer_example =
    Reach-read_footer no_floats (amount ∷ []) closed no_floats-AreFloats
      (record { name = omega arith }, tt) (omega arith) closed_calls
      (((tt, omega arith), amounts-Acceptable), tt) refl (omega arith) (omega arith)
