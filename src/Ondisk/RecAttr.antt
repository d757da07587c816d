-- ===== src/Ondisk/RecAttr.antt =====
-- ondisk/recattr.go: record attributes.
use ods.Base.{
  ℕ, ◌+◌, ◌^◌, ◌<◌, ◌%◌, ◌/◌, ◌*◌, bit_and, bit_or, ◌≡◌, List, Result, ok, err, bad_length, arith,
  length, set, replicate, ltb, ◌==◌, Option, none, some, if◌then◌else◌,
}
use ods.Base.Word.{u16_at, put_u16, byte_at, split_u16, u16, u32, u8, ◌<<<◌, ◌>>>◌}
use ods.Base.Bits.{bit_or_field}
use ods.Ondisk.Block.{decode_swapped_longword, encode_swapped_longword}

abbrev pub rec_attr_size : ℕ
rec_attr_size = 32

pub data RecordFormat : Type 0 where
  undefined fixed variable vfc stream_crlf stream_lf stream_cr : RecordFormat

-- The record format that a byte on disk names; the rest of the values name none.
unfoldable pub record_format : ℕ → Option RecordFormat
record_format f =
    if f == 0
    then some undefined
    else if f == 1
    then some fixed
    else if f == 2
    then some variable
    else if f == 3
    then some vfc
    else if f == 4
    then some stream_crlf
    else if f == 5
    then some stream_lf
    else if f == 6
    then some stream_cr
    else none

abbrev pub attr_no_span : ℕ
attr_no_span = 0x8

unfoldable pub organization : ℕ → ℕ
organization format = bit_and format 0xF0

pub record RecAttr : Type 0 where
  pub format : ℕ
  pub attributes : ℕ
  pub record_size : ℕ
  pub highest_block : ℕ
  pub end_of_file_block : ℕ
  pub first_free_byte : ℕ
  pub bucket_size : ℕ
  pub vfc_size : ℕ
  pub max_record_size : ℕ
  pub default_extend : ℕ
  pub global_buffer_count : ℕ
  pub version_limit : ℕ

pub record RecAttrInRange (ra : RecAttr) : Type 0 where
  pub format : ra.format < 2 ^ 8
  pub attributes : ra.attributes < 2 ^ 8
  pub record_size : ra.record_size < 2 ^ 16
  pub highest_block : ra.highest_block < 2 ^ 32
  pub end_of_file_block : ra.end_of_file_block < 2 ^ 32
  pub first_free_byte : ra.first_free_byte < 2 ^ 16
  pub bucket_size : ra.bucket_size < 2 ^ 8
  pub vfc_size : ra.vfc_size < 2 ^ 8
  pub max_record_size : ra.max_record_size < 2 ^ 16
  pub default_extend : ra.default_extend < 2 ^ 16
  pub global_buffer_count : ra.global_buffer_count < 2 ^ 16
  pub version_limit : ra.version_limit < 2 ^ 16

abbrev pub rec_attr_at : List ℕ → ℕ → RecAttr
rec_attr_at b i = record {
  format = byte_at b i;
  attributes = byte_at b (i + 1);
  record_size = u16_at b (i + 2);
  highest_block = decode_swapped_longword b (i + 4);
  end_of_file_block = decode_swapped_longword b (i + 8);
  first_free_byte = u16_at b (i + 12);
  bucket_size = byte_at b (i + 14);
  vfc_size = byte_at b (i + 15);
  max_record_size = u16_at b (i + 16);
  default_extend = u16_at b (i + 18);
  global_buffer_count = u16_at b (i + 20);
  version_limit = u16_at b (i + 30);
}

unfoldable pub decode_rec_attr : List ℕ → Result RecAttr
unfolding decode_swapped_longword
decode_rec_attr b = if ltb (length b) rec_attr_size then err bad_length else ok (rec_attr_at b 0)

unfoldable pub encode_rec_attr : RecAttr → List ℕ
unfolding encode_swapped_longword
encode_rec_attr ra =
    let b0 = replicate rec_attr_size 0 in
    let b1 = set b0 0 ra.format in
    let b2 = set b1 1 ra.attributes in
    let b3 = put_u16 b2 2 ra.record_size in
    let b4 = encode_swapped_longword b3 4 ra.highest_block in
    let b5 = encode_swapped_longword b4 8 ra.end_of_file_block in
    let b6 = put_u16 b5 12 ra.first_free_byte in
    let b7 = set b6 14 ra.bucket_size in
    let b8 = set b7 15 ra.vfc_size in
    let b9 = put_u16 b8 16 ra.max_record_size in
    let b10 = put_u16 b9 18 ra.default_extend in
    let b11 = put_u16 b10 20 ra.global_buffer_count in put_u16 b11 30 ra.version_limit

-- A longword survives being cut into its two words and joined again.
pub join_words : (v : ℕ) → v < 2 ^ 32 → bit_or (u32 (v / 2 ^ 16 * 2 ^ 16)) (v % 2 ^ 16) ≡ v
join_words v h =
    let e : u32 (v / 2 ^ 16 * 2 ^ 16) ≡ v / 2 ^ 16 * 2 ^ 16 = omega arith in
    rw e (omega (arith, bit_or_field 16 (v / 2 ^ 16) (v % 2 ^ 16)))

swapped_words :
    (v : ℕ)
    → v < 2 ^ 32
    → bit_or
        (u32 ((u8 (u16 (v >>> 16)) + 256 * u8 (u16 (v >>> 16) >>> 8)) <<< 16))
        (u8 (u16 v) + 256 * u8 (u16 v >>> 8))
      ≡ v
swapped_words v h =
    let hi : u8 (u16 (v >>> 16)) + 256 * u8 (u16 (v >>> 16) >>> 8) ≡ v / 2 ^ 16 = omega arith in
    let lo : u8 (u16 v) + 256 * u8 (u16 v >>> 8) ≡ v % 2 ^ 16 = omega arith in
    rw (hi, lo) (join_words v h)

-- Record attributes whose fields are in the range of their widths decode from their encoding.
pub decode_rec_attr-encode_rec_attr :
    (ra : RecAttr) → RecAttrInRange ra → decode_rec_attr (encode_rec_attr ra) ≡ ok ra
unfolding decode_rec_attr encode_rec_attr
decode_rec_attr-encode_rec_attr ra h = ground (
  arith,
  split_u16 ra.record_size,
  swapped_words ra.highest_block,
  swapped_words ra.end_of_file_block,
  split_u16 ra.first_free_byte,
  split_u16 ra.max_record_size,
  split_u16 ra.default_extend,
  split_u16 ra.global_buffer_count,
  split_u16 ra.version_limit,
)
