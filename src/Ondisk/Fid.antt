-- ===== src/Ondisk/Fid.antt =====
-- ondisk/fid.go: file identifications.
use ods.Base.{
  ℕ, ◌+◌, ◌*◌, ◌^◌, ◌<◌, bit_or, ◌≡◌, List, Bool, ◌&&◌, Result, ok, err, bad_length, arith, length,
  set, replicate, ltb, ◌==◌, if◌then◌else◌,
}
use ods.Base.Word.{u16_at, put_u16, byte_at, split_u16, ◌<<<◌, u32}
use ods.Base.Bits.{bit_or_field}

abbrev pub fid_size : ℕ
fid_size = 6

pub record Fid : Type 0 where
  pub num : ℕ
  pub seq : ℕ
  pub rvn : ℕ
  pub nmx : ℕ

-- The field widths of the Go struct.
pub record FidInRange (f : Fid) : Type 0 where
  pub num : f.num < 2 ^ 16
  pub seq : f.seq < 2 ^ 16
  pub rvn : f.rvn < 2 ^ 8
  pub nmx : f.nmx < 2 ^ 8

unfoldable pub number : Fid → ℕ
number f = bit_or (u32 (f.nmx <<< 16)) f.num

unfoldable pub is_zero : Fid → Bool
is_zero f = f.num == 0 && f.nmx == 0

unfoldable pub equal : Fid → Fid → Bool
unfolding number
equal f other = number f == number other && f.seq == other.seq && f.rvn == other.rvn

-- The fields at offset `i` of a slice.
abbrev pub fid_at : List ℕ → ℕ → Fid
fid_at b i = record {
  num = u16_at b i;
  seq = u16_at b (i + 2);
  rvn = byte_at b (i + 4);
  nmx = byte_at b (i + 5);
}

unfoldable pub decode_fid : List ℕ → Result Fid
decode_fid b = if ltb (length b) fid_size then err bad_length else ok (fid_at b 0)

unfoldable pub encode_fid : Fid → List ℕ
encode_fid f =
    let b0 = replicate fid_size 0 in
    let b1 = put_u16 b0 0 f.num in
    let b2 = put_u16 b1 2 f.seq in let b3 = set b2 4 f.rvn in set b3 5 f.nmx

-- The file number joins the two parts: the high byte counts blocks of 65536.
pub number_lem : (f : Fid) → FidInRange f → number f ≡ f.num + 2 ^ 16 * f.nmx
unfolding number
number_lem f h =
    let e : u32 (f.nmx <<< 16) ≡ f.nmx <<< 16 = omega arith in
    rw e (omega (arith, bit_or_field 16 f.nmx f.num h.num))

-- A file identification whose fields are in the range of their widths decodes from its encoding.
pub decode_fid-encode_fid : (f : Fid) → FidInRange f → decode_fid (encode_fid f) ≡ ok f
unfolding decode_fid encode_fid
decode_fid-encode_fid f h = ground (arith, split_u16 f.num, split_u16 f.seq)
