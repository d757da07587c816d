-- ===== src/Ondisk/Uic.antt =====
-- ondisk/uic.go: user identification codes, in their binary form.
use ods.Base.{
  ℕ, ◌+◌, ◌^◌, ◌<◌, ◌≡◌, List, Result, ok, err, bad_length, arith, length, replicate, ltb,
  if◌then◌else◌,
}
use ods.Base.Word.{u16_at, put_u16, split_u16}

abbrev pub uic_size : ℕ
uic_size = 4

pub record Uic : Type 0 where
  pub member : ℕ
  pub group : ℕ

abbrev pub uic_at : List ℕ → ℕ → Uic
uic_at b i = record { member = u16_at b i; group = u16_at b (i + 2) }

unfoldable pub decode_uic : List ℕ → Result Uic
decode_uic b = if ltb (length b) uic_size then err bad_length else ok (uic_at b 0)

unfoldable pub encode_uic : Uic → List ℕ
encode_uic u = put_u16 (put_u16 (replicate uic_size 0) 0 u.member) 2 u.group

pub decode_uic-encode_uic :
    (u : Uic) → u.member < 2 ^ 16 → u.group < 2 ^ 16 → decode_uic (encode_uic u) ≡ ok u
unfolding decode_uic encode_uic
decode_uic-encode_uic u m g = ground (arith, split_u16 u.member, split_u16 u.group)
