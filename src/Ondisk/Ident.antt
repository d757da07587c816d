-- ===== src/Ondisk/Ident.antt =====
-- ondisk/ident.go: a file header's identification area. A VMSTime is its 64 bits, and a string is
-- the list of its bytes.
pub mod RoundTrip
use ods.Base.{
  ℕ, zero, suc, ◌+◌, ◌-◌, ◌*◌, ◌/◌, ◌%◌, List, [], ◌∷◌, ◌++◌, Bool, ◌&&◌, ◌||◌, Result, ok, err,
  bad_ident_area, value_too_long, length, take, drop, slice, replicate, ltb, leb, ◌==◌,
  if◌then◌else◌,
}
use ods.Base.Word.{u16_at, u64_at, word_bytes, quad_bytes}
use ods.Ondisk.Padded.{is_empty}
use ods.Ondisk.FileHeader.{FileHeader}

abbrev pub ident_size : ℕ
ident_size = 120

pub record Ident : Type 0 where
  pub filename : List ℕ
  pub revision : ℕ
  pub creation_date : ℕ
  pub revision_date : ℕ
  pub expiration_date : ℕ
  pub backup_date : ℕ
  pub filename_extension : List ℕ

-- Trailing NUL bytes and blanks go.
unfoldable pub decode_nul_padded_string : List ℕ → List ℕ
unfolding is_empty
decode_nul_padded_string [] = []
decode_nul_padded_string (c ∷ b) =
    let rest = decode_nul_padded_string b in
    if (c == 0 || c == b' ') && is_empty rest then [] else c ∷ rest

unfoldable pub ident_fields : List ℕ → Ident
unfolding decode_nul_padded_string
ident_fields area = record {
  filename = decode_nul_padded_string (slice area 0 20);
  revision = u16_at area 20;
  creation_date = u64_at area 22;
  revision_date = u64_at area 30;
  expiration_date = u64_at area 38;
  backup_date = u64_at area 46;
  filename_extension = decode_nul_padded_string (slice area 54 66);
}

-- FileHeader.Ident. An offset of a byte is never negative.
unfoldable pub ident : FileHeader → Result Ident
unfolding ident_fields
ident h =
    let start = h.ident_offset * 2 in
    if ltb (length h.raw) (start + ident_size)
    then err bad_ident_area
    else ok (ident_fields (slice h.raw start ident_size))

-- A value that is no longer than its field, and the blanks after it.
abbrev pub blank_padded : ℕ → List ℕ → List ℕ
blank_padded width s = s ++ replicate (width - length s) b' '

unfoldable pub encode_ident : Ident → Result (List ℕ)
encode_ident id =
    if ltb 20 (length id.filename)
    then err value_too_long
    else if ltb 66 (length id.filename_extension)
    then err value_too_long
    else ok (
        blank_padded 20 id.filename
        ++ (word_bytes id.revision
            ++ (quad_bytes id.creation_date
                ++ (quad_bytes id.revision_date
                    ++ (quad_bytes id.expiration_date
                        ++ (quad_bytes id.backup_date ++ blank_padded 66 id.filename_extension))))))

-- A number of at most `n` digits, written with `%d`.
unfoldable pub decimal : ℕ → ℕ → List ℕ
decimal zero v = []
decimal (suc n) v =
    let front = decimal n (v / 10) in
    if ltb v 10 then (b'0' + v) ∷ [] else front ++ (b'0' + v % 10) ∷ []

-- The name and the version together, cut to what the two fields hold.
unfoldable pub full_name : List ℕ → ℕ → List ℕ
unfolding decimal
full_name name version = take 86 (if version == 0 then name else name ++ b';' ∷ decimal 5 version)

-- The source cuts a longer name to 86 bytes, and one of at most 20 has an empty second field.
unfoldable pub ident_name : List ℕ → ℕ → List ℕ × List ℕ
unfolding full_name
ident_name name version = (take 20 (full_name name version), drop 20 (full_name name version))
