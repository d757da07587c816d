-- ===== src/Ondisk/Padded.antt =====
-- ondisk/homeblock.go: text fields padded with blanks to a fixed width.
use ods.Base.{
  ℕ, ◌-◌, List, [], ◌∷◌, ◌++◌, Bool, true, false, ◌&&◌, Result, ok, err, value_too_long, length,
  replicate, ltb, ◌==◌, if◌then◌else◌,
}

unfoldable pub is_empty : List ℕ → Bool
is_empty [] = true
is_empty (c ∷ s) = false

-- strings.TrimRight(string(b), " ")
unfoldable pub decode_padded_string : List ℕ → List ℕ
unfolding is_empty
decode_padded_string [] = []
decode_padded_string (c ∷ b) =
    let rest = decode_padded_string b in if c == b' ' && is_empty rest then [] else c ∷ rest

-- The field of `width` bytes that a value is written to.
unfoldable pub encode_padded_string : ℕ → List ℕ → Result (List ℕ)
encode_padded_string width s =
    if ltb width (length s) then err value_too_long else ok (s ++ replicate (width - length s) b' ')
