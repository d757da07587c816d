-- ===== src/Rms/Vfc.antt =====
-- rms/vfc.go: the carriage control of a VFC record.
use ods.Base.{ℕ, bit_and, List, [], ◌∷◌, ◌++◌, length, replicate, ◌==◌, if◌then◌else◌}
use ods.Base.Word.{byte_at}

-- `'+'`, `'0'` and `'1'`.
unfoldable pub vfc_leading : ℕ → List ℕ
vfc_leading vfc0 =
    if vfc0 == 0
    then []
    else if vfc0 == 0x2B
    then []
    else if vfc0 == 0x30
    then 0x0A ∷ 0x0A ∷ []
    else if vfc0 == 0x31
    then 0x0C ∷ []
    else 0x0A ∷ []

unfoldable pub vfc_trailing : ℕ → List ℕ
vfc_trailing vfc1 =
    if vfc1 == 0
    then []
    else if bit_and vfc1 0x80 == 0
    then replicate (bit_and vfc1 0x7F) 0x0A ++ 0x0D ∷ []
    else if bit_and vfc1 0xE0 == 0x80
    then bit_and vfc1 0x1F ∷ []
    else 0x0D ∷ []

unfoldable pub format_vfc_record : List ℕ → List ℕ → List ℕ
unfolding vfc_leading vfc_trailing
format_vfc_record vfc text =
    if length vfc == 2
    then vfc_leading (byte_at vfc 0) ++ (text ++ vfc_trailing (byte_at vfc 1))
    else text
