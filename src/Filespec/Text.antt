-- ===== src/Filespec/Text.antt =====
-- What the package uses of Go's strings. A string is the list of its bytes, and case is folded on
-- ASCII letters, which is what VMS names are made of.
use ods.Base.{ℕ, ◌-◌, ◌≡◌, refl, List, [], ◌∷◌, map, ◌&&◌, arith, leb, if◌then◌else◌}
use Prim.Native.Char.{code}
use Prim.Native.String.{String}

abbrev pub codes : String → List ℕ
codes String.[] = []
codes (String.◌∷◌ c s) = code c ∷ codes s

unfoldable pub upper_byte : ℕ → ℕ
upper_byte c = if leb b'a' c && leb c b'z' then c - 32 else c

-- strings.ToUpper
abbrev pub to_upper : List ℕ → List ℕ
to_upper = map upper_byte

pub upper_byte_idem : (c : ℕ) → upper_byte (upper_byte c) ≡ upper_byte c
unfolding upper_byte
upper_byte_idem c = ground arith

pub to_upper_idem : (s : List ℕ) → to_upper (to_upper s) ≡ to_upper s
to_upper_idem [] = refl
to_upper_idem (c ∷ s) = cc (upper_byte_idem c, to_upper_idem s)
