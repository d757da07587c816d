-- ===== src/Filespec/Wildcard.antt =====
-- filespec/wildcard.go: `*` matches any run of characters and `%` exactly one.
pub mod Laws
mod Examples
use ods.Base.{ℕ, List, [], ◌∷◌, Bool, true, false, not, ◌&&◌, ◌||◌, ◌==◌, if◌then◌else◌}
use ods.Filespec.Text.{to_upper, upper_byte}

-- The loop over the split points of a `*`.
pub any_suffix : (List ℕ → Bool) → List ℕ → Bool
any_suffix f [] = f []
any_suffix f (c ∷ text) = f (c ∷ text) || any_suffix f text

-- The rest of a pattern against a text that must begin with one more character.
pub after_one : (ℕ → Bool) → (List ℕ → Bool) → List ℕ → Bool
after_one test f [] = false
after_one test f (c ∷ text) = if test c then f text else false

unfoldable pub match_here : List ℕ → List ℕ → Bool
unfolding any_suffix after_one
match_here [] [] = true
match_here [] (c ∷ text) = false
match_here (p ∷ pattern) text =
    if p == b'*'
    then any_suffix (match_here pattern) text
    else if p == b'%'
    then after_one (λ c. true) (match_here pattern) text
    else after_one (λ c. p == c) (match_here pattern) text

unfoldable pub match_wildcard : List ℕ → List ℕ → Bool
unfolding match_here upper_byte
match_wildcard pattern text = match_here (to_upper pattern) (to_upper text)
