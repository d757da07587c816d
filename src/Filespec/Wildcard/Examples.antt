-- ===== src/Filespec/Wildcard/Examples.antt =====
-- The theorems on wildcards at concrete patterns.
use ods.Base.{◌≡◌, ◌↔◌, true}
use ods.Filespec.Text.{codes, to_upper}
use ods.Filespec.Wildcard.{match_wildcard}
use ods.Filespec.Wildcard.Laws.{Matches, match_wildcard_iff}

match_wildcard_iff_example :
    (match_wildcard (codes "l%gin*") (codes "LOGIN.COM") ≡ true)
    ↔ Matches (to_upper (codes "l%gin*")) (to_upper (codes "LOGIN.COM"))
match_wildcard_iff_example = match_wildcard_iff (codes "l%gin*") (codes "LOGIN.COM")
