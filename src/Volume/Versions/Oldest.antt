-- ===== src/Volume/Versions/Oldest.antt =====
-- volume/writefile.go, excessVersions: the versions taken beside those left.
use ods.Base.{ℕ, ◌+◌, ◌≤◌, ◌<◌, List, [], ◌∷◌, All, ◌==◌, if◌then◌else◌}
use ods.Ondisk.DirEntry.{DirEntry}

-- How often a version is in a list.
abbrev pub count : ℕ → List ℕ → ℕ
count v [] = 0
count v (w ∷ ws) = (if v == w then 1 else 0) + count v ws

abbrev pub Sorted : List ℕ → Type 0
Sorted [] = 0 < 1
Sorted (n ∷ ns) = All (λ m. n ≤ m) ns × Sorted ns
