-- ===== src/Volume/Directory.antt =====
-- volume/directory.go: listing a directory and looking names up in it. A directory is a file of a
-- device, and names compare up to the case of ASCII letters.
pub mod Names
pub mod Pack
pub mod Update
mod Examples
use ods.Base.{
  ℕ, zero, suc, ◌+◌, ◌≡◌, true, List, [], ◌∷◌, ◌++◌, Bool, ◌&&◌, not, Option, none, some, Result,
  ok, err, ◌>>=◌, not_found, min, ltb, leb, ◌==◌, if◌then◌else◌,
}
use ods.Base.Word.{u16}
use ods.Filespec.Text.{to_upper}
use ods.Ondisk.DirEntry.{DirEntry, name_eq}
use ods.Ondisk.DirBlock.{decode_directory_block}
use ods.Ondisk.DirBlock.Kept.{name_eq_refl}
use ods.Volume.Device.{Device, File}
use ods.Volume.File.{blocks, used_blocks, is_unwritten, read_block}

-- strings.EqualFold
unfoldable pub equal_fold : List ℕ → List ℕ → Bool
unfolding name_eq
equal_fold a b = name_eq (to_upper a) (to_upper b)

-- The loop over blocks, with `n` of them left from `vbn` on.
pub list_blocks : ℕ → Device → File → ℕ → List DirEntry → Result (List DirEntry)
list_blocks zero dev f vbn found = ok found
list_blocks (suc n) dev f vbn found = if is_unwritten f vbn then ok found else (do
  buf ← read_block dev f vbn
  entries ← decode_directory_block buf
  list_blocks n dev f (vbn + 1) (found ++ entries))

pub list : Device → File → Result (List DirEntry)
unfolding list_blocks
list dev f = list_blocks (min (blocks f) (used_blocks f)) dev f 1 []

pub better : Option DirEntry → DirEntry → Option DirEntry
better none e = some e
better (some best) e = if ltb best.version e.version then some e else some best

pub result_of : Option DirEntry → Result DirEntry
result_of none = err not_found
result_of (some e) = ok e

-- The loop over entries.
pub find_entry : List ℕ → ℕ → List DirEntry → Option DirEntry → Result DirEntry
unfolding better result_of
find_entry name version [] best = result_of best
find_entry name version (e ∷ es) best =
    let skipped = find_entry name version es best in
    let improved = find_entry name version es (better best e) in
    if not (equal_fold e.name name)
    then skipped
    else if not (version == 0)
    then (if e.version == version then ok e else skipped)
    else improved

pub lookup : Device → File → List ℕ → ℕ → Result DirEntry
unfolding find_entry list
lookup dev f name version = do entries ← list dev f; find_entry name version entries none

pub highest_version : List ℕ → List DirEntry → ℕ → ℕ
highest_version name [] highest = highest
highest_version name (e ∷ es) highest =
    highest_version name es
      (if equal_fold e.name name && ltb highest e.version then e.version else highest)

pub next_version : Device → File → List ℕ → Result ℕ
unfolding highest_version list
next_version dev f name = do entries ← list dev f; ok (u16 (highest_version name entries 0 + 1))

pub equal_fold_refl : (n : List ℕ) → equal_fold n n ≡ true
unfolding equal_fold
equal_fold_refl n = name_eq_refl (to_upper n)
