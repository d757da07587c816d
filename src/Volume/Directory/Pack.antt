-- ===== src/Volume/Directory/Pack.antt =====
-- volume/directory.go: packDirectoryBlocks, which lays entries out over blocks.
pub mod Chunks
pub mod Total
pub mod Kept
mod Examples
use ods.Base.{
  ℕ, zero, suc, List, [], ◌∷◌, ◌++◌, Bool, true, false, ◌&&◌, Result, ok, err, ◌>>=◌,
  entries_too_large, out_of_fuel, length, take, drop, ◌==◌, if◌then◌else◌,
}
use ods.Ondisk.DirEntry.{DirEntry, names_seen, group_of, sort_names, sort_versions}
use ods.Ondisk.DirBlock.{encode_directory_block}

abbrev pub succeeds : {A : Type 0} → Result A → Bool
succeeds (ok a) = true
succeeds (err e) = false

abbrev pub none_of : {A : Type 0} → List A → Bool
none_of [] = true
none_of (x ∷ xs) = false

-- The loop of directoryEntriesFitting, from `n` entries down.
unfoldable pub fitting_from : ℕ → List DirEntry → List DirEntry → ℕ
fitting_from zero pending group = 0
fitting_from (suc n) pending group =
    let fewer = fitting_from n pending group in
    if succeeds (encode_directory_block (pending ++ take (suc n) group)) then suc n else fewer

unfoldable pub directory_entries_fitting : List DirEntry → List DirEntry → ℕ
unfolding fitting_from
directory_entries_fitting pending group = fitting_from (length group) pending group

-- The closure `flush`: the blocks, with the pending entries in one more.
unfoldable pub flush : List (List ℕ) → List DirEntry → Result (List (List ℕ))
flush blocks [] = ok blocks
flush blocks (e ∷ es) = do block ← encode_directory_block (e ∷ es); ok (blocks ++ block ∷ [])

-- The inner loop, over what is left of a name's entries: the blocks and the pending entries after
-- it. The pending entries go out whenever some of the group is left, so a round that takes none of
-- it comes once at most, and the fuel is one more than the group's length.
unfoldable pub pack_group :
    ℕ → List (List ℕ) → List DirEntry → List DirEntry → Result (List (List ℕ) × List DirEntry)
unfolding directory_entries_fitting flush
pack_group fuel blocks pending [] = ok (blocks, pending)
pack_group zero blocks pending (e ∷ es) = err out_of_fuel
pack_group (suc fuel) blocks pending (e ∷ es) =
    let n = directory_entries_fitting pending (e ∷ es) in
    let kept = pending ++ take n (e ∷ es) in
    let left = drop n (e ∷ es) in
    if n == 0 && none_of pending
    then err entries_too_large
    else if none_of left
    then ok (blocks, kept)
    else (do blocks' ← flush blocks kept; pack_group fuel blocks' [] left)

-- The outer loop, over the names in their order.
unfoldable pub pack_names :
    List (List ℕ)
    → List DirEntry
    → List (List ℕ)
    → List DirEntry
    → Result (List (List ℕ) × List DirEntry)
unfolding pack_group
pack_names [] entries blocks pending = ok (blocks, pending)
pack_names (name ∷ names) entries blocks pending = do
  (blocks', pending') ←
      pack_group (suc (length (group_of name entries))) blocks pending
        (sort_versions (group_of name entries))
  pack_names names entries blocks' pending'

-- A directory has a block, also when it has no entries.
unfoldable pub one_at_least : List (List ℕ) → Result (List (List ℕ))
one_at_least [] = do block ← encode_directory_block []; ok (block ∷ [])
one_at_least (b ∷ bs) = ok (b ∷ bs)

unfoldable pub pack_directory_blocks : List DirEntry → Result (List (List ℕ))
unfolding pack_names flush one_at_least
pack_directory_blocks entries = do
  (blocks, pending) ← pack_names (sort_names (names_seen [] entries)) entries [] []
  blocks' ← flush blocks pending
  one_at_least blocks'
