-- ===== src/Volume/Directory/Update/Lookups.antt =====
-- volume/directory.go: Insert and Remove, and then Lookup.
use ods.Base.{
  ℕ, ◌≤◌, ◌≡◌, ◌≢◌, List, [], ◌∷◌, ◌++◌, true, false, Result, ok, err, All, length, not_found, ◌∙◌,
  ◌&&◌, ◌==◌, if◌then◌else◌,
}
use ods.Ondisk.Fid.{Fid}
use ods.Ondisk.DirEntry.{DirEntry}
use ods.Ondisk.DirBlock.Records.{EntryInRange}
use ods.Volume.Device.{Container}
use ods.Volume.Directory.{equal_fold, list, lookup}
use ods.Volume.Directory.Pack.{pack_directory_blocks}
use ods.Volume.Directory.Update.{OpenDirectory, has_version, without, insert, remove}
use ods.Volume.Directory.Update.Changed.{IsDirectory}
use ods.Volume.Directory.Update.Entered.{entry_of, insert-SameEntries, removed_entries}
use ods.Volume.Directory.Update.Found.{has_version-SameEntries, lookup_entered, lookup_taken}
use ods.Volume.Directory.Update.Removed.{times, times-some, without-only, has_version-without}
use ods.Volume.WriteFile.Marks.{IsContainerWrite}

module _ (write_container : Container → ℕ → List ℕ → Result Container)
    (container : IsContainerWrite write_container) (capacity : ℕ) (s : OpenDirectory)
    (entries : List DirEntry) (r : IsDirectory capacity s)
    (listed : list s.device s.file ≡ ok entries) (good : All EntryInRange entries)
    (open_for_write : s.writable ≡ true) where
  -- A directory with room for one more entry takes one of a name and a version other than 0 that it
  -- does not have, and then finds it under them, with the file it was given. Of every other name and
  -- version it has an entry exactly where it had one before.
  pub lookup-insert :
      (name : List ℕ) (version : ℕ) (fid : Fid) (limit : ℕ) (bs : List (List ℕ))
      → EntryInRange (entry_of name version fid limit)
      → pack_directory_blocks (entries ++ entry_of name version fid limit ∷ []) ≡ ok bs
      → length bs ≤ capacity
      → version ≢ 0
      → has_version name version entries ≡ false
      → (s' : OpenDirectory) × (out : List DirEntry) × (e : DirEntry) × (insert write_container name
            version fid limit s
          ≡ ok s')
        × (lookup s'.device s'.file name version ≡ ok e)
        × (e.name ≡ name)
        × (e.version ≡ version)
        × (e.fid ≡ fid)
        × (list s'.device s'.file ≡ ok out)
        × ((n : List ℕ) (v : ℕ)
            → has_version n v out
              ≡ has_version n v (entries ++ entry_of name version fid limit ∷ []))
  lookup-insert name version fid limit bs new k room z fresh =
      let all : List DirEntry = entries ++ entry_of name version fid limit ∷ [] in
      let (s', out, k', stored, l, same) =
        (insert-SameEntries write_container container capacity s entries r listed good
            open_for_write name version fid limit bs new k room).0
          fresh in
      let (e, found, en, ev, ei) =
        lookup_entered s'.device s'.file name version limit fid entries out z fresh l same in
      (s', out, e, k', found, en, ev, ei, l, λ n v. has_version-SameEntries n v all out same)

  -- A directory that has one entry of a name and a version other than 0 gives it up, and then finds
  -- none under them. Of every other name and version it has an entry exactly where it had one before.
  pub lookup-remove :
      (name : List ℕ) (version : ℕ) (bs : List (List ℕ))
      → pack_directory_blocks (without name version entries) ≡ ok bs
      → length bs ≤ capacity
      → version ≢ 0
      → times name version entries ≡ 1
      → (s' : OpenDirectory) × (out : List DirEntry) × (remove write_container name version s
          ≡ ok s')
        × (lookup s'.device s'.file name version ≡ err not_found)
        × (list s'.device s'.file ≡ ok out)
        × ((n : List ℕ) (v : ℕ)
            → has_version n v out
              ≡ (if v == version && equal_fold n name then false else has_version n v entries))
  lookup-remove name version bs k room z one =
      let left : List DirEntry = without name version entries in
      let (s', out, k', stored, l, same) =
        removed_entries write_container container capacity s entries r listed good open_for_write
          name version bs k room z (times-some name version entries one) in
      (
        s',
        out,
        k',
        lookup_taken s'.device s'.file name version left out z
            (without-only name version entries one) l same,
        l,
        λ n v.
            has_version-SameEntries n v left out same
            ∙ has_version-without name version entries one n v,
      )
