-- ===== src/Volume/Directory/Update/Entered.antt =====
-- volume/directory.go: what a directory lists after an entry was put in or taken out.
use ods.Base.{
  ℕ, ◌≤◌, ◌≡◌, ◌≢◌, refl, ap, ◌∙◌, List, [], ◌∷◌, ◌++◌, true, false, not, Result, ok, err, All,
  All-append, length, ltb, ◌==◌, arith, if_so, if_not, le→ltb, already_exists, not_found,
  version_required, Bool-cases, inl, inr, ◌&&◌,
}
use ods.Base.Word.{u32}
use ods.Ondisk.Fid.{Fid}
use ods.Ondisk.DirEntry.{DirEntry}
use ods.Ondisk.DirBlock.Records.{EntryInRange}
use ods.Ondisk.DirBlock.RoundTrip.{length-encode_directory_block}
use ods.Volume.Device.{Container}
use ods.Volume.File.{blocks}
use ods.Volume.Directory.{list, equal_fold}
use ods.Volume.Directory.Pack.{pack_directory_blocks}
use ods.Volume.Directory.Pack.Chunks.{Encoded, pack_directory_blocks-Encoded}
use ods.Ondisk.DirEntry.Counts.{SameEntries, count}
use ods.Ondisk.DirBlock.Kept.{Among}
use ods.Volume.Directory.Pack.Kept.{pack_directory_blocks-SameEntries}
use ods.Volume.Directory.Update.{OpenDirectory, has_version, without, store, insert, remove}
use ods.Volume.Directory.Update.Changed.{IsDirectory}
use ods.Volume.Directory.Update.Removed.{without-one}
use ods.Volume.Directory.Update.Stored.{IsStoredIn, store_lem}
use ods.Volume.WriteFile.Marks.{IsContainerWrite}

Encoded-sizes :
    (cs : List (List DirEntry)) (bs : List (List ℕ)) → Encoded cs bs → All (λ b. length b ≡ 512) bs
Encoded-sizes [] [] Encoded.done = tt
Encoded-sizes [] (b ∷ bs) e = elim e [ ]
Encoded-sizes (c ∷ cs) [] e = elim e [ ]
Encoded-sizes (c ∷ cs) (b ∷ bs) (Encoded.also k e) =
    (length-encode_directory_block c b k, Encoded-sizes cs bs e)

abbrev pub entry_of : List ℕ → ℕ → Fid → ℕ → DirEntry
entry_of name version fid limit = record {
  name = name;
  version = version;
  fid = fid;
  version_limit = limit;
}

without-All :
    (P : DirEntry → Type 0) (name : List ℕ) (version : ℕ) (es : List DirEntry)
    → All P es
    → All P (without name version es)
unfolding without
without-All P name version [] h = tt
without-All P name version (e ∷ es) (h, hs) =
    elim (Bool-cases (equal_fold e.name name && e.version == version)) [
      | inl t ↦ rw t hs
      | inr t ↦ rw t (h, without-All P name version es hs)
    ]

module _ (write_container : Container → ℕ → List ℕ → Result Container)
    (container : IsContainerWrite write_container) (capacity : ℕ) (s : OpenDirectory)
    (entries : List DirEntry) (r : IsDirectory capacity s)
    (listed : list s.device s.file ≡ ok entries) (good : All EntryInRange entries)
    (open_for_write : s.writable ≡ true) where
  stored_entries :
      (es : List DirEntry) (bs : List (List ℕ))
      → All EntryInRange es
      → pack_directory_blocks es ≡ ok bs
      → length bs ≤ capacity
      → (s' : OpenDirectory) × (out : List DirEntry) × (store write_container bs s ≡ ok s')
        × IsStoredIn capacity s bs r.slot_lbn s'
        × (list s'.device s'.file ≡ ok out)
        × SameEntries es out
  stored_entries es bs h k room =
      let (cs, enc, order) = pack_directory_blocks-Encoded es bs k in
      let (s', k', stored) =
        store_lem write_container container capacity s bs r room (Encoded-sizes cs bs enc) in
      let (out, d, same) = pack_directory_blocks-SameEntries es bs h k in
      (s', out, k', stored, stored.listed out d, same)

  -- A directory with room for one more entry takes an entry of a name and version that it does not
  -- have. It then lists the entries that it listed and the new one, each as often as it is there and
  -- none else, up to their version limits and their order; it can be written again, and of the
  -- container only the blocks of the directory and of its header change. An entry of a name and version that it has is refused.
  pub insert-SameEntries :
      (name : List ℕ) (version : ℕ) (fid : Fid) (limit : ℕ) (bs : List (List ℕ))
      → EntryInRange (entry_of name version fid limit)
      → pack_directory_blocks (entries ++ entry_of name version fid limit ∷ []) ≡ ok bs
      → length bs ≤ capacity
      → (has_version name version entries ≡ false
          → (s' : OpenDirectory) × (out : List DirEntry) × (insert write_container name version fid
                limit s
              ≡ ok s')
            × IsStoredIn capacity s bs r.slot_lbn s'
            × (list s'.device s'.file ≡ ok out)
            × SameEntries (entries ++ entry_of name version fid limit ∷ []) out)
        × (has_version name version entries ≡ true
            → insert write_container name version fid limit s ≡ err already_exists)
  unfolding insert
  insert-SameEntries name version fid limit bs new k room = (
    λ fresh.
        let added : DirEntry = entry_of name version fid limit in
        let (s', out, k', stored, l, same) =
          stored_entries (entries ++ added ∷ []) bs
            (All-append EntryInRange entries (added ∷ []) good (new, tt)) k room in
        let here : ltb (blocks s.file) (u32 (length bs)) ≡ false =
          le→ltb (blocks s.file) (u32 (length bs))
            (unfold blocks in omega (arith, r.allocated, r.small)) in
        (
          s',
          out,
          if_not _ _ (ap not open_for_write) ∙ rw (listed, fresh, k, here) k',
          stored,
          l,
          same,
        ),
    λ there. if_not _ _ (ap not open_for_write) ∙ rw (listed, there) refl,
  )

  -- What is left when an entry of a name and a version is removed.
  pub removed_entries :
      (name : List ℕ) (version : ℕ) (bs : List (List ℕ))
      → pack_directory_blocks (without name version entries) ≡ ok bs
      → length bs ≤ capacity
      → version ≢ 0
      → has_version name version entries ≡ true
      → (s' : OpenDirectory) × (out : List DirEntry) × (remove write_container name version s
          ≡ ok s')
        × IsStoredIn capacity s bs r.slot_lbn s'
        × (list s'.device s'.file ≡ ok out)
        × SameEntries (without name version entries) out
  unfolding remove
  removed_entries name version bs k room v there =
      let (s', out, k', stored, l, same) =
        stored_entries (without name version entries) bs
          (without-All EntryInRange name version entries good) k room in
      let given : (version == 0) ≡ false = ground arith in
      (
        s',
        out,
        if_not _ _ given ∙ if_not _ _ (ap not open_for_write) ∙ rw (listed, there, k) k',
        stored,
        l,
        same,
      )

  -- A directory that has an entry of a name, up to case, and a version other than 0 gives up one such
  -- entry. It then lists the others that it listed, each as often as it was there and none else, up
  -- to their version limits and their order; it can be written again, and of the container only the
  -- blocks of the directory and of its header change. A version of 0 and a name and version that it
  -- does not have are refused.
  pub remove-SameEntries :
      (name : List ℕ) (version : ℕ) (bs : List (List ℕ))
      → pack_directory_blocks (without name version entries) ≡ ok bs
      → length bs ≤ capacity
      → (version ≢ 0
          → has_version name version entries ≡ true
          → (s' : OpenDirectory) × (out : List DirEntry) × (remove write_container name version s
              ≡ ok s')
            × IsStoredIn capacity s bs r.slot_lbn s'
            × (list s'.device s'.file ≡ ok out)
            × ((x : DirEntry) × Among x entries
                × (equal_fold x.name name ≡ true)
                × (x.version ≡ version)
                × SameEntries entries (x ∷ out)))
        × (version ≢ 0
            → has_version name version entries ≡ false
            → remove write_container name version s ≡ err not_found)
        × (version ≡ 0 → remove write_container name version s ≡ err version_required)
  unfolding remove
  remove-SameEntries name version bs k room = (
    λ v there.
        let (s', out, k', stored, l, same) = removed_entries name version bs k room v there in
        let (x, a, named, numbered, one) = without-one name version entries there in
        (
          s',
          out,
          k',
          stored,
          l,
          (x, a, named, numbered, λ p. one p ∙ unfold count in rw (same p) refl),
        ),
    λ v missing.
        let given : (version == 0) ≡ false = ground arith in
        if_not _ _ given ∙ if_not _ _ (ap not open_for_write) ∙ rw (listed, missing) refl,
    λ z. let given : (version == 0) ≡ true = ground arith in if_so _ _ given,
  )
