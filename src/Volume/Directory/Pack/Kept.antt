-- ===== src/Volume/Directory/Pack/Kept.antt =====
-- volume/directory.go: the entries that the blocks of packDirectoryBlocks give back.
use ods.Base.{
  ℕ, sym, ap, ◌∙◌, arith, ◌≡◌, refl, List, [], ◌∷◌, ◌++◌, Result, ok, ◌>>=◌, All, All-append,
}
use ods.Ondisk.DirEntry.{DirEntry, names_seen, group_of, sort_names, sort_versions}
use ods.Ondisk.DirEntry.Groups.{group_of-All, sort_versions-All}
use ods.Ondisk.DirBlock.{decode_directory_block}
use ods.Ondisk.DirBlock.Records.{EntryInRange}
use ods.Ondisk.DirEntry.Counts.{SameEntries, count, count-append, grouped, grouped-SameEntries}
use ods.Ondisk.DirBlock.RoundTrip.{canonical, decode_directory_block-canonical}
use ods.Ondisk.DirBlock.Preserved.{canonical-SameEntries}
use ods.Volume.Directory.Pack.{pack_directory_blocks}
use ods.Volume.Directory.Pack.Chunks.{Encoded, joined, pack_directory_blocks-Encoded}

-- The entries of a list of directory blocks, one block after the other.
unfoldable pub decode_blocks : List (List ℕ) → Result (List DirEntry)
decode_blocks [] = ok []
decode_blocks (b ∷ bs) = do es ← decode_directory_block b; rest ← decode_blocks bs; ok (es ++ rest)

grouped-All :
    (P : DirEntry → Type 0) (ns : List (List ℕ)) (es : List DirEntry)
    → All P es
    → All P (grouped ns es)
unfolding grouped
grouped-All P [] es h = tt
grouped-All P (n ∷ ns) es h =
    All-append P (sort_versions (group_of n es)) (grouped ns es)
      (sort_versions-All P (group_of n es) (group_of-All P n es h)) (grouped-All P ns es h)

All-left : (P : DirEntry → Type 0) (xs ys : List DirEntry) → All P (xs ++ ys) → All P xs × All P ys
All-left P [] ys h = (tt, h)
All-left P (x ∷ xs) ys (h, hs) = let (l, r) = All-left P xs ys hs in ((h, l), r)

decode_blocks-SameEntries :
    (cs : List (List DirEntry)) (bs : List (List ℕ))
    → Encoded cs bs
    → All EntryInRange (joined cs)
    → (out : List DirEntry) × (decode_blocks bs ≡ ok out) × SameEntries (joined cs) out
unfolding decode_blocks
decode_blocks-SameEntries [] [] Encoded.done h = ([], refl, λ p. refl)
decode_blocks-SameEntries [] (b ∷ bs) enc h = elim enc [ ]
decode_blocks-SameEntries (c ∷ cs) [] enc h = elim enc [ ]
decode_blocks-SameEntries (c ∷ cs) (b ∷ bs) (Encoded.also k enc) h =
    let (mine, others) = All-left EntryInRange c (joined cs) h in
    let d = decode_directory_block-canonical c b mine k in
    let (out, d', same) = decode_blocks-SameEntries cs bs enc others in
    (
      canonical c ++ out,
      rw (d, d') refl,
      λ p.
          let a = count-append p c (joined cs) in
          let b = count-append p (canonical c) out in
          let first = canonical-SameEntries c p in omega (arith, a, b, first, same p),
    )

-- The blocks that entries are packed into decode, one after the other, to the same entries: none is
-- lost, none is added and none is repeated, whichever block each of them is in.
pub pack_directory_blocks-SameEntries :
    (entries : List DirEntry) (blocks : List (List ℕ))
    → All EntryInRange entries
    → pack_directory_blocks entries ≡ ok blocks
    → (out : List DirEntry) × (decode_blocks blocks ≡ ok out) × SameEntries entries out
pack_directory_blocks-SameEntries entries blocks h k =
    let names : List (List ℕ) = sort_names (names_seen [] entries) in
    let (cs, enc, e) = pack_directory_blocks-Encoded entries blocks k in
    let (out, d, same) =
      decode_blocks-SameEntries cs blocks enc (rw e (grouped-All EntryInRange names entries h)) in
    (
      out,
      d,
      λ p. grouped-SameEntries entries p ∙ ap (λ (es : List DirEntry). count p es) (sym e) ∙ same p,
    )
