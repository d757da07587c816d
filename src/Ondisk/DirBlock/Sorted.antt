-- ===== src/Ondisk/DirBlock/Sorted.antt =====
-- ondisk/directory.go: EncodeDirectoryBlock and then DecodeDirectoryBlock.
use ods.Base.{ℕ, ◌≡◌, List, ok, All}
use ods.Ondisk.DirEntry.{DirEntry}
use ods.Ondisk.DirEntry.Counts.{SameEntries}
use ods.Ondisk.DirBlock.{decode_directory_block, encode_directory_block}
use ods.Ondisk.DirBlock.Records.{EntryInRange}
use ods.Ondisk.DirBlock.RoundTrip.{canonical, decode_directory_block-canonical}
use ods.Ondisk.DirBlock.Order.{Ordered, canonical-Ordered}
use ods.Ondisk.DirBlock.Limits.{Limited, canonical-Limited}
use ods.Ondisk.DirBlock.Preserved.{canonical-SameEntries}

-- Whatever entries EncodeDirectoryBlock accepts, with 16-bit versions and file identifications in
-- range, DecodeDirectoryBlock reads back from the block it writes: the same entries, each as often as
-- it was given; a name before another in byte order, and within a name no version behind a lower
-- one; and each with the largest version limit of its name, at most 32767, or 32767 where the name
-- has none.
pub decode_directory_block-encode_directory_block :
    (es : List DirEntry) (block : List ℕ)
    → All EntryInRange es
    → encode_directory_block es ≡ ok block
    → (out : List DirEntry) × (decode_directory_block block ≡ ok out)
      × SameEntries es out
      × Ordered out
      × All (Limited es) out
decode_directory_block-encode_directory_block es block h k = (
  canonical es,
  decode_directory_block-canonical es block h k,
  canonical-SameEntries es,
  canonical-Ordered es,
  canonical-Limited es,
)
