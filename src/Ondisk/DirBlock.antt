-- ===== src/Ondisk/DirBlock.antt =====
-- ondisk/directory.go: one 512-byte block of a directory.
pub mod Records
pub mod Fuel
mod Examples
pub mod RoundTrip
pub mod Kept
pub mod Order
pub mod Limits
pub mod Preserved
pub mod Sorted
pub mod Single
use ods.Base.{
  ℕ, zero, suc, ◌+◌, ◌-◌, ◌*◌, ◌/◌, ◌%◌, ◌<◌, List, [], ◌∷◌, ◌++◌, Bool, ◌||◌, Result, ok, err,
  ◌>>=◌, bad_length, name_past_block, record_inconsistent, ragged_entries, name_too_long,
  block_overflow, out_of_fuel, length, slice, replicate, ltb, ◌==◌, not, if◌then◌else◌, max,
}
use ods.Base.Word.{u8, u16, u16_at, byte_at, put_u16, ◌>>>◌}
use ods.Ondisk.Block.{block_size}
use ods.Ondisk.Fid.{fid_at, encode_fid}
use ods.Ondisk.DirEntry.{
  DirEntry, no_version_limit, names_seen, group_of, sort_names, sort_versions,
}

abbrev pub dir_rec_header_size : ℕ
dir_rec_header_size = 6

abbrev pub dir_ent_size : ℕ
dir_ent_size = 8

abbrev pub dir_max_record_size : ℕ
dir_max_record_size = 510

abbrev pub dir_name_len_max : ℕ
dir_name_len_max = 255

abbrev pub round_up_to_even : ℕ → ℕ
round_up_to_even n = (n + 1) / 2 * 2

-- The version entries from `pos` on, `n` of them.
unfoldable pub read_versions : ℕ → List ℕ → ℕ → List ℕ → ℕ → List DirEntry
read_versions zero block pos name limit = []
read_versions (suc n) block pos name limit =
    record {
      name = name;
      version = u16_at block pos;
      fid = fid_at block (pos + 2);
      version_limit = limit;
    }
    ∷ read_versions n block (pos + dir_ent_size) name limit

-- One round of the decoding loop: the entries of the record at `offset`, and where the next
-- record starts.
unfoldable pub read_record : List ℕ → ℕ → Result (List DirEntry × ℕ)
unfolding read_versions
read_record block offset =
    let record_size = u16_at block offset in
    let limit = u16_at block (offset + 2) in
    let name_count = byte_at block (offset + 5) in
    let name_start = offset + dir_rec_header_size in
    let record_end = offset + record_size + 2 in
    let entries_start = name_start + round_up_to_even name_count in
    let area = record_end - entries_start in
    if ltb (length block) (name_start + name_count)
    then err name_past_block
    else if ltb (length block) record_end || ltb record_end entries_start
    then err record_inconsistent
    else if not (area % dir_ent_size == 0)
    then err ragged_entries
    else ok (
      read_versions (area / dir_ent_size) block entries_start (slice block name_start name_count)
          limit,
      record_end,
    )

unfoldable pub read_records : ℕ → List ℕ → ℕ → List DirEntry → Result (List DirEntry)
read_records zero block offset entries =
    if ltb (length block) (offset + dir_rec_header_size) then ok entries else err out_of_fuel
read_records (suc fuel) block offset entries =
    if ltb (length block) (offset + dir_rec_header_size)
    then ok entries
    else if ltb dir_max_record_size (u16_at block offset)
    then ok entries
    else (do (new, next) ← read_record block offset; read_records fuel block next (entries ++ new))

-- A record takes six bytes at least, so a block holds at most 86.
unfoldable pub decode_directory_block : List ℕ → Result (List DirEntry)
decode_directory_block block =
    if length block == block_size then read_records 86 block 0 [] else err bad_length

-- The limit that a name's record holds: the largest of its versions'.
unfoldable pub largest_limit : ℕ → List DirEntry → ℕ
largest_limit limit [] = limit
largest_limit limit (v ∷ vs) = largest_limit (max limit v.version_limit) vs

unfoldable pub record_limit : List DirEntry → ℕ
unfolding largest_limit
record_limit versions =
    let limit = largest_limit 0 versions in
    if limit == 0 || ltb no_version_limit limit then no_version_limit else limit

abbrev word : ℕ → List ℕ
word v = u8 v ∷ u8 (v >>> 8) ∷ []

unfoldable pub version_bytes : List DirEntry → List ℕ
unfolding encode_fid
version_bytes [] = []
version_bytes (v ∷ vs) = word v.version ++ (encode_fid v.fid ++ version_bytes vs)

-- A name record: its header, the name padded to an even length, and the versions.
unfoldable pub encode_record : List ℕ → List DirEntry → List ℕ
unfolding version_bytes record_limit
encode_record name versions =
    let padded = round_up_to_even (length name) in
    let record_len = dir_rec_header_size + padded + length versions * dir_ent_size in
    word (u16 (record_len - 2))
    ++ (word (record_limit versions)
        ++ (0
            ∷ u8 (length name)
            ∷ (name ++ (replicate (padded - length name) 0 ++ version_bytes versions))))

unfoldable pub encode_records : List (List ℕ) → List DirEntry → List ℕ → Result (List ℕ)
unfolding encode_record
encode_records [] entries block = ok block
encode_records (name ∷ names) entries block =
    if ltb dir_name_len_max (length name)
    then err name_too_long
    else encode_records names entries
        (block ++ encode_record name (sort_versions (group_of name entries)))

unfoldable pub encode_directory_block : List DirEntry → Result (List ℕ)
unfolding encode_records
encode_directory_block entries = do
  block ← encode_records (sort_names (names_seen [] entries)) entries []
  if ltb block_size (length block + 2)
      then err block_overflow
      else ok (block ++ (0xFF ∷ 0xFF ∷ replicate (block_size - (length block + 2)) 0))
