-- ===== src/Ondisk/Retrieval.antt =====
-- ondisk/retrieval.go: retrieval pointers, the run-length map of where a file's blocks are.
pub mod Entry
mod Examples
pub mod RoundTrip
pub mod Fuel
use ods.Base.{
  ℕ, zero, suc, ◌+◌, ◌-◌, ◌*◌, ◌≤◌, ◌<◌, ◌^◌, bit_and, bit_or, List, [], ◌∷◌, ◌++◌, Bool, ◌&&◌,
  Result, ok, err, map_area_bounds, entry_past_header, zero_count, count_too_large, out_of_fuel,
  ◌>>=◌, length, replicate, ltb, leb, ◌==◌, if◌then◌else◌,
}
use ods.Base.Word.{u16, u32, u16_at, put_u16, ◌<<<◌, ◌>>>◌}
use ods.Ondisk.FileHeader.{FileHeader}

pub record Extent : Type 0 where
  pub count : ℕ
  pub start_lbn : ℕ

unfoldable pub read_word : List ℕ → ℕ → Result ℕ
read_word raw off =
    if ltb (length raw) (off + 2) then err entry_past_header else ok (u16_at raw off)

-- What one entry adds to the list of extents, and where the next entry starts.
unfoldable pub read_format1 : List ℕ → ℕ → ℕ → Result (List Extent × ℕ)
unfolding read_word
read_format1 raw pos word0 = do
  word1 ← read_word raw (pos + 2)
  let count = bit_and word0 0x00FF + 1
  let lbn = bit_or (u32 (bit_and word0 0x3F00 <<< 8)) word1
  ok (record { count = count; start_lbn = lbn } ∷ [], pos + 4)

unfoldable pub read_format2 : List ℕ → ℕ → ℕ → Result (List Extent × ℕ)
unfolding read_word
read_format2 raw pos word0 = do
  word1 ← read_word raw (pos + 2)
  word2 ← read_word raw (pos + 4)
  let count = bit_and word0 0x3FFF + 1
  let lbn = bit_or (u32 (word2 <<< 16)) word1
  ok (record { count = count; start_lbn = lbn } ∷ [], pos + 6)

unfoldable pub read_format3 : List ℕ → ℕ → ℕ → Result (List Extent × ℕ)
unfolding read_word
read_format3 raw pos word0 = do
  word1 ← read_word raw (pos + 2)
  word2 ← read_word raw (pos + 4)
  word3 ← read_word raw (pos + 6)
  let count = u32 (u32 (bit_and word0 0x3FFF <<< 16) + word1 + 1)
  let lbn = bit_or (u32 (word3 <<< 16)) word2
  ok (record { count = count; start_lbn = lbn } ∷ [], pos + 8)

-- The switch on the two top bits of an entry's first word.
unfoldable pub read_entry : List ℕ → ℕ → ℕ → Result (List Extent × ℕ)
unfolding read_format1 read_format2 read_format3
read_entry raw pos word0 =
    if word0 >>> 14 == 0
    then ok ([], pos + 2)
    else if word0 >>> 14 == 1
    then read_format1 raw pos word0
    else if word0 >>> 14 == 2
    then read_format2 raw pos word0
    else read_format3 raw pos word0

-- The loop `for pos < mapEnd`.
unfoldable pub read_entries : ℕ → List ℕ → ℕ → ℕ → List Extent → Result (List Extent)
read_entries zero raw map_end pos extents = if ltb pos map_end then err out_of_fuel else ok extents
read_entries (suc fuel) raw map_end pos extents =
    if ltb pos map_end
    then (do
      word0 ← read_word raw pos
      (new, pos') ← read_entry raw pos word0
      read_entries fuel raw map_end pos' (extents ++ new))
    else ok extents

-- An entry takes a word at least, so the map's words are fuel enough.
unfoldable pub retrieval_pointers : FileHeader → Result (List Extent)
retrieval_pointers h =
    let map_start = h.map_offset * 2 in
    let map_end = map_start + h.map_words_in_use * 2 in
    if ltb (length h.raw) map_end
    then err map_area_bounds
    else read_entries h.map_words_in_use h.raw map_end map_start []

abbrev pub max_count_format1 : ℕ
max_count_format1 = 0x100

abbrev pub max_lbn_format1 : ℕ
max_lbn_format1 = 0x3FFFFF

abbrev pub max_count_format2 : ℕ
max_count_format2 = 0x4000

abbrev pub max_count_format3 : ℕ
max_count_format3 = 0x40000000

-- The cases of the switch in `encodeExtent`. A count is not 0 here, so `- 1` does not wrap.
encode_format1 : Extent → List ℕ
encode_format1 e =
    let word0 =
      bit_or (bit_or (u16 (1 <<< 14)) (u16 (u16 (bit_and (e.start_lbn >>> 16) 0x3F) <<< 8)))
        (u16 (e.count - 1)) in
    put_u16 (put_u16 (replicate 4 0) 0 word0) 2 (u16 e.start_lbn)

encode_format2 : Extent → List ℕ
encode_format2 e =
    let word0 = bit_or (u16 (2 <<< 14)) (u16 (e.count - 1)) in
    put_u16 (put_u16 (put_u16 (replicate 6 0) 0 word0) 2 (u16 e.start_lbn)) 4
      (u16 (e.start_lbn >>> 16))

encode_format3 : Extent → List ℕ
encode_format3 e =
    let count_minus1 = e.count - 1 in
    let word0 = bit_or (u16 (3 <<< 14)) (u16 (bit_and (count_minus1 >>> 16) 0x3FFF)) in
    let b1 = put_u16 (replicate 8 0) 0 word0 in
    let b2 = put_u16 b1 2 (u16 count_minus1) in
    put_u16 (put_u16 b2 4 (u16 e.start_lbn)) 6 (u16 (e.start_lbn >>> 16))

unfoldable pub encode_extent : Extent → Result (List ℕ)
unfolding encode_format1 encode_format2 encode_format3
encode_extent e =
    if e.count == 0
    then err zero_count
    else if leb e.count max_count_format1 && leb e.start_lbn max_lbn_format1
    then ok (encode_format1 e)
    else if leb e.count max_count_format2
    then ok (encode_format2 e)
    else if leb e.count max_count_format3
    then ok (encode_format3 e)
    else err count_too_large

-- `b` is what the loop has appended so far.
unfoldable pub encode_entries : List ℕ → List Extent → Result (List ℕ)
encode_entries b [] = ok b
encode_entries b (e ∷ es) = do enc ← encode_extent e; encode_entries (b ++ enc) es

unfoldable pub encode_retrieval_pointers : List Extent → Result (List ℕ)
unfolding encode_entries
encode_retrieval_pointers extents = encode_entries [] extents
