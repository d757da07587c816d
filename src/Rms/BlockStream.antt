-- ===== src/Rms/BlockStream.antt =====
-- rms/blockstream.go: a file's data as one stream of bytes. A block source is the function that its
-- ReadBlock is, and `limit` is what the file's length is at the time of a call.
pub mod Rounds
pub mod Filling
pub mod Bytes
pub mod Memory
mod Examples
use ods.Base.{
  ℕ, zero, suc, ◌+◌, ◌-◌, ◌*◌, ◌/◌, ◌%◌, ◌^◌, List, [], ◌∷◌, ◌++◌, Option, none, some, Error,
  Result, ok, err, zero_vbn, end_of_file, unexpected_eof, out_of_fuel, length, take, drop, slice,
  replicate, get_or, ltb, leb, ◌==◌, not, if◌then◌else◌,
}
use ods.Base.Word.{u32}
use ods.Ondisk.Block.{block_size}

abbrev pub BlockSource : Type 0
BlockSource = ℕ → Result (List ℕ)

-- `BytesSource.ReadBlock`: a file's data in memory, with zeros behind its end.
unfoldable pub bytes_source : List ℕ → BlockSource
bytes_source b vbn =
    let data_block = slice b ((vbn - 1) * block_size) block_size in
    if vbn == 0
    then err zero_vbn
    else ok (data_block ++ replicate (block_size - length data_block) 0)

pub record BlockStream : Type 0 where
  pub buf : List ℕ
  pub buf_off : ℕ
  pub fetched : ℕ

-- The bytes fetched and not consumed.
abbrev pub unread : BlockStream → List ℕ
unread s = drop s.buf_off s.buf

unfoldable pub new_block_stream : BlockStream
new_block_stream = record { buf = []; buf_off = 0; fetched = 0 }

-- The stream with the bytes of a block from the next one to be fetched on.
unfoldable pub add_block : ℕ → BlockStream → List ℕ → BlockStream
add_block limit s block =
    let rest = take (limit - s.fetched) (drop (s.fetched % block_size) block) in
    record { buf = unread s ++ rest; buf_off = 0; fetched = s.fetched + length rest }

-- One round of `fill`, and the rounds behind it.
unfoldable pub fetch_block :
    ℕ
    → BlockStream
    → Result (List ℕ)
    → (BlockStream → BlockStream × Option Error)
    → BlockStream × Option Error
unfolding add_block
fetch_block limit s (err e) more = (s, some e)
fetch_block limit s (ok block) more = more (add_block limit s block)

-- What the callers of `fill` do with its outcome.
unfoldable pub after_peek : ℕ → BlockStream × Option Error → BlockStream × Option (List ℕ)
after_peek n (s, some e) = (s, none)
after_peek n (s, none) = (s, some (take n (unread s)))

unfoldable pub after_read_byte : BlockStream × Option Error → BlockStream × Result ℕ
after_read_byte (s, some e) = (s, err e)
after_read_byte (s, none) = (record s { buf_off = s.buf_off + 1 }, ok (get_or (unread s) 0 0))

unfoldable pub after_read_full : ℕ → BlockStream × Option Error → BlockStream × Result (List ℕ)
after_read_full n (s, some e) =
    (s, err (if length (unread s) == 0 then end_of_file else unexpected_eof))
after_read_full n (s, none) = (record s { buf_off = s.buf_off + n }, ok (take n (unread s)))

module _ (source : BlockSource) (limit : ℕ) where
  unfoldable pub fill_rounds : ℕ → ℕ → BlockStream → BlockStream × Option Error
  unfolding fetch_block
  fill_rounds zero n s =
      if ltb (length (unread s)) n
      then (if leb limit s.fetched then (s, some end_of_file) else (s, some out_of_fuel))
      else (s, none)
  fill_rounds (suc fuel) n s =
      if ltb (length (unread s)) n
      then (if leb limit s.fetched
          then (s, some end_of_file)
          else fetch_block limit s (source (u32 (u32 (s.fetched / block_size) + 1)))
              (fill_rounds fuel n))
      else (s, none)

  -- Each round fetches a byte at least, so a round for each byte asked for is enough.
  unfoldable pub fill : ℕ → BlockStream → BlockStream × Option Error
  unfolding fill_rounds
  fill n s = fill_rounds n n s

  unfoldable pub peek : ℕ → BlockStream → BlockStream × Option (List ℕ)
  unfolding fill after_peek
  peek n s = after_peek n (fill n s)

  unfoldable pub read_byte : BlockStream → BlockStream × Result ℕ
  unfolding fill after_read_byte
  read_byte s = after_read_byte (fill 1 s)

  unfoldable pub read_full : ℕ → BlockStream → BlockStream × Result (List ℕ)
  unfolding fill after_read_full
  read_full n s = after_read_full n (fill n s)

-- What `ReadFull` found buffered when the file ended before all it asked for.
unfoldable pub read_rest : BlockStream → BlockStream × List ℕ
read_rest s = (record s { buf_off = length s.buf }, unread s)

unfoldable pub seek : ℕ → BlockStream
seek off = record { buf = []; buf_off = 0; fetched = off }

unfoldable pub offset : BlockStream → ℕ
offset s = s.fetched - (length s.buf - s.buf_off)
