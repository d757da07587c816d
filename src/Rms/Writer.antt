-- ===== src/Rms/Writer.antt =====
-- rms/writer.go: records written to a file by blocks. An operation returns the writer and the file
-- that it leaves; what it leaves when it fails is not modelled, since the source promises nothing of it.
pub mod Content
pub mod Framing
pub mod Records
pub mod LastBlock
pub mod Files
pub mod Tail
pub mod EndOfFile
pub mod Shared
mod Examples
use ods.Base.{
  ℕ, zero, suc, ◌+◌, ◌-◌, ◌*◌, ◌/◌, ◌%◌, ◌^◌, Bool, true, false, ◌&&◌, ◌||◌, not, bit_and, List, [],
  ◌∷◌, ◌++◌, Option, none, some, Result, ok, err, ◌>>=◌, not_sequential, unsupported_format,
  out_of_fuel, writer_closed, spans_block, no_fixed_size, wrong_fixed_size, record_too_long, length,
  take, drop, replicate, ltb, leb, ◌==◌, if◌then◌else◌,
}
use ods.Base.Word.{u8, u16, u32, ◌>>>◌, put_u16}
use ods.Ondisk.Block.{block_size}
use ods.Ondisk.RecAttr.{
  RecAttr, RecordFormat, undefined, fixed, variable, vfc, stream_crlf, stream_lf, stream_cr,
  record_format, organization, attr_no_span,
}
use ods.Rms.Length.{fixed_record_space, file_byte_length}
use ods.Rms.Reader.{StreamDelim, delim_lf, delim_cr, delim_crlf, end_of_records}
use ods.Rms.BlockFile.{BlockFile}

pub record Writer : Type 0 where
  pub format : RecordFormat
  pub fixed_size : ℕ
  pub no_span : Bool
  pub buf : List ℕ
  pub vbn : ℕ
  pub closed : Bool
  pub shared : Bool
  pub record_offset : ℕ

abbrev pub writer_of : RecAttr → Option RecordFormat → Result Writer
writer_of attr none = err unsupported_format
writer_of attr (some format) = ok (record {
  format = format;
  fixed_size = attr.max_record_size;
  no_span = not (bit_and attr.attributes attr_no_span == 0);
  buf = [];
  vbn = 1;
  closed = false;
  shared = false;
  record_offset = 0;
})

unfoldable pub new_writer : RecAttr → Result Writer
new_writer attr =
    if organization attr.format == 0
    then writer_of attr (record_format attr.format)
    else err not_sequential

unfoldable pub set_shared : Bool → Writer → Writer
set_shared shared w = record w { shared = shared }

-- `int64(w.vbn-1)`: the block number is one of 32 bits.
unfoldable pub position : Writer → ℕ
position w = u32 (w.vbn + 4294967295) * block_size + length w.buf

abbrev pub is_variable : RecordFormat → Bool
is_variable variable = true
is_variable vfc = true
is_variable other = false

unfoldable pub final_block : Writer → List ℕ
final_block w =
    let block = w.buf ++ replicate (block_size - length w.buf) 0 in
    if is_variable w.format && leb (length w.buf) (block_size - 2)
    then put_u16 block (length w.buf) end_of_records
    else block

unfoldable pub stream_delim_bytes : StreamDelim → List ℕ
stream_delim_bytes delim_lf = 0x0A ∷ []
stream_delim_bytes delim_cr = 0x0D ∷ []
stream_delim_bytes delim_crlf = 0x0D ∷ 0x0A ∷ []

-- What a record needs of a block, for the formats that a no-span writer keeps inside one.
unfoldable pub space_needed : RecordFormat → List ℕ → Option ℕ
unfolding fixed_record_space
space_needed variable text = some (2 + fixed_record_space (length text))
space_needed vfc text = some (2 + fixed_record_space (length text))
space_needed fixed text =
    if ltb block_size (fixed_record_space (length text))
    then none
    else some (fixed_record_space (length text))
space_needed other text = none

module _ {S : Type 0} (f : BlockFile S) where
  unfoldable pub seek : ℕ → Writer → S → Result Writer
  seek offset w s =
      let vbn = u32 (u32 (offset / block_size) + 1) in
      if offset % block_size == 0 then ok (record w { vbn = vbn; buf = [] }) else (do
        block ← f.read_block s vbn
        ok (record w { vbn = vbn; buf = take (offset % block_size) block }))

  unfoldable pub new_appender : S → Result Writer
  unfolding new_writer seek file_byte_length
  new_appender s = do w ← new_writer (f.attributes s); seek (file_byte_length (f.attributes s)) w s

  -- `append`, a round for each block that is full.
  unfoldable pub append_rounds : ℕ → Writer → S → Result (Writer × S)
  append_rounds zero w s = if ltb (length w.buf) block_size then ok (w, s) else err out_of_fuel
  append_rounds (suc fuel) w s = if ltb (length w.buf) block_size then ok (w, s) else (do
    s' ← f.write_block w.vbn (take block_size w.buf) s
    append_rounds fuel (record w { vbn = u32 (w.vbn + 1); buf = drop block_size w.buf }) s')

  unfoldable pub append : List ℕ → Writer → S → Result (Writer × S)
  unfolding append_rounds
  append body w s = append_rounds (length (w.buf ++ body)) (record w { buf = w.buf ++ body }) s

  abbrev pub append_pad : List ℕ → Writer × S → Result (Writer × S)
  append_pad text (w, s) = if length text % 2 == 0 then ok (w, s) else append (0 ∷ []) w s

  unfoldable pub put_fixed : List ℕ → Writer → S → Result (Writer × S)
  put_fixed text w s =
      if w.fixed_size == 0
      then err no_fixed_size
      else if length text == w.fixed_size
      then (do
        written ← append text w s
        elim w.format [ fixed ↦ append_pad text written | _ ↦ ok written ])
      else err wrong_fixed_size

  unfoldable pub put_variable : List ℕ → Writer → S → Result (Writer × S)
  put_variable text w s = if ltb 0xFFFF (length text) then err record_too_long else (do
    (w1, s1) ← append (u8 (length text) ∷ u8 (u16 (length text) >>> 8) ∷ []) w s
    written ← append text w1 s1
    append_pad text written)

  unfoldable pub put_stream : StreamDelim → List ℕ → Writer → S → Result (Writer × S)
  unfolding stream_delim_bytes
  put_stream kind text w s = do (w1, s1) ← append text w s; append (stream_delim_bytes kind) w1 s1

  abbrev pub put_format : RecordFormat → List ℕ → Writer → S → Result (Writer × S)
  put_format undefined text w s = put_fixed text w s
  put_format fixed text w s = put_fixed text w s
  put_format variable text w s = put_variable text w s
  put_format vfc text w s = put_variable text w s
  put_format stream_lf text w s = put_stream delim_lf text w s
  put_format stream_cr text w s = put_stream delim_cr text w s
  put_format stream_crlf text w s = put_stream delim_crlf text w s

  unfoldable pub put_record : List ℕ → Writer → S → Result (Writer × S)
  unfolding put_fixed put_variable put_stream
  put_record text w s = put_format w.format text w s

  -- A record that needs `need` bytes of a block, or none in particular.
  abbrev pub start_needing : Option ℕ → Writer → S → Result (Writer × S)
  start_needing none w s = ok (w, s)
  start_needing (some need) w s =
      if is_variable w.format && w.no_span && ltb block_size need
      then err spans_block
      else if not w.no_span || (length w.buf == 0) || leb (length w.buf + need) block_size
      then ok (w, s)
      else (do
        s' ← f.write_block w.vbn (final_block w) s
        ok (record w { vbn = u32 (w.vbn + 1); buf = [] }, s'))

  unfoldable pub start_record : List ℕ → Writer → S → Result (Writer × S)
  unfolding final_block space_needed
  start_record text w s = start_needing (space_needed w.format text) w s

  -- The partly filled block, if there is one, on the disk.
  unfoldable pub write_final_block : Writer → S → Result S
  unfolding final_block
  write_final_block w s = if length w.buf == 0 then ok s else f.write_block w.vbn (final_block w) s

  unfoldable pub flush_buffer : Writer → S → Result S
  unfolding write_final_block position
  flush_buffer w s = do
    s' ← write_final_block w s
    ok (f.set_end_of_file (u32 (u32 (position w / block_size) + 1)) (position w % block_size) s')

  unfoldable pub flush : Writer → S → Result S
  unfolding flush_buffer position file_byte_length
  flush w s =
      if w.closed
      then err writer_closed
      else if w.shared && not (file_byte_length (f.attributes s) == position w)
      then ok s
      else flush_buffer w s

  -- A shared writer starts again from the file as it is.
  unfoldable pub follow_end : Writer → S → Result Writer
  unfolding seek file_byte_length
  follow_end w s = if w.shared then seek (file_byte_length (f.attributes s)) w s else ok w

  unfoldable pub put : List ℕ → Writer → S → Result (Writer × S)
  unfolding start_record put_record position flush_buffer follow_end
  put text w s = if w.closed then err writer_closed else (do
    w0 ← follow_end w s
    (w1, s1) ← start_record text w0 s
    (w2, s2) ← put_record text w1 s1
    let w3 = record w2 { record_offset = position w1 }
    if w3.shared then (do s3 ← flush_buffer w3 s2; ok (w3, s3)) else ok (w3, s2))

  unfoldable pub close : Writer → S → Result (Writer × S)
  unfolding flush write_final_block
  close w s =
      if w.closed
      then ok (w, s)
      else if w.shared
      then (do s' ← flush w s; ok (record w { closed = true }, s'))
      else (do
        s1 ← write_final_block w s
        s2 ← f.close_with_final_byte (length w.buf) s1
        ok (record w { closed = true }, s2))
