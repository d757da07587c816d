-- ===== src/Rms/Reader.antt =====
-- rms/reader.go: successive records from a file's blocks. `limit` is what the file's length is at the
-- time of the call, and a message that wraps `ErrCorruptRecord` is `corrupt_record`.
pub mod Variable
pub mod Stream
pub mod Fixed
pub mod Records
pub mod Loops
pub mod Ends
mod Examples
use ods.Base.{
  ℕ, zero, suc, ◌+◌, ◌-◌, ◌*◌, ◌/◌, ◌%◌, Bool, true, false, ◌&&◌, ◌||◌, not, bit_and, List, [], ◌∷◌,
  ◌++◌, Option, none, some, Error, Result, ok, err, end_of_file, unexpected_eof, corrupt_record,
  not_sequential, unsupported_format, out_of_fuel, length, ltb, leb, ◌==◌, if◌then◌else◌,
}
use ods.Base.Word.{u16_at}
use ods.Ondisk.Block.{block_size}
use ods.Ondisk.RecAttr.{
  RecAttr, RecordFormat, undefined, fixed, variable, vfc, stream_crlf, stream_lf, stream_cr,
  record_format, organization, attr_no_span,
}
use ods.Rms.Length.{fixed_record_space}
use ods.Rms.BlockStream.{
  BlockSource, BlockStream, new_block_stream, peek, read_full, read_byte, read_rest, seek, offset,
}

pub record Reader : Type 0 where
  pub stream : BlockStream
  pub format : RecordFormat
  pub fixed_size : ℕ
  pub no_span : Bool
  pub record_offset : ℕ

abbrev pub reader_of : RecAttr → Option RecordFormat → Result Reader
reader_of attr none = err unsupported_format
reader_of attr (some format) = ok (record {
  stream = new_block_stream;
  format = format;
  fixed_size = attr.max_record_size;
  no_span = not (bit_and attr.attributes attr_no_span == 0);
  record_offset = 0;
})

unfoldable pub new_reader : RecAttr → Result Reader
new_reader attr =
    if organization attr.format == 0
    then reader_of attr (record_format attr.format)
    else err not_sequential

abbrev pub end_of_records : ℕ
end_of_records = 0xFFFF

pub data StreamDelim : Type 0 where
  delim_lf delim_cr delim_crlf : StreamDelim

-- The state that a method of the stream leaves, and what it returned.
abbrev pub Read : Type 0
Read = BlockStream × Result (List ℕ)

unfoldable pub skip_unused_space : ℕ → BlockStream → BlockStream
unfolding fixed_record_space
skip_unused_space fixed_size s =
    let space = fixed_record_space fixed_size in
    let used = offset s % block_size in
    if leb space block_size && not (used == 0) && ltb block_size (used + space)
    then seek (offset s - used + block_size)
    else s

-- Seeking back by one byte.
abbrev pub unread_byte : BlockStream → BlockStream
unread_byte s = seek (offset s - 1)

abbrev pub skip_peeked :
    (BlockStream → Result BlockStream) → BlockStream × Option (List ℕ) → Result BlockStream
skip_peeked again (s, none) = ok s
skip_peeked again (s, some word) =
    if u16_at word 0 == end_of_records
    then again (seek ((offset s / block_size + 1) * block_size))
    else ok s

module _ (source : BlockSource) (limit : ℕ) where
  -- `nextFixed`, behind the pad byte of an odd record and behind the record.
  abbrev pub fixed_pad : List ℕ → Read → Read
  fixed_pad body (s, ok pad) = (s, ok body)
  fixed_pad body (s, err end_of_file) = (s, ok body)
  fixed_pad body (s, err unexpected_eof) = (s, ok body)
  fixed_pad body (s, err e) = (s, err corrupt_record)

  abbrev pub fixed_data : Bool → Read → Read
  fixed_data padded (s, err unexpected_eof) = ((read_rest s).0, ok (read_rest s).1)
  fixed_data padded (s, err end_of_file) = (s, err end_of_file)
  fixed_data padded (s, err e) = (s, err corrupt_record)
  fixed_data padded (s, ok body) =
      if padded then fixed_pad body (read_full source limit 1 s) else (s, ok body)

  unfoldable pub next_fixed : Bool → ℕ → BlockStream → Read
  next_fixed aligned fixed_size s =
      if fixed_size == 0
      then (s, err end_of_file)
      else fixed_data (aligned && not (fixed_size % 2 == 0)) (read_full source limit fixed_size s)

  -- `skipEndOfRecords`: a round for each block is enough.
  unfoldable pub skip_rounds : ℕ → BlockStream → Result BlockStream
  skip_rounds zero s = err out_of_fuel
  skip_rounds (suc fuel) s = skip_peeked (skip_rounds fuel) (peek source limit 2 s)

  unfoldable pub skip_end_of_records : BlockStream → Result BlockStream
  unfolding skip_rounds
  skip_end_of_records s = skip_rounds (limit / block_size + 2) s

  -- `nextVariable`, behind the pad byte, the record's bytes and the length word.
  abbrev pub variable_pad : List ℕ → Read → Read
  variable_pad body (s, err e) = (s, err corrupt_record)
  variable_pad body (s, ok pad) = (s, ok body)

  abbrev pub variable_data : Read → Read
  variable_data (s, err e) = (s, err corrupt_record)
  variable_data (s, ok body) =
      if length body % 2 == 0 then (s, ok body) else variable_pad body (read_full source limit 1 s)

  abbrev pub variable_length : Read → Read
  variable_length (s, err end_of_file) = (s, err end_of_file)
  variable_length (s, err e) = (s, err corrupt_record)
  variable_length (s, ok word) = variable_data (read_full source limit (u16_at word 0) s)

  unfoldable pub next_variable : BlockStream → Read
  next_variable s = variable_length (read_full source limit 2 s)

  -- `nextStream`: a round of the loop for each byte, `more` being the rounds behind it with the
  -- record so far.
  abbrev pub crlf_follows : (List ℕ → BlockStream → Read) → List ℕ → BlockStream × Result ℕ → Read
  crlf_follows more text (s, err e) = more (text ++ 0x0D ∷ []) s
  crlf_follows more text (s, ok b) =
      if b == 0x0A then (s, ok text) else more (text ++ 0x0D ∷ []) (unread_byte s)

  abbrev pub stream_byte :
      StreamDelim → (List ℕ → BlockStream → Read) → List ℕ → BlockStream × Result ℕ → Read
  stream_byte kind more text (s, err end_of_file) =
      if length text == 0 then (s, err end_of_file) else (s, ok text)
  stream_byte kind more text (s, err e) = (s, err corrupt_record)
  stream_byte delim_lf more text (s, ok b) =
      if b == 0x0A then (s, ok text) else more (text ++ b ∷ []) s
  stream_byte delim_cr more text (s, ok b) =
      if b == 0x0D then (s, ok text) else more (text ++ b ∷ []) s
  stream_byte delim_crlf more text (s, ok b) =
      if b == 0 && length text == 0
      then more text s
      else if b == 0x0D
      then crlf_follows more text (read_byte source limit s)
      else if b == 0x0A || b == 0x0B || b == 0x0C
      then (s, ok (text ++ b ∷ []))
      else more (text ++ b ∷ []) s

  unfoldable pub stream_rounds : StreamDelim → ℕ → List ℕ → BlockStream → Read
  stream_rounds kind zero text s = (s, err out_of_fuel)
  stream_rounds kind (suc fuel) text s =
      stream_byte kind (stream_rounds kind fuel) text (read_byte source limit s)

  -- Each round but the last moves on by a byte of the file.
  unfoldable pub next_stream : StreamDelim → BlockStream → Read
  unfolding stream_rounds
  next_stream kind s = stream_rounds kind (limit + 1) [] s

  -- `next` and `Next`, for a format.
  abbrev pub next_format : RecordFormat → ℕ → BlockStream → Read
  next_format undefined fixed_size s = next_fixed false fixed_size s
  next_format fixed fixed_size s = next_fixed true fixed_size s
  next_format variable fixed_size s = next_variable s
  next_format vfc fixed_size s = next_variable s
  next_format stream_lf fixed_size s = next_stream delim_lf s
  next_format stream_cr fixed_size s = next_stream delim_cr s
  next_format stream_crlf fixed_size s = next_stream delim_crlf s

  abbrev pub start_format : RecordFormat → Bool → ℕ → BlockStream → Result BlockStream
  start_format variable no_span fixed_size s = skip_end_of_records s
  start_format vfc no_span fixed_size s = skip_end_of_records s
  start_format fixed no_span fixed_size s =
      ok (if no_span then skip_unused_space fixed_size s else s)
  start_format undefined no_span fixed_size s = ok s
  start_format stream_lf no_span fixed_size s = ok s
  start_format stream_cr no_span fixed_size s = ok s
  start_format stream_crlf no_span fixed_size s = ok s

  abbrev pub after_next : Reader → ℕ → Read → Reader × Result (List ℕ)
  after_next r start (s, ok body) = (record r { stream = s; record_offset = start }, ok body)
  after_next r start (s, err e) = (record r { stream = s }, err e)

  -- Going to a record's place does not fail in the source; the error is that of running out of
  -- rounds.
  abbrev pub after_start : Reader → Result BlockStream → Reader × Result (List ℕ)
  after_start r (ok start) = after_next r (offset start) (next_format r.format r.fixed_size start)
  after_start r (err e) = (r, err e)

  unfoldable pub next : Reader → Reader × Result (List ℕ)
  unfolding next_fixed next_variable next_stream skip_unused_space skip_end_of_records
  next r = after_start r (start_format r.format r.no_span r.fixed_size r.stream)
