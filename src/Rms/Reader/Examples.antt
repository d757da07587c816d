-- ===== src/Rms/Reader/Examples.antt =====
-- The reader on files in memory.
use ods.Base.{ℕ, List, [], ◌∷◌, ◌++◌, replicate, false, arith}
use ods.Ondisk.RecAttr.{stream_lf, stream_crlf}
use ods.Rms.BlockStream.{bytes_source, seek}
use ods.Rms.BlockStream.Bytes.{IsFile}
use ods.Rms.BlockStream.Memory.{bytes_source-IsFile}
use ods.Rms.Reader.{Reader}

-- Three lines: a word, an empty one, and a letter.
abbrev lines : List ℕ
lines = 0x41 ∷ 0x42 ∷ 0x0A ∷ 0x0A ∷ 0x43 ∷ 0x0A ∷ []

abbrev line_records : List (List ℕ)
line_records = (0x41 ∷ 0x42 ∷ []) ∷ [] ∷ (0x43 ∷ []) ∷ []

abbrev line_blocks : List ℕ
line_blocks = lines ++ replicate 512 0

lines-IsFile : IsFile (bytes_source lines) 6 line_blocks
lines-IsFile = bytes_source-IsFile lines (omega arith)

abbrev line_reader : Reader
line_reader = record {
  stream = seek 0;
  format = stream_lf;
  fixed_size = 0;
  no_span = false;
  record_offset = 0;
}

-- A carriage return at the end, which no line feed follows.
abbrev torn : List ℕ
torn = 0 ∷ 0x41 ∷ 0x0D ∷ []

abbrev torn_reader : Reader
torn_reader = record line_reader { format = stream_crlf }
