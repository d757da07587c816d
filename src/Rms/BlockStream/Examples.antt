-- ===== src/Rms/BlockStream/Examples.antt =====
-- The stream over five bytes in memory.
use ods.Base.{ℕ, ◌+◌, ◌≡◌, List, [], ◌∷◌, ◌++◌, replicate, ok, slice, arith}
use ods.Rms.BlockStream.{BlockStream, bytes_source, read_full, seek}
use ods.Rms.BlockStream.Bytes.{IsFile, IsAt, seek-IsAt, read_full-bytes}
use ods.Rms.BlockStream.Memory.{bytes_source-IsFile}

abbrev five : List ℕ
five = 1 ∷ 2 ∷ 3 ∷ 4 ∷ 5 ∷ []

abbrev five_blocks : List ℕ
five_blocks = five ++ replicate 512 0

five-IsFile : IsFile (bytes_source five) 5 five_blocks
five-IsFile = bytes_source-IsFile five (omega arith)

read_full-bytes_example :
    (s' : BlockStream) × (read_full (bytes_source five) 5 2 (seek 1)
      ≡ (s', ok (slice five_blocks 1 2)))
    × IsAt 5 five_blocks s' (1 + 2)
read_full-bytes_example =
    read_full-bytes (bytes_source five) 5 five_blocks five-IsFile 2 1 (seek 1)
      (seek-IsAt 5 five_blocks 1) (omega arith)
