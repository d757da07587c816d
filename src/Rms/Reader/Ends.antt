-- ===== src/Rms/Reader/Ends.antt =====
-- rms/reader.go, Next: its loops on any file, damaged ones included.
use ods.Rms.BlockStream.{BlockStream}
use ods.Rms.Reader.{Reader}
