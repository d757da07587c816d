-- ===== src/Rms/Sequential.antt =====
-- rms/writer.go beside rms/reader.go: sequential files, and what is written to them.
use ods.Base.{ℕ, ◌≡◌, refl, List, [], ◌∷◌, some, Result, ok, ◌>>=◌, ◌==◌, bit_and, not, false}
use ods.Ondisk.RecAttr.{RecAttr, RecordFormat, record_format, organization, attr_no_span}
use ods.Rms.BlockFile.{BlockFile}
use ods.Rms.BlockStream.{new_block_stream}
use ods.Rms.Reader.{Reader, new_reader}
use ods.Rms.Writer.{Writer, new_writer, new_appender, put, close}

-- The attributes of a sequential file of format `k`, whose records may cross blocks.
pub record IsSequential (k : RecordFormat) (attr : RecAttr) : Type 0 where
  pub sequential : organization attr.format ≡ 0
  pub formatted : record_format attr.format ≡ some k
  pub spanning : bit_and attr.attributes attr_no_span ≡ 0

unfoldable pub writer_for : RecordFormat → RecAttr → Writer
writer_for k attr = record {
  format = k;
  fixed_size = attr.max_record_size;
  no_span = not (bit_and attr.attributes attr_no_span == 0);
  buf = [];
  vbn = 1;
  closed = false;
  shared = false;
  record_offset = 0;
}

unfoldable pub reader_for : RecordFormat → RecAttr → Reader
reader_for k attr = record {
  stream = new_block_stream;
  format = k;
  fixed_size = attr.max_record_size;
  no_span = not (bit_and attr.attributes attr_no_span == 0);
  record_offset = 0;
}

pub new_writer-sequential :
    (k : RecordFormat) (attr : RecAttr)
    → IsSequential k attr
    → new_writer attr ≡ ok (writer_for k attr)
unfolding new_writer writer_for
new_writer-sequential k attr a = rw (a.sequential, a.formatted) refl

pub new_reader-sequential :
    (k : RecordFormat) (attr : RecAttr)
    → IsSequential k attr
    → new_reader attr ≡ ok (reader_for k attr)
unfolding new_reader reader_for
new_reader-sequential k attr a = rw (a.sequential, a.formatted) refl

module _ {S : Type 0} (f : BlockFile S) where
  unfoldable pub puts : List (List ℕ) → Writer → S → Result (Writer × S)
  puts [] w s = ok (w, s)
  puts (text ∷ more) w s = put f text w s >>= λ (w1, s1). puts more w1 s1

  -- A new writer's file, with a record put for each of `texts`, closed.
  unfoldable pub write_file : List (List ℕ) → S → Result S
  unfolding puts
  write_file texts s = do
    w ← new_writer (f.attributes s)
    (w1, s1) ← puts texts w s
    (w2, s2) ← close f w1 s1
    ok s2

  -- The same with the records put behind those that the file has.
  unfoldable pub append_file : List (List ℕ) → S → Result S
  unfolding puts
  append_file texts s = do
    w ← new_appender f s
    (w1, s1) ← puts texts w s
    (w2, s2) ← close f w1 s1
    ok s2
