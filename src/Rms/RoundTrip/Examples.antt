-- ===== src/Rms/RoundTrip/Examples.antt =====
-- Records written to a file in memory and read again.
use ods.Base.{
  ℕ, zero, suc, ◌+◌, ◌*◌, ◌<◌, ◌≡◌, refl, List, [], ◌∷◌, ◌++◌, replicate, ok, err, zero_vbn, slice,
  arith, ◌==◌, if◌then◌else◌,
}
use ods.Ondisk.RecAttr.{variable, organization, record_format}
use ods.Rms.TestFile.{Memory, Always, memory_file, memory_file-IsBlockFile, attributes_of, new_file}
use ods.Rms.Length.{file_byte_length}
use ods.Rms.Reader.{Reader, new_reader}
use ods.Rms.Reader.Records.{ReadsBack}
use ods.Rms.Frames.{all_framed}
use ods.Rms.Writer.Shared.{IsShared}
use ods.Rms.RoundTrip.{
  append_file, ReadsBack-append_file, write_file, IsSequential, ReadsBack-write_file,
}

abbrev two_records : List (List ℕ)
two_records = (0x41 ∷ 0x42 ∷ 0x43 ∷ []) ∷ (0x44 ∷ 0x45 ∷ []) ∷ []

new_file-IsSequential : IsSequential variable (attributes_of 2)
unfolding organization record_format
new_file-IsSequential = record { sequential = refl; formatted = refl; spanning = refl }

ReadsBack-write_file_example :
    (m : Memory) × (r : Reader) × (write_file memory_file two_records (new_file 2) ≡ ok m)
    × (new_reader (memory_file.attributes m) ≡ ok r)
    × ReadsBack
        (memory_file.read_block m)
        (file_byte_length (memory_file.attributes m))
        r
        two_records
ReadsBack-write_file_example =
    ReadsBack-write_file memory_file Always 1000 (memory_file-IsBlockFile 1000) (omega arith)
      variable two_records (new_file 2) new_file-IsSequential (omega arith) (omega arith) refl
      (omega arith, (omega arith, tt)) (omega arith)

-- A file that has a record: the block begins with its four bytes.
abbrev one_record : List (List ℕ)
one_record = (0x41 ∷ 0x42 ∷ []) ∷ []

abbrev first_block : List ℕ
first_block = all_framed variable one_record ++ replicate 508 0

abbrev started_file : Memory
started_file = record (new_file 2) {
  stored = λ v. if v == 1 then ok first_block else err zero_vbn;
  attr = record (attributes_of 2) { end_of_file_block = 1; first_free_byte = 4 };
  top = 1;
}

first_read :
    (v : ℕ) → v * 512 < 4 → started_file.stored (v + 1) ≡ ok (slice first_block (v * 512) 512)
first_read zero h = refl
first_read (suc v) h = absurd (omega (arith, h))

started_file-IsShared : IsShared memory_file Always started_file (all_framed variable one_record)
unfolding file_byte_length
started_file-IsShared = record {
  stored = record {
    ready = omega arith;
    whole_blocks = first_block;
    reads = record {
      reads = first_read;
      whole = λ v h. omega (arith, h);
      enough = omega arith;
      bounded = omega arith;
    };
    begins = refl;
    reached = omega arith;
    within = omega arith;
  };
  long = refl;
}

started_file-IsSequential : IsSequential variable started_file.attr
unfolding organization record_format
started_file-IsSequential = record { sequential = refl; formatted = refl; spanning = refl }

ReadsBack-append_file_example :
    (m : Memory) × (r : Reader) × (append_file memory_file two_records started_file ≡ ok m)
    × (new_reader (memory_file.attributes m) ≡ ok r)
    × ReadsBack
        (memory_file.read_block m)
        (file_byte_length (memory_file.attributes m))
        r
        (one_record ++ two_records)
ReadsBack-append_file_example =
    ReadsBack-append_file memory_file Always 1000 (memory_file-IsBlockFile 1000) (omega arith)
      variable one_record two_records started_file started_file-IsSequential (omega arith)
      started_file-IsShared (omega arith, tt) (omega arith, (omega arith, tt)) (omega arith)
