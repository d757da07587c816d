-- ===== src/Volume/WriteFile/Records.antt =====
-- volume/writefile.go under rms/writer.go and rms/reader.go: records in a file of a volume.
use ods.Base.{ℕ, ◌+◌, ◌*◌, ◌^◌, ◌≤◌, ◌<◌, ◌≡◌, List, length, All, Result, ok}
use ods.Ondisk.RecAttr.{RecordFormat}
use ods.Volume.Device.{Container}
use ods.Volume.File.{read_block}
use ods.Volume.WriteFile.{OpenFile, volume_file}
use ods.Volume.WriteFile.Blocks.{IsContainerWrite, IsReady, volume_file-IsBlockFile}
use ods.Rms.Frames.{all_framed}
use ods.Rms.Length.{file_byte_length}
use ods.Rms.Reader.{Reader, new_reader}
use ods.Rms.Reader.Records.{ReadsBack, Readable, IsSized}
use ods.Rms.RoundTrip.{IsSequential, write_file, ReadsBack-write_file}

-- Where the container's WriteBlock does what it promises: records of any of the seven formats, which may cross blocks and which their format can tell apart, written
-- to an allocated file of a volume with nothing written to it yet, whose header can be rewritten,
-- and closed, are read back
-- through the file's header and extents, in their order, and then the end of the file.
pub ReadsBack-volume_file :
    (write_container : Container → ℕ → List ℕ → Result Container)
    (extend : ℕ → OpenFile → Result OpenFile) (capacity : ℕ)
    → IsContainerWrite write_container
    → capacity + 1 < 2 ^ 32
    → (k : RecordFormat) (texts : List (List ℕ)) (s : OpenFile) → IsReady capacity s
    → s.max_written ≡ 0
    → IsSequential k s.file.header.record_attributes
    → IsSized k s.file.header.record_attributes.max_record_size
    → All (Readable k s.file.header.record_attributes.max_record_size) texts
    → length (all_framed k texts) ≤ capacity * 512
    → (s' : OpenFile) × (r : Reader) × (write_file (volume_file write_container extend) texts s
        ≡ ok s')
      × (new_reader s'.file.header.record_attributes ≡ ok r)
      × ReadsBack
          (read_block s'.device s'.file)
          (file_byte_length s'.file.header.record_attributes)
          r
          texts
unfolding volume_file
ReadsBack-volume_file write_container extend capacity container small k texts s ready fresh seq
      sized p room =
    ReadsBack-write_file (volume_file write_container extend) (IsReady capacity) capacity
      (volume_file-IsBlockFile write_container extend capacity container small) small k texts s seq
      sized ready fresh p room
