-- ===== src/Rms/BlockFile.antt =====
-- volume/writefile.go and volume/access.go, as the writer of records sees an open file: the interface
-- of a file that is written by blocks, and what its operations promise.
use ods.Base.{ℕ, ◌+◌, ◌^◌, ◌≤◌, ◌<◌, max, ◌≡◌, List, Result, ok, length, ◌==◌, if◌then◌else◌}
use ods.Base.Word.{u32}
use ods.Ondisk.RecAttr.{RecAttr}

-- What `CloseWithFinalByte` records of the highest block written, and of where its data ends.
unfoldable pub closed_attributes : ℕ → ℕ → RecAttr → RecAttr
closed_attributes max_written final_byte attr =
    if max_written == 0
    then record attr { end_of_file_block = 0; first_free_byte = 0 }
    else if final_byte == 0
    then record attr { end_of_file_block = u32 (max_written + 1); first_free_byte = 0 }
    else record attr { end_of_file_block = max_written; first_free_byte = final_byte }

-- `File.SetEndOfFile`, on the attributes alone.
unfoldable pub end_of_file_at : ℕ → ℕ → RecAttr → RecAttr
end_of_file_at block byte attr = record attr { end_of_file_block = block; first_free_byte = byte }

pub record BlockFile (S : Type 0) : Type 0 where
  pub write_block : ℕ → List ℕ → S → Result S
  pub read_block : S → ℕ → Result (List ℕ)
  pub attributes : S → RecAttr
  pub set_end_of_file : ℕ → ℕ → S → S
  pub close_with_final_byte : ℕ → S → Result S
  -- `maxWrittenVBN`
  pub max_written : S → ℕ

pub record IsWrite {S : Type 0} (f : BlockFile S) (Ready : S → Type 0) (vbn : ℕ) (block : List ℕ)
    (before after : S) : Type 0 where
  pub stays_ready : Ready after
  pub reads_block : f.read_block after vbn ≡ ok block
  pub keeps_blocks :
      (v : ℕ) → v < vbn → v ≤ f.max_written before → f.read_block after v ≡ f.read_block before v
  pub raises_max : f.max_written after ≡ max (f.max_written before) vbn
  pub keeps_attributes : f.attributes after ≡ f.attributes before

pub record IsClose {S : Type 0} (f : BlockFile S) (final_byte : ℕ) (before after : S) : Type 0 where
  pub records_end :
      f.attributes after ≡ closed_attributes (f.max_written before) final_byte (f.attributes before)
  pub keeps_blocks :
      (v : ℕ) → v ≤ f.max_written before → f.read_block after v ≡ f.read_block before v

-- A file that has room for `capacity` blocks, where `Ready` says that it is open for write.
pub record IsBlockFile {S : Type 0} (f : BlockFile S) (Ready : S → Type 0) (capacity : ℕ)
    : Type 0 where
  pub writes :
      (vbn : ℕ) (block : List ℕ) (s : S)
      → Ready s
      → 0 < vbn
      → vbn ≤ capacity
      → length block ≡ 512
      → (s' : S) × (f.write_block vbn block s ≡ ok s') × IsWrite f Ready vbn block s s'
  pub closes :
      (final_byte : ℕ) (s : S)
      → Ready s
      → final_byte < 512
      → (s' : S) × (f.close_with_final_byte final_byte s ≡ ok s') × IsClose f final_byte s s'
  pub sets_end :
      (block byte : ℕ) (s : S)
      → Ready s
      → block < 2 ^ 32
      → byte < 512
      → (f.attributes (f.set_end_of_file block byte s) ≡ end_of_file_at block byte (f.attributes s))
        × ((v : ℕ)
            → v ≤ f.max_written s
            → f.read_block (f.set_end_of_file block byte s) v ≡ f.read_block s v)
        × (f.max_written (f.set_end_of_file block byte s) ≡ f.max_written s)
        × Ready (f.set_end_of_file block byte s)
