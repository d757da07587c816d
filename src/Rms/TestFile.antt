-- ===== src/Rms/TestFile.antt =====
-- A file of blocks in memory, for the examples of records.
use ods.Base.{
  ℕ, ◌≤◌, ◌<◌, max, ◌≡◌, refl, List, Result, ok, err, zero_vbn, true, false, arith, ◌==◌,
  if◌then◌else◌, if_not, if_so,
}
use ods.Ondisk.RecAttr.{RecAttr}
use ods.Rms.BlockFile.{BlockFile, IsBlockFile, closed_attributes, end_of_file_at}

pub record Memory : Type 0 where
  pub stored : ℕ → Result (List ℕ)
  pub attr : RecAttr
  pub top : ℕ

-- A file in memory is always open for write.
abbrev pub Always : Memory → Type 0
Always m = 0 ≤ m.top

abbrev pub memory_file : BlockFile Memory
memory_file = record {
  write_block = λ vbn block m.
      ok
        (record m { stored = λ v. if v == vbn then ok block else m.stored v; top = max m.top vbn });
  read_block = λ m. m.stored;
  attributes = λ m. m.attr;
  set_end_of_file = λ block byte m. record m { attr = end_of_file_at block byte m.attr };
  close_with_final_byte =
      λ final_byte m. ok (record m { attr = closed_attributes m.top final_byte m.attr });
  max_written = λ m. m.top;
}

same_block : (v : ℕ) → (v == v) ≡ true
same_block v = ground arith

other_block : (v vbn : ℕ) → v < vbn → (v == vbn) ≡ false
other_block v vbn h = ground arith

pub memory_file-IsBlockFile : (capacity : ℕ) → IsBlockFile memory_file Always capacity
memory_file-IsBlockFile capacity = record {
  writes = λ vbn block m ready positive inside size. (
    record m { stored = λ v. if v == vbn then ok block else m.stored v; top = max m.top vbn },
    refl,
    record {
      stays_ready = omega arith;
      reads_block = if_so (ok block) (m.stored vbn) (same_block vbn);
      keeps_blocks = λ v before written. if_not (ok block) (m.stored v) (other_block v vbn before);
      raises_max = refl;
      keeps_attributes = refl;
    },
  );
  closes = λ final_byte m ready small. (
    record m { attr = closed_attributes m.top final_byte m.attr },
    refl,
    record { records_end = refl; keeps_blocks = λ v written. refl },
  );
  sets_end = λ block byte m ready long short. (refl, (λ v written. refl), refl, omega arith);
}

abbrev pub attributes_of : ℕ → RecAttr
attributes_of format = record {
  format = format;
  attributes = 0;
  record_size = 0;
  highest_block = 0;
  end_of_file_block = 0;
  first_free_byte = 0;
  bucket_size = 0;
  vfc_size = 0;
  max_record_size = 80;
  default_extend = 0;
  global_buffer_count = 0;
  version_limit = 0;
}

abbrev pub new_file : ℕ → Memory
new_file format = record { stored = λ v. err zero_vbn; attr = attributes_of format; top = 0 }
