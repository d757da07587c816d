-- ===== src/Rms/Writer/Examples.antt =====
-- The writer on a file in memory.
use ods.Base.{ℕ, ◌≡◌, refl, List, [], ◌∷◌, ◌++◌, ok, false, true, arith}
use ods.Ondisk.RecAttr.{variable}
use ods.Rms.Frames.{all_framed}
use ods.Rms.Length.{file_byte_length}
use ods.Rms.Writer.Shared.{IsShared, IsSharing, puts_shared, SameKind, puts_shared-IsShared}
use ods.Rms.TestFile.{Memory, Always, memory_file, memory_file-IsBlockFile, new_file}
use ods.Rms.Writer.{Writer, close}
use ods.Rms.Writer.Content.{IsWriting}
use ods.Rms.Writer.Records.{IsAlone}
use ods.Rms.Writer.Files.{IsLeft, close-IsLeft}

-- A writer that has been given four bytes: the record `AB`.
abbrev given : List ℕ
given = 2 ∷ 0 ∷ 0x41 ∷ 0x42 ∷ []

abbrev letters : Writer
letters = record {
  format = variable;
  fixed_size = 0;
  no_span = false;
  buf = given;
  vbn = 1;
  closed = false;
  shared = false;
  record_offset = 0;
}

letters-IsAlone : IsAlone letters
letters-IsAlone = record { still_open = refl; unshared = refl; spans = refl }

letters-IsWriting : IsWriting memory_file Always letters (new_file 2) given
letters-IsWriting = record {
  ready = omega arith;
  starts = omega arith;
  buffered = refl;
  inside = omega arith;
  stored = λ v h. absurd (omega (arith, h));
  reached = omega arith;
  within = omega arith;
}

abbrev third : List ℕ
third = 0x43 ∷ []

close-IsLeft_example :
    (m : Memory) × (close memory_file letters (new_file 2)
      ≡ ok (record letters { closed = true }, m))
    × IsLeft memory_file (new_file 2) m given
close-IsLeft_example =
    close-IsLeft memory_file Always 1000 (memory_file-IsBlockFile 1000) (omega arith) letters
      (new_file 2) given letters-IsAlone letters-IsWriting (omega arith) (omega arith)

-- Two writers that share an empty file, one of them with four bytes buffered from before.
abbrev sharing : Writer
sharing = record letters { shared = true }

abbrev sharing_too : Writer
sharing_too = record sharing { buf = []; vbn = 7 }

sharing-IsSharing : IsSharing sharing
sharing-IsSharing = record { still_open = refl; shared = refl; spans = refl }

sharing_too-IsSharing : IsSharing sharing_too
sharing_too-IsSharing = record { still_open = refl; shared = refl; spans = refl }

empty-IsShared : IsShared memory_file Always (new_file 2) []
unfolding file_byte_length
empty-IsShared = record {
  stored = record {
    ready = omega arith;
    whole_blocks = [];
    reads = record {
      reads = λ v h. absurd (omega (arith, h));
      whole = λ v h. absurd (omega (arith, h));
      enough = omega arith;
      bounded = omega arith;
    };
    begins = refl;
    reached = omega arith;
    within = omega arith;
  };
  long = refl;
}

abbrev turns : List (Writer × List ℕ)
turns = (sharing, third) ∷ (sharing_too, []) ∷ (sharing, third) ∷ []

puts_shared-IsShared_example :
    (m : Memory) × (puts_shared memory_file turns (new_file 2) ≡ ok m)
    × IsShared memory_file Always m ([] ++ all_framed variable (third ∷ [] ∷ third ∷ []))
    × SameKind memory_file (new_file 2) m
puts_shared-IsShared_example =
    puts_shared-IsShared memory_file Always 1000 (memory_file-IsBlockFile 1000) (omega arith)
      variable 0 turns (new_file 2) []
      (
        (sharing-IsSharing, refl, refl, omega arith),
        (
          (sharing_too-IsSharing, refl, refl, omega arith),
          ((sharing-IsSharing, refl, refl, omega arith), omega arith),
        ),
      )
      empty-IsShared (omega arith)
