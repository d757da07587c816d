-- ===== src/Volume/TestVolume.antt =====
-- The blocks of a small volume, as test data: a home block at LBN 1, the index bitmap at LBN 2, and
-- from LBN 3 on the headers of INDEXF.SYS, of a file whose header names itself as its extension, and
-- of a file of two blocks. The header slots behind them are empty. LBN 12 is the block of a directory,
-- whose header stands in no slot.
use ods.Base.{ℕ, List, [], ◌∷◌, ◌++◌, Result, ok, replicate, get_or, none, some}
use ods.Ondisk.FileHeader.{header_fields}
use ods.Ondisk.HomeBlock.{home_fields}
use ods.Volume.Device.{Container, Device, File}

abbrev run : ℕ → ℕ → List ℕ → List ℕ
run n b rest = replicate n b ++ rest

abbrev pub home_block : List ℕ
home_block =
    1
    ∷ run 11 0 (
        1
        ∷ 2
        ∷ 1
        ∷ run 7 0 (
            2
            ∷ 0
            ∷ 2
            ∷ 0
            ∷ 0
            ∷ 0
            ∷ 6
            ∷ 0
            ∷ 0
            ∷ 0
            ∷ 1
            ∷ 0
            ∷ 2
            ∷ 0
            ∷ 0
            ∷ 0
            ∷ 1
            ∷ run 421 0 (
                run 36 32 (
                  68 ∷ 69 ∷ 67 ∷ 70 ∷ 73 ∷ 76 ∷ 69 ∷ 49 ∷ 49 ∷ 66 ∷ 32 ∷ 32 ∷ 0 ∷ 0 ∷ 183 ∷ 175
                  ∷ []))))

abbrev pub index_header : List ℕ
index_header =
    40
    ∷ 100
    ∷ 255
    ∷ 255
    ∷ 0
    ∷ 0
    ∷ 1
    ∷ 2
    ∷ 1
    ∷ 0
    ∷ 1
    ∷ run 47 0 (2 ∷ run 141 0 (9 ∷ 64 ∷ 1 ∷ run 307 0 (54 ∷ 166 ∷ [])))

abbrev pub looping_header : List ℕ
looping_header =
    40
    ∷ 100
    ∷ 255
    ∷ 255
    ∷ 0
    ∷ 0
    ∷ 1
    ∷ 2
    ∷ 2
    ∷ 0
    ∷ 1
    ∷ 0
    ∷ 0
    ∷ 0
    ∷ 2
    ∷ 0
    ∷ 1
    ∷ run 41 0 (2 ∷ run 142 0 (64 ∷ 20 ∷ run 307 0 (68 ∷ 166 ∷ [])))

abbrev pub plain_header : List ℕ
plain_header =
    40
    ∷ 100
    ∷ 255
    ∷ 255
    ∷ 0
    ∷ 0
    ∷ 1
    ∷ 2
    ∷ 3
    ∷ 0
    ∷ 5
    ∷ run 47 0 (2 ∷ run 141 0 (1 ∷ 64 ∷ 30 ∷ run 307 0 (81 ∷ 166 ∷ [])))

abbrev pub directory_header : List ℕ
directory_header =
    40
    ∷ 100
    ∷ 255
    ∷ 255
    ∷ 0
    ∷ 0
    ∷ 1
    ∷ 2
    ∷ 4
    ∷ 0
    ∷ 1
    ∷ run 15 0 (
        1
        ∷ 0
        ∷ 0
        ∷ 0
        ∷ 2
        ∷ run 22 0 (
            32
            ∷ 0
            ∷ 0
            ∷ 0
            ∷ 0
            ∷ 2
            ∷ run 17 0 (2 ∷ run 124 0 (64 ∷ 12 ∷ run 307 0 (64 ∷ 198 ∷ [])))))

abbrev pub directory_block : List ℕ
directory_block =
    22
    ∷ 0
    ∷ 3
    ∷ 0
    ∷ 0
    ∷ 2
    ∷ 65
    ∷ 46
    ∷ 2
    ∷ 0
    ∷ 3
    ∷ 0
    ∷ 5
    ∷ 0
    ∷ 0
    ∷ 0
    ∷ 1
    ∷ 0
    ∷ 2
    ∷ 0
    ∷ 1
    ∷ 0
    ∷ 0
    ∷ 0
    ∷ 255
    ∷ 255
    ∷ run 486 0 []

abbrev pub index_bitmap : List ℕ
index_bitmap = 7 ∷ run 511 0 []

abbrev read_small : ℕ → Result (List ℕ)
read_small lbn = ok (
    get_or
      (run 512 0 []
        ∷ home_block
        ∷ index_bitmap
        ∷ index_header
        ∷ looping_header
        ∷ plain_header
        ∷ run 512 0 []
        ∷ run 512 0 []
        ∷ run 512 0 []
        ∷ run 512 0 []
        ∷ run 512 0 []
        ∷ run 512 0 []
        ∷ directory_block
        ∷ [])
      lbn (run 512 0 []))

abbrev pub small : Container
small = record { read_block = read_small; blocks = 40 }

-- The device as Mount leaves it.
abbrev pub index_file : File
index_file = record {
  header = header_fields index_header;
  extents = record { extent = record { count = 10; start_lbn = 1 }; rvn = 1 } ∷ [];
}

abbrev pub bare : Device
bare = record {
  container = small;
  home = home_fields home_block;
  rvn = 1;
  index_file = none;
  accessed = [];
}

abbrev pub mounted : Device
mounted = record bare { index_file = some index_file }
