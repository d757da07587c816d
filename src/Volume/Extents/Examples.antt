-- ===== src/Volume/Extents/Examples.antt =====
-- Resolving a block of a file of two extents.
use ods.Base.{◌≡◌, refl, List, [], ◌∷◌, ok, arith, All}
use ods.Volume.Device.{ExtentLocation}
use ods.Volume.Extents.{resolve_extent_lbn}
use ods.Volume.Extents.Mapping.{
  FitsVolume, file_blocks, run_blocks, lookup_block, resolve_extent_lbn-file_blocks,
}

abbrev two_runs : List ExtentLocation
two_runs =
    record { extent = record { count = 3; start_lbn = 100 }; rvn = 1 }
    ∷ record { extent = record { count = 2; start_lbn = 40 }; rvn = 1 }
    ∷ []

two_runs-FitsVolume : All FitsVolume two_runs
two_runs-FitsVolume = omega arith

fifth_block : lookup_block (file_blocks two_runs) 5 ≡ ok 41
unfolding lookup_block file_blocks run_blocks
fifth_block = refl

resolve_extent_lbn-file_blocks_example :
    resolve_extent_lbn two_runs 5 ≡ lookup_block (file_blocks two_runs) 5
resolve_extent_lbn-file_blocks_example =
    resolve_extent_lbn-file_blocks two_runs 5 two_runs-FitsVolume
