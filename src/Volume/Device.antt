-- ===== src/Volume/Device.antt =====
-- diskimage/container.go, volume/volume.go and volume/file.go: what a mounted device and an open
-- file hold. A container is the function that its ReadBlock is, which gives a block of 512 bytes or
-- fails, and its size. A File's device is an argument of what is done with the file, and the write
-- side (bitmap caches, accessor counts, the count of operations) is not in these records. A Go map is
-- a list of its keys and values.
use ods.Base.{ℕ, List, Option, Result}
use ods.Ondisk.FileHeader.{FileHeader}
use ods.Ondisk.HomeBlock.{HomeBlock}
use ods.Ondisk.Retrieval.{Extent}

pub record Container : Type 0 where
  pub read_block : ℕ → Result (List ℕ)
  pub blocks : ℕ

pub record ExtentLocation : Type 0 where
  pub extent : Extent
  pub rvn : ℕ

pub record File : Type 0 where
  pub header : FileHeader
  pub extents : List ExtentLocation

pub record Device : Type 0 where
  pub container : Container
  pub home : HomeBlock
  pub rvn : ℕ
  pub index_file : Option File
  -- The files that are accessed, by their file numbers.
  pub accessed : List (ℕ × File)
