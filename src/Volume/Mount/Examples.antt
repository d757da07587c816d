-- ===== src/Volume/Mount/Examples.antt =====
-- The theorems on mounting at a small volume of one device.
use ods.Base.{◌≡◌, refl, [], ◌∷◌, ok}
use ods.Ondisk.Block.{checksum, sum_words}
use ods.Ondisk.DirEntry.{name_eq}
use ods.Ondisk.Fid.{Fid, number, is_zero}
use ods.Ondisk.FileHeader.{header_fields, decode_file_header, compare_checksums, valid_file_header}
use ods.Ondisk.Block.{decode_swapped_longword}
use ods.Ondisk.HomeBlock.{decode_home_block, home_fields}
use ods.Ondisk.Padded.{decode_padded_string, is_empty}
use ods.Ondisk.Retrieval.{retrieval_pointers, read_entries, read_entry, read_word, read_format1}
use ods.Volume.Device.{Device, File}
use ods.Volume.File.{build_file, build_segments}
use ods.Volume.Mount.{
  try_home, first_ok, scan_home, find_home_block, bootstrap_index_file, mount_device, mount_from,
  mount, find_device, device_by_rvn, open_fid, accessed_file, accessed_under,
}
use ods.Volume.Mount.HomeSearch.{IsHome}
use ods.Volume.Mount.Devices.{AllMounted, mount-AllMounted}
use ods.Volume.TestVolume.{small, mounted, home_block, index_header, plain_header}

home_decodes : decode_home_block home_block ≡ ok (home_fields home_block)
unfolding decode_home_block home_fields name_eq decode_padded_string is_empty checksum sum_words
home_decodes = refl

home_itself : (home_fields home_block).home_lbn ≡ 1
unfolding home_fields
home_itself = refl

small-IsHome : IsHome small 1 (home_fields home_block)
small-IsHome = record {
  block = home_block;
  read = refl;
  decoded = home_decodes;
  itself = home_itself;
}

index_valid : valid_file_header index_header ≡ ok (header_fields index_header)
unfolding valid_file_header decode_file_header compare_checksums checksum sum_words header_fields
index_valid = refl

scan_small : find_home_block small ≡ ok (home_fields home_block)
unfolding find_home_block scan_home try_home first_ok home_fields
scan_small = rw home_decodes refl

small_mounts : mount 3 (small ∷ []) ≡ ok (mounted ∷ [])
unfolding mount mount_from mount_device bootstrap_index_file find_home_block scan_home try_home
    first_ok home_fields decode_home_block name_eq decode_padded_string is_empty checksum sum_words
    valid_file_header decode_file_header compare_checksums header_fields decode_swapped_longword
    number is_zero build_file build_segments retrieval_pointers read_entries read_entry read_word
    read_format1
small_mounts = refl

mount-AllMounted_example : AllMounted 0 (small ∷ []) (mounted ∷ [])
mount-AllMounted_example = mount-AllMounted 3 (small ∷ []) (mounted ∷ []) small_mounts

-- File (3,5,0) of the small volume.
abbrev plain_fid : Fid
plain_fid = record { num = 3; seq = 5; rvn = 0; nmx = 0 }

abbrev plain_file : File
plain_file = record {
  header = header_fields plain_header;
  extents = record { extent = record { count = 2; start_lbn = 30 }; rvn = 1 } ∷ [];
}

-- The same file as an accessor has it, with a block more than the disk says.
abbrev grown_file : File
grown_file = record {
  header = header_fields plain_header;
  extents = record { extent = record { count = 3; start_lbn = 30 }; rvn = 1 } ∷ [];
}

opens_accessed :
    open_fid 1 (record mounted { accessed = (3, grown_file) ∷ [] } ∷ []) plain_fid ≡ ok grown_file
unfolding open_fid accessed_file accessed_under device_by_rvn find_device header_fields
    decode_swapped_longword number
opens_accessed = refl
