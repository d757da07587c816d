-- ===== src/Ondisk/Examples.antt =====
-- The theorems on single fields of the on-disk structures, at concrete values.
use ods.Base.{arith}
use ods.Ondisk.Fid.{Fid, FidInRange}
use ods.Ondisk.RecAttr.{RecAttr, RecAttrInRange}

abbrev far : Fid
far = record { num = 7; seq = 300; rvn = 1; nmx = 2 }

far-FidInRange : FidInRange far
far-FidInRange = record {
  num = omega arith;
  seq = omega arith;
  rvn = omega arith;
  nmx = omega arith;
}

abbrev text_file : RecAttr
text_file = record {
  format = 2;
  attributes = 2;
  record_size = 80;
  highest_block = 70003;
  end_of_file_block = 70001;
  first_free_byte = 17;
  bucket_size = 0;
  vfc_size = 0;
  max_record_size = 0;
  default_extend = 5;
  global_buffer_count = 0;
  version_limit = 32767;
}

text_file-RecAttrInRange : RecAttrInRange text_file
text_file-RecAttrInRange = record {
  format = omega arith;
  attributes = omega arith;
  record_size = omega arith;
  highest_block = omega arith;
  end_of_file_block = omega arith;
  first_free_byte = omega arith;
  bucket_size = omega arith;
  vfc_size = omega arith;
  max_record_size = omega arith;
  default_extend = omega arith;
  global_buffer_count = omega arith;
  version_limit = omega arith;
}
