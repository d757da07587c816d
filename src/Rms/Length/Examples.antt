-- ===== src/Rms/Length/Examples.antt =====
-- The theorems on lengths and offsets at concrete record attributes.
use ods.Base.{[]}
use ods.Ondisk.RecAttr.{RecAttr, rec_attr_at}

-- Records of 80 bytes that do not cross blocks.
abbrev cards : RecAttr
cards = record (rec_attr_at [] 0) {
  format = 1;
  attributes = 8;
  max_record_size = 80;
  end_of_file_block = 3;
  first_free_byte = 76;
}
