-- ===== src/Rms/Length.antt =====
-- rms/reader.go: the length of a file's data, and where its fixed-length records stand.
pub mod Laws
mod Examples
use ods.Base.{ℕ, ◌+◌, ◌-◌, ◌*◌, ◌/◌, ◌%◌, Bool, ◌&&◌, not, bit_and, leb, ◌==◌, if◌then◌else◌}
use ods.Ondisk.Block.{block_size}
use ods.Ondisk.RecAttr.{RecAttr, attr_no_span}

unfoldable pub file_byte_length : RecAttr → ℕ
file_byte_length attr =
    if attr.end_of_file_block == 0
    then 0
    else (attr.end_of_file_block - 1) * block_size + attr.first_free_byte

-- `(size + 1) &^ 1`
unfoldable pub fixed_record_space : ℕ → ℕ
fixed_record_space size = (size + 1) / 2 * 2

-- Records are numbered from 1. For 0 the source gives an offset below 0, and this one does not.
unfoldable pub fixed_record_offset : RecAttr → ℕ → ℕ
unfolding fixed_record_space
fixed_record_offset attr number =
    let space = fixed_record_space attr.max_record_size in
    let index = number - 1 in
    let per_block = block_size / space in
    if not (bit_and attr.attributes attr_no_span == 0) && leb space block_size
    then index / per_block * block_size + index % per_block * space
    else index * space
