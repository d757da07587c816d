-- ===== src/Base/Errors.antt =====
-- Go's pair of a value and an error. Each message of the source is one constructor of `Error`.
use mathlib.Core.Path.{◌≡◌, refl}
use mathlib.Core.Logic.{◌⊎◌, inl, inr}

pub data Error : Type 0 where
  -- package ondisk
  bad_length map_area_bounds entry_past_header zero_count count_too_large checksum_mismatch : Error
  bad_acl_area odd_area areas_too_large not_home_block value_too_long : Error
  bad_ident_area protection_empty bad_category category_twice bad_access : Error
  name_past_block record_inconsistent ragged_entries name_too_long block_overflow : Error
  -- package volume
  zero_clusters no_free_run zero_extent misaligned_start misaligned_count beyond_volume : Error
  zero_file_number beyond_slots slot_inconsistent no_free_slot zero_vbn beyond_file : Error
  no_home_block no_container wrong_rvn wrong_index_header no_device : Error
  entries_too_large has_extension no_space zero_blocks zero_cluster_size file_locked : Error
  stale_fid read_failed not_found already_exists version_required not_writable : Error
  -- package rms
  end_of_file unexpected_eof corrupt_record not_sequential unsupported_format : Error
  no_fixed_size wrong_fixed_size record_too_long spans_block writer_closed : Error
  -- package filespec
  unexpected_colon unterminated_bracket above_mfd bad_directory bad_version : Error
  -- the model only: a loop has used up its fuel
  out_of_fuel : Error

pub data Result {κ} (T : Type κ) : Type κ where
  err : Error → Result T
  ok : T → Result T

-- The early return of `if err != nil { return err }`.
infixl 5 ◌>>=◌
abbrev pub ◌>>=◌ {κ ℓ} : {S : Type κ} {T : Type ℓ} → Result S → (S → Result T) → Result T
err failure >>= next = err failure
ok value >>= next = next value

pub >>=-eq-ok {κ ℓ} :
    {S : Type κ} {T : Type ℓ} (first : Result S) (next : S → Result T) {out : T}
    → (first >>= next) ≡ ok out
    → (value : S) × (first ≡ ok value) × (next value ≡ ok out)
>>=-eq-ok (err failure) next run = cc
>>=-eq-ok (ok value) next run = (value, refl, run)

pub Result-cases {κ} :
    {T : Type κ} (outcome : Result T)
    → ((value : T) × (outcome ≡ ok value)) ⊎ ((failure : Error) × (outcome ≡ err failure))
Result-cases (err failure) = inr (failure, refl)
Result-cases (ok value) = inl (value, refl)
