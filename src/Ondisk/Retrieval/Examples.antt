-- ===== src/Ondisk/Retrieval/Examples.antt =====
-- The theorems on retrieval pointers at a concrete map area of two extents.
use ods.Base.{ℕ, ◌≡◌, refl, List, [], ◌∷◌, ok, arith, All}
use ods.Ondisk.FileHeader.{FileHeader, header_fields}
use ods.Ondisk.Retrieval.{Extent, retrieval_pointers, encode_retrieval_pointers, encode_extent}
use ods.Ondisk.Retrieval.Entry.{ExtentInRange}
use ods.Ondisk.Retrieval.RoundTrip.{retrieval_pointers-encode_retrieval_pointers}

abbrev two_extents : List Extent
two_extents =
    record { count = 10; start_lbn = 1000 } ∷ record { count = 300; start_lbn = 70000 } ∷ []

abbrev two_encoded : List ℕ
two_encoded = 9 ∷ 64 ∷ 232 ∷ 3 ∷ 43 ∷ 129 ∷ 112 ∷ 17 ∷ 1 ∷ 0 ∷ []

-- A header whose map area starts at its third word.
abbrev mapped : FileHeader
mapped = record (header_fields []) {
  map_offset = 1;
  map_words_in_use = 5;
  raw = 7 ∷ 8 ∷ 9 ∷ 64 ∷ 232 ∷ 3 ∷ 43 ∷ 129 ∷ 112 ∷ 17 ∷ 1 ∷ 0 ∷ 255 ∷ [];
}

two_extents-ExtentInRange : All ExtentInRange two_extents
two_extents-ExtentInRange = omega arith

encodes_two : encode_retrieval_pointers two_extents ≡ ok two_encoded
unfolding encode_retrieval_pointers encode_extent
encodes_two = refl

retrieval_pointers-encode_retrieval_pointers_example : retrieval_pointers mapped ≡ ok two_extents
retrieval_pointers-encode_retrieval_pointers_example =
    retrieval_pointers-encode_retrieval_pointers mapped two_extents (7 ∷ 8 ∷ []) two_encoded
      (255 ∷ []) two_extents-ExtentInRange encodes_two refl refl refl
