-- ===== src/Ondisk/DirBlock/Fuel.antt =====
-- ondisk/directory.go: the rounds that decoding a directory block takes.
use ods.Base.{
  ℕ, zero, suc, ◌+◌, ◌*◌, ◌≡◌, ◌≢◌, ◌≤◌, List, [], ◌++◌, ok, err, out_of_fuel, length, ltb, ◌==◌,
  arith, Result-cases, Bool-cases, inl, inr,
}
use ods.Base.Word.{u16_at}
use ods.Ondisk.DirEntry.{DirEntry}
use ods.Ondisk.DirBlock.{read_record, read_records, decode_directory_block}

-- A record takes its header at least, and no failure of one is a lack of fuel.
read_record_forward :
    (block : List ℕ) (offset next : ℕ) (new : List DirEntry)
    → read_record block offset ≡ ok (new, next)
    → offset + 6 ≤ next
unfolding read_record
read_record_forward block offset next new h = ground arith

read_record-ends : (block : List ℕ) (offset : ℕ) → read_record block offset ≢ err out_of_fuel
unfolding read_record
read_record-ends block offset h = ground arith

read_records-ends :
    (fuel : ℕ) (block : List ℕ) (offset : ℕ) (entries : List DirEntry)
    → length block ≤ offset + 6 * fuel + 5
    → read_records fuel block offset entries ≢ err out_of_fuel
unfolding read_records
read_records-ends zero block offset entries h k = ground arith
read_records-ends (suc fuel) block offset entries h k =
    elim (Bool-cases (ltb (length block) (offset + 6))) [
      | inl t ↦ absurd (ground (arith, t))
      | inr t ↦ elim (Bool-cases (ltb 510 (u16_at block offset))) [
        | inl s ↦ absurd (ground (arith, t, s))
        | inr s ↦ elim (Result-cases (read_record block offset)) [
          | inl ((new, next), e) ↦
              let forward = read_record_forward block offset next new e in
              read_records-ends fuel block next (entries ++ new) (omega arith) (rw (t, s, e) at k)
          | inr (error, e) ↦ read_record-ends block offset (cc (e, rw (t, s, e) at k))
        ]
      ]
    ]

-- Decoding any list of bytes as a directory block, a corrupt one included, ends within 86 rounds.
pub decode_directory_block-ends : (block : List ℕ) → decode_directory_block block ≢ err out_of_fuel
unfolding decode_directory_block
decode_directory_block-ends block k = elim (Bool-cases (length block == 512)) [
  | inl t ↦ read_records-ends 86 block 0 [] (ground (arith, t)) (rw t at k)
  | inr t ↦ absurd (ground (arith, t))
]
