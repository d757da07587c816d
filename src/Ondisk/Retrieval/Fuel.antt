-- ===== src/Ondisk/Retrieval/Fuel.antt =====
-- ondisk/retrieval.go: the rounds that decoding a map area takes.
use ods.Base.{
  ℕ, zero, suc, ◌+◌, ◌*◌, ◌≤◌, ◌≢◌, List, [], ◌++◌, ◌>>=◌, Result, ok, err, out_of_fuel, arith,
  Result-cases, inl, inr,
}
use ods.Ondisk.FileHeader.{FileHeader}
use ods.Ondisk.Retrieval.{Extent, read_word, read_entry, read_entries, retrieval_pointers}

-- One entry moves on by a word at least, and has no fuel to run out of.
abbrev Moves : ℕ → Result (List Extent × ℕ) → Type 0
Moves pos (ok (es, next)) = pos + 2 ≤ next
Moves pos (err e) = e ≢ out_of_fuel

read_entry-Moves : (raw : List ℕ) (pos w : ℕ) → Moves pos (read_entry raw pos w)
unfolding read_entry
read_entry-Moves raw pos w = ground arith

read_word-ne-out_of_fuel : (raw : List ℕ) (pos : ℕ) → read_word raw pos ≢ err out_of_fuel
unfolding read_word
read_word-ne-out_of_fuel raw pos = ground arith

read_entries-ne-out_of_fuel :
    (fuel : ℕ) (raw : List ℕ) (map_end pos : ℕ) (es : List Extent)
    → map_end ≤ pos + fuel * 2
    → read_entries fuel raw map_end pos es ≢ err out_of_fuel
unfolding read_entries
read_entries-ne-out_of_fuel zero raw map_end pos es h = ground arith
read_entries-ne-out_of_fuel (suc fuel) raw map_end pos es h =
    elim (Result-cases (read_word raw pos)) [
      | inr (e, p) ↦ rw (p, ◌>>=◌) (ground (arith, read_word-ne-out_of_fuel raw pos))
      | inl (w, p) ↦ elim (Result-cases (read_entry raw pos w)) [
        | inr (e, q) ↦ ground (arith, p, q, read_entry-Moves raw pos w)
        | inl ((new, next), q) ↦ ground (
          arith,
          p,
          q,
          read_entry-Moves raw pos w,
          read_entries-ne-out_of_fuel fuel raw map_end next (es ++ new),
        )
      ]
    ]

-- Decoding any header's map area, corrupt ones included, ends within the number of rounds it is
-- given: one for each word of the area.
pub retrieval_pointers-ends : (h : FileHeader) → retrieval_pointers h ≢ err out_of_fuel
unfolding retrieval_pointers
retrieval_pointers-ends h = ground (
  arith,
  read_entries-ne-out_of_fuel h.map_words_in_use h.raw (h.map_offset * 2 + h.map_words_in_use * 2)
      (h.map_offset * 2) [] (omega arith),
)
