-- ===== src/Rms/Reader/Variable.antt =====
-- rms/reader.go, nextVariable and skipEndOfRecords: variable-length records in a file's bytes.
use ods.Base.{
  ℕ, suc, ◌+◌, ◌-◌, ◌*◌, ◌/◌, ◌%◌, ◌≤◌, ◌<◌, ◌≡◌, inl, inr, refl, List, ◌++◌, ok, err, end_of_file,
  arith, length, slice, ◌==◌, Bool-cases, false, slice-front, slice-back,
}
use ods.Base.Word.{u8, ◌>>>◌, split_u16}
use ods.Rms.Frames.{length_word, pad, frame, length-frame}
use ods.Rms.BlockStream.{BlockSource, BlockStream}
use ods.Rms.BlockStream.Bytes.{
  IsFile, IsAt, read_full-bytes, read_full_short, peek-bytes, peek_short,
}
use ods.Rms.Reader.{next_variable, skip_end_of_records, skip_rounds, end_of_records}

pub moved :
    {limit p q : ℕ} {bytes : List ℕ} {s : BlockStream}
    → p ≡ q
    → IsAt limit bytes s p
    → IsAt limit bytes s q
moved e a = rw (← e) a

module _ (source : BlockSource) (limit : ℕ) (bytes : List ℕ)
    (file : IsFile source limit bytes) where
  -- A length word that is not `endOfRecords` is left to be read.
  pub skip_nothing :
      (text : List ℕ) (o : ℕ) (s : BlockStream)
      → IsAt limit bytes s o
      → o + 2 ≤ limit
      → slice bytes o 2 ≡ length_word text
      → length text < 65535
      → (s' : BlockStream) × (skip_end_of_records source limit s ≡ ok s') × IsAt limit bytes s' o
  unfolding skip_end_of_records skip_rounds
  skip_nothing text o s a h at_word short =
      let (s', got, after) = peek-bytes source limit bytes file 2 o s a h in
      let e : (u8 (length text) + 256 * u8 (length text >>> 8) == end_of_records) ≡ false =
        ground (arith, split_u16 (length text) (omega arith)) in
      let rounds : limit / 512 + 2 ≡ suc (limit / 512 + 1) = omega arith in
      (s', rw (rounds, got, at_word, e) refl, after)

  -- Behind the last record there is nothing to skip.
  pub skip_last :
      (o : ℕ) (s : BlockStream)
      → IsAt limit bytes s o
      → limit < o + 2
      → (s' : BlockStream) × (skip_end_of_records source limit s ≡ ok s') × IsAt limit bytes s' o
  unfolding skip_end_of_records skip_rounds
  skip_last o s a h =
      let (s', got, after) = peek_short source limit bytes file 2 o s a h (omega arith) in
      let rounds : limit / 512 + 2 ≡ suc (limit / 512 + 1) = omega arith in
      (s', rw (rounds, got) refl, after)

  -- A record is read back from its frame.
  pub next_variable-frame :
      (text : List ℕ) (o : ℕ) (s : BlockStream)
      → IsAt limit bytes s o
      → slice bytes o (length (frame text)) ≡ frame text
      → o + length (frame text) ≤ limit
      → length text < 65536
      → (s' : BlockStream) × (next_variable source limit s ≡ (s', ok text))
        × IsAt limit bytes s' (o + length (frame text))
  unfolding next_variable
  next_variable-frame text o s a there inside short =
      let size : length (frame text) ≡ 2 + (length text + length text % 2) = length-frame text in
      let word : slice bytes o 2 ≡ length_word text =
        slice-front bytes (length_word text) (text ++ pad text) o there in
      let behind : slice bytes (o + 2) (length (text ++ pad text)) ≡ text ++ pad text =
        slice-back bytes (length_word text) (text ++ pad text) o there in
      let body : slice bytes (o + 2) (length text) ≡ text =
        slice-front bytes text (pad text) (o + 2) behind in
      let number : u8 (length text) + 256 * u8 (length text >>> 8) ≡ length text =
        split_u16 (length text) short in
      let (s1, got1, a1) =
        read_full-bytes source limit bytes file 2 o s a (omega (arith, size, inside)) in
      let (s2, got2, a2) =
        read_full-bytes source limit bytes file (length text) (o + 2) s1 a1
          (omega (arith, size, inside)) in
      elim (Bool-cases (length text % 2 == 0)) [
        | inl even ↦
            let e : o + 2 + length text ≡ o + length (frame text) = ground (arith, even, size) in
            (s2, rw (got1, word, number, got2, body, even) refl, moved e a2)
        | inr odd ↦
            let (s3, got3, a3) =
              read_full-bytes source limit bytes file 1 (o + 2 + length text) s2 a2
                (ground (arith, size, inside, odd)) in
            let e : o + 2 + length text + 1 ≡ o + length (frame text) = ground (arith, odd, size) in
            (s3, rw (got1, word, number, got2, body, odd, got3) refl, moved e a3)
      ]

  -- At the end of the file there is no length word to read.
  pub next_variable_end :
      (s : BlockStream)
      → IsAt limit bytes s limit
      → (s' : BlockStream) × (next_variable source limit s ≡ (s', err end_of_file))
  unfolding next_variable
  next_variable_end s a =
      let (s', at', left, got) =
        read_full_short source limit bytes file 2 limit s a (omega arith) (omega arith) in
      let none_left : limit - limit ≡ 0 = omega arith in (s', rw (got, none_left) refl)
