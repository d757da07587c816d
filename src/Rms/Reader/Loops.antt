-- ===== src/Rms/Reader/Loops.antt =====
-- rms/reader.go: the loops of Next, on any file.
use ods.Base.{
  refl, ◌∙◌, ℕ, zero, suc, ◌+◌, ◌-◌, ◌*◌, ◌/◌, ◌≤◌, ◌<◌, ◌≡◌, ◌≢◌, ◌⊎◌, inl, inr, List, [], ◌∷◌,
  ◌++◌, Result, ok, err, out_of_fuel, arith, length, slice, leb, leb→le, ◌==◌, ◌&&◌, ◌||◌,
  Bool-cases, get_or,
}
use ods.Base.Word.{u16_at}
use ods.Rms.BlockStream.{BlockSource, BlockStream, read_byte, offset, seek}
use ods.Rms.BlockStream.Bytes.{
  IsFile, IsAt, peek-bytes, peek_short, read_byte-bytes, read_byte_end, offset-IsAt, seek-IsAt,
}
use ods.Rms.Reader.{
  Read, next_stream, stream_rounds, stream_byte, crlf_follows, skip_end_of_records, skip_rounds,
  end_of_records, StreamDelim, delim_lf, delim_cr, delim_crlf, unread_byte,
}
use ods.Rms.Reader.Variable.{moved}

-- It has not run out of rounds.
abbrev pub HasEnded : {T : Type 0} → BlockStream × Result T → Type 0
HasEnded r = r.1 ≢ err out_of_fuel

module _ (source : BlockSource) (limit : ℕ) (bytes : List ℕ)
    (file : IsFile source limit bytes) where
  -- Behind all the marks there is the end of the file, or the length of a record.
  abbrev pub AtRecord : ℕ → Type 0
  AtRecord o = (limit < o + 2) ⊎ (u16_at (slice bytes o 2) 0 ≢ end_of_records)

  skip_rounds-AtRecord :
      (fuel o : ℕ) (s : BlockStream)
      → IsAt limit bytes s o
      → limit / 512 + 1 < o / 512 + fuel
      → 0 < fuel
      → (s' : BlockStream) × (o' : ℕ) × (skip_rounds source limit fuel s ≡ ok s')
        × IsAt limit bytes s' o'
        × AtRecord o'
  unfolding skip_rounds
  skip_rounds-AtRecord zero o s a h p = absurd (omega arith)
  skip_rounds-AtRecord (suc fuel) o s a h p = elim (Bool-cases (leb (o + 2) limit)) [
    | inr t ↦
        let (s', got, a') =
          peek_short source limit bytes file 2 o s a (ground (arith, t)) (omega arith) in
        (s', o, rw got refl, a', inl (ground (arith, t)))
    | inl t ↦
        let (s', got, a') = peek-bytes source limit bytes file 2 o s a (leb→le (o + 2) limit t) in
        elim (Bool-cases (u16_at (slice bytes o 2) 0 == end_of_records)) [
          | inr e ↦ (s', o, rw (got, e) refl, a', inr (λ q. cc))
          | inl e ↦
              let place : offset s' ≡ o = offset-IsAt limit bytes s' o a' in
              let next_one : (o / 512 + 1) * 512 / 512 ≡ o / 512 + 1 = omega arith in
              let inside : o + 2 ≤ limit = leb→le (o + 2) limit t in
              let (s2, o2, done, a2, at_record) =
                skip_rounds-AtRecord fuel ((o / 512 + 1) * 512) (seek ((o / 512 + 1) * 512))
                  (seek-IsAt limit bytes ((o / 512 + 1) * 512)) (omega (arith, next_one, h))
                  (omega (arith, inside, h)) in
              let step : skip_rounds source limit (suc fuel) s
                  ≡ skip_rounds source limit fuel (seek ((o / 512 + 1) * 512)) =
                rw (got, e, place) refl in
              (s2, o2, step ∙ done, a2, at_record)
        ]
  ]

  -- The rounds given to skipEndOfRecords are enough: where it stops, there is a record, or the end.
  pub skip_end_of_records-AtRecord :
      (o : ℕ) (s : BlockStream)
      → IsAt limit bytes s o
      → (s' : BlockStream) × (o' : ℕ) × (skip_end_of_records source limit s ≡ ok s')
        × IsAt limit bytes s' o'
        × AtRecord o'
  unfolding skip_end_of_records
  skip_end_of_records-AtRecord o s a =
      skip_rounds-AtRecord (limit / 512 + 2) o s a (omega arith) (omega arith)

  crlf_follows-HasEnded :
      (more : List ℕ → BlockStream → Read) (text : List ℕ) (o : ℕ) (s : BlockStream)
      → IsAt limit bytes s o
      → ((text' : List ℕ) (s' : BlockStream) → IsAt limit bytes s' o → HasEnded (more text' s'))
      → HasEnded (crlf_follows source limit more text (read_byte source limit s))
  crlf_follows-HasEnded more text o s a h = elim (Bool-cases (leb (o + 1) limit)) [
    | inr t ↦
        let (s', got, a') = read_byte_end source limit bytes file o s a (ground (arith, t)) in
        rw got (h (text ++ 0x0D ∷ []) s' a')
    | inl t ↦
        let (s', got, a') =
          read_byte-bytes source limit bytes file o s a (leb→le (o + 1) limit t) in
        elim (Bool-cases (get_or (slice bytes o 1) 0 0 == 0x0A)) [
          | inl e ↦ rw (got, e) (λ q. cc)
          | inr e ↦
              let place : offset s' - 1 ≡ o =
                omega (arith, offset-IsAt limit bytes s' (o + 1) a') in
              rw (got, e)
                (h (text ++ 0x0D ∷ []) (unread_byte s')
                  (moved place (seek-IsAt limit bytes (offset s' - 1))))
        ]
  ]

  stream_byte-HasEnded :
      (kind : StreamDelim) (more : List ℕ → BlockStream → Read) (text : List ℕ) (o : ℕ)
      (s : BlockStream) (b : ℕ)
      → IsAt limit bytes s o
      → ((text' : List ℕ) (s' : BlockStream) → IsAt limit bytes s' o → HasEnded (more text' s'))
      → HasEnded (stream_byte source limit kind more text (s, ok b))
  stream_byte-HasEnded delim_lf more text o s b a h = elim (Bool-cases (b == 0x0A)) [
    | inl e ↦ rw e (λ q. cc)
    | inr e ↦ rw e (h (text ++ b ∷ []) s a)
  ]
  stream_byte-HasEnded delim_cr more text o s b a h = elim (Bool-cases (b == 0x0D)) [
    | inl e ↦ rw e (λ q. cc)
    | inr e ↦ rw e (h (text ++ b ∷ []) s a)
  ]
  stream_byte-HasEnded delim_crlf more text o s b a h =
      elim (Bool-cases (b == 0 && length text == 0)) [
        | inl e ↦ rw e (h text s a)
        | inr e ↦ elim (Bool-cases (b == 0x0D)) [
          | inl c ↦ rw (e, c) (crlf_follows-HasEnded more text o s a h)
          | inr c ↦ elim (Bool-cases (b == 0x0A || b == 0x0B || b == 0x0C)) [
            | inl d ↦ rw (e, c, d) (λ q. cc)
            | inr d ↦ rw (e, c, d) (h (text ++ b ∷ []) s a)
          ]
        ]
      ]

  stream_rounds-HasEnded :
      (kind : StreamDelim) (fuel : ℕ) (text : List ℕ) (o : ℕ) (s : BlockStream)
      → IsAt limit bytes s o
      → limit < o + fuel
      → 0 < fuel
      → HasEnded (stream_rounds source limit kind fuel text s)
  unfolding stream_rounds
  stream_rounds-HasEnded kind zero text o s a h p = absurd (omega arith)
  stream_rounds-HasEnded kind (suc fuel) text o s a h p = elim (Bool-cases (leb (o + 1) limit)) [
    | inr t ↦
        let (s', got, a') = read_byte_end source limit bytes file o s a (ground (arith, t)) in
        rw got
          (elim (Bool-cases (length text == 0)) [ inl z ↦ rw z (λ q. cc) | inr z ↦ rw z (λ q. cc) ])
    | inl t ↦
        let within : o + 1 ≤ limit = leb→le (o + 1) limit t in
        let (s', got, a') = read_byte-bytes source limit bytes file o s a within in
        rw got (
          stream_byte-HasEnded kind (stream_rounds source limit kind fuel) text (o + 1) s'
            (get_or (slice bytes o 1) 0 0) a'
            (λ text' s2 a2.
              stream_rounds-HasEnded kind fuel text' (o + 1) s2 a2 (omega (arith, h))
                (omega (arith, h, within))))
  ]

  -- The rounds given to nextStream are enough, on any bytes.
  pub next_stream-HasEnded :
      (kind : StreamDelim) (o : ℕ) (s : BlockStream)
      → IsAt limit bytes s o
      → HasEnded (next_stream source limit kind s)
  unfolding next_stream
  next_stream-HasEnded kind o s a =
      stream_rounds-HasEnded kind (limit + 1) [] o s a (omega arith) (omega arith)
