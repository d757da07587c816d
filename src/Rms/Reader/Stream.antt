-- ===== src/Rms/Reader/Stream.antt =====
-- rms/reader.go, nextStream: delimited records in a file's bytes.
use ods.Base.{
  ℕ, zero, suc, ◌+◌, ◌≤◌, ◌<◌, ◌≡◌, ◌≢◌, ◌⊎◌, inr, refl, ap, sym, ◌∙◌, List, [], ◌∷◌, ◌++◌,
  append-nil, append_assoc, ok, err, end_of_file, arith, length, slice, ◌==◌, ◌&&◌, ◌||◌, false,
  length-append, All, slice-front, slice-back, get_or,
}
use ods.Rms.BlockStream.{BlockSource, BlockStream, read_byte}
use ods.Rms.BlockStream.Bytes.{IsFile, IsAt, read_byte-bytes, read_byte_end}
use ods.Rms.Reader.{
  Read, StreamDelim, delim_lf, delim_cr, delim_crlf, next_stream, stream_rounds, stream_byte,
}
use ods.Rms.Frames.{delim}
use ods.Rms.Reader.Variable.{moved}

-- A byte that ends no record.
abbrev pub Plain : StreamDelim → ℕ → Type 0
Plain delim_lf b = b ≢ 0x0A
Plain delim_cr b = b ≢ 0x0D
Plain delim_crlf b = (b < 0x0A) ⊎ (0x0D < b)

-- Null bytes before a record are passed over: the record so far, or the first of the bytes to join
-- it, is none.
abbrev pub Joins : StreamDelim → List ℕ → List ℕ → Type 0
Joins delim_lf text more = 0 < 1
Joins delim_cr text more = 0 < 1
Joins delim_crlf text [] = 0 < 1
Joins delim_crlf text (b ∷ more) = (0 < b) ⊎ (0 < length text)

is_not : (a b : ℕ) → a ≢ b → (a == b) ≡ false
is_not a b h = ground (arith, h)

not_leading : (b n : ℕ) → (0 < b) ⊎ (0 < n) → ((b == 0) && (n == 0)) ≡ false
not_leading b n h = ground (arith, h)

not_control :
    (b : ℕ)
    → (b < 0x0A) ⊎ (0x0D < b)
    → ((b == 0x0D) ≡ false) × ((b == 0x0A || b == 0x0B || b == 0x0C) ≡ false)
not_control b h = (ground (arith, h), ground (arith, h))

Joins-more : (kind : StreamDelim) (text more : List ℕ) (b : ℕ) → Joins kind (text ++ b ∷ []) more
Joins-more delim_lf text more b = omega arith
Joins-more delim_cr text more b = omega arith
Joins-more delim_crlf text [] b = omega arith
Joins-more delim_crlf text (c ∷ more) b = inr (omega (arith, length-append text (b ∷ [])))

Joins-head :
    (kind : StreamDelim) (text more : List ℕ) (b : ℕ)
    → Joins kind text (b ∷ more)
    → Joins kind text (b ∷ [])
Joins-head delim_lf text more b q = q
Joins-head delim_cr text more b q = q
Joins-head delim_crlf text more b q = q

module _ (source : BlockSource) (limit : ℕ) (bytes : List ℕ)
    (file : IsFile source limit bytes) where
  -- The byte that a stream at `o` reads, and what stands behind it.
  read_byte-first :
      (b : ℕ) (rest : List ℕ) (o : ℕ) (s : BlockStream)
      → IsAt limit bytes s o
      → slice bytes o (length (b ∷ rest)) ≡ b ∷ rest
      → o + length (b ∷ rest) ≤ limit
      → (s' : BlockStream) × (read_byte source limit s ≡ (s', ok b))
        × IsAt limit bytes s' (o + 1)
        × (slice bytes (o + 1) (length rest) ≡ rest)
  read_byte-first b rest o s a there inside =
      let (s', got, a') = read_byte-bytes source limit bytes file o s a (omega arith) in
      (
        s',
        got
            ∙ ap (λ (w : List ℕ). (s', ok (get_or w 0 0)))
                (slice-front bytes (b ∷ []) rest o there),
        a',
        slice-back bytes (b ∷ []) rest o there,
      )

  -- A plain byte joins the record.
  stream_byte_data :
      (kind : StreamDelim) (more : List ℕ → BlockStream → Read) (text : List ℕ) (s : BlockStream)
      (b : ℕ)
      → Plain kind b
      → Joins kind text (b ∷ [])
      → stream_byte source limit kind more text (s, ok b) ≡ more (text ++ b ∷ []) s
  stream_byte_data delim_lf more text s b p q = rw (is_not b 0x0A p) refl
  stream_byte_data delim_cr more text s b p q = rw (is_not b 0x0D p) refl
  stream_byte_data delim_crlf more text s b p q =
      let (no_cr, no_end) = not_control b p in
      rw (not_leading b (length text) q, no_cr, no_end) refl

  -- The delimiter ends the record.
  stream_rounds-delim :
      (kind : StreamDelim) (fuel : ℕ) (text : List ℕ) (o : ℕ) (s : BlockStream)
      → IsAt limit bytes s o
      → slice bytes o (length (delim kind)) ≡ delim kind
      → o + length (delim kind) ≤ limit
      → (s' : BlockStream) × (stream_rounds source limit kind (suc fuel) text s ≡ (s', ok text))
        × IsAt limit bytes s' (o + length (delim kind))
  unfolding stream_rounds
  stream_rounds-delim delim_lf fuel text o s a there inside =
      let (s1, got, a1, _) = read_byte-first 0x0A [] o s a there inside in (s1, rw got refl, a1)
  stream_rounds-delim delim_cr fuel text o s a there inside =
      let (s1, got, a1, _) = read_byte-first 0x0D [] o s a there inside in (s1, rw got refl, a1)
  stream_rounds-delim delim_crlf fuel text o s a there inside =
      let (s1, got, a1, there1) = read_byte-first 0x0D (0x0A ∷ []) o s a there inside in
      let (s2, got2, a2, _) =
        read_byte-first 0x0A [] (o + 1) s1 a1 there1 (omega (arith, inside)) in
      (s2, rw (got, got2) refl, moved (omega arith) a2)

  stream_rounds-text :
      (kind : StreamDelim) (more : List ℕ) (fuel : ℕ) (text : List ℕ) (o : ℕ) (s : BlockStream)
      → IsAt limit bytes s o
      → slice bytes o (length (more ++ delim kind)) ≡ more ++ delim kind
      → o + length (more ++ delim kind) ≤ limit
      → All (Plain kind) more
      → Joins kind text more
      → length more < fuel
      → (s' : BlockStream) × (stream_rounds source limit kind fuel text s ≡ (s', ok (text ++ more)))
        × IsAt limit bytes s' (o + length (more ++ delim kind))
  unfolding stream_rounds
  stream_rounds-text kind more zero text o s a there inside p q h = absurd (omega arith)
  stream_rounds-text kind [] (suc fuel) text o s a there inside p q h =
      let (s', got, a') = stream_rounds-delim kind fuel text o s a there inside in
      (s', got ∙ ap (λ (t : List ℕ). (s', ok t)) (sym (append-nil text)), a')
  stream_rounds-text kind (b ∷ more) (suc fuel) text o s a there inside (p, ps) q h =
      let (s1, got, a1, there1) = read_byte-first b (more ++ delim kind) o s a there inside in
      let (s2, got2, a2) =
        stream_rounds-text kind more fuel (text ++ b ∷ []) (o + 1) s1 a1 there1
          (omega (arith, inside)) ps (Joins-more kind text more b) (omega arith) in
      (
        s2,
        ap (stream_byte source limit kind (stream_rounds source limit kind fuel) text) got
            ∙ stream_byte_data kind (stream_rounds source limit kind fuel) text s1 b p
                (Joins-head kind text more b q)
            ∙ got2
            ∙ ap (λ (t : List ℕ). (s2, ok t)) (append_assoc text (b ∷ []) more),
        moved (omega arith) a2,
      )

  -- A record is read back from before its delimiter.
  pub next_stream-text :
      (kind : StreamDelim) (text : List ℕ) (o : ℕ) (s : BlockStream)
      → IsAt limit bytes s o
      → slice bytes o (length (text ++ delim kind)) ≡ text ++ delim kind
      → o + length (text ++ delim kind) ≤ limit
      → All (Plain kind) text
      → Joins kind [] text
      → (s' : BlockStream) × (next_stream source limit kind s ≡ (s', ok text))
        × IsAt limit bytes s' (o + length (text ++ delim kind))
  unfolding next_stream
  next_stream-text kind text o s a there inside p q =
      stream_rounds-text kind text (limit + 1) [] o s a there inside p q
        (omega (arith, inside, length-append text (delim kind)))

  ended :
      (kind : StreamDelim) (more : List ℕ → BlockStream → Read) (s : BlockStream)
      → stream_byte source limit kind more [] (s, err end_of_file) ≡ (s, err end_of_file)
  ended delim_lf more s = refl
  ended delim_cr more s = refl
  ended delim_crlf more s = refl

  pub next_stream_end :
      (kind : StreamDelim) (s : BlockStream)
      → IsAt limit bytes s limit
      → (s' : BlockStream) × (next_stream source limit kind s ≡ (s', err end_of_file))
  unfolding next_stream stream_rounds
  next_stream_end kind s a =
      let (s', got, _) = read_byte_end source limit bytes file limit s a (omega arith) in
      let rounds : limit + 1 ≡ suc limit = omega arith in
      (s', rw (rounds, got) (ended kind (stream_rounds source limit kind limit) s'))
