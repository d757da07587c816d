-- ===== src/Rms/Reader/Records.antt =====
-- rms/reader.go, Next: the records of a file, in their order.
use ods.Base.{
  ℕ, ◌+◌, ◌≤◌, ◌<◌, ◌≡◌, refl, List, [], ◌∷◌, ◌++◌, append-nil, ok, err, end_of_file, arith, length,
  slice, true, false, All, length-append, slice-front, slice-back,
}
use ods.Ondisk.RecAttr.{
  RecordFormat, undefined, fixed, variable, vfc, stream_crlf, stream_lf, stream_cr,
}
use ods.Rms.Frames.{length_word, pad, frame, length-frame, framed, all_framed}
use ods.Rms.BlockStream.{BlockSource, BlockStream, offset}
use ods.Rms.BlockStream.Bytes.{IsFile, IsAt}
use ods.Rms.Reader.{Reader, next, next_format, start_format, delim_lf, delim_cr, delim_crlf}
use ods.Rms.Reader.Variable.{moved, skip_nothing, skip_last, next_variable-frame, next_variable_end}
use ods.Rms.Reader.Stream.{Plain, Joins, next_stream-text, next_stream_end}
use ods.Rms.Reader.Fixed.{next_fixed-text, next_fixed_end}

-- The records that calls of Next return, until the one that reports the end of the file.
abbrev pub ReadsBack : BlockSource → ℕ → Reader → List (List ℕ) → Type 0
ReadsBack source limit r [] = (next source limit r).1 ≡ err end_of_file
ReadsBack source limit r (text ∷ more) =
    ((next source limit r).1 ≡ ok text) × ReadsBack source limit (next source limit r).0 more

-- The records that a file of a format gives back.
abbrev pub Readable : RecordFormat → ℕ → List ℕ → Type 0
Readable undefined size text = (length text ≡ size) × (0 < size)
Readable fixed size text = (length text ≡ size) × (0 < size)
Readable variable size text = length text < 65535
Readable vfc size text = length text < 65535
Readable stream_lf size text = All (Plain delim_lf) text
Readable stream_cr size text = All (Plain delim_cr) text
Readable stream_crlf size text = All (Plain delim_crlf) text × Joins delim_crlf [] text

-- A fixed length is not 0.
abbrev pub IsSized : RecordFormat → ℕ → Type 0
IsSized undefined size = 0 < size
IsSized fixed size = 0 < size
IsSized other size = 0 < 1

module _ (source : BlockSource) (limit : ℕ) (bytes : List ℕ)
    (file : IsFile source limit bytes) where
  abbrev Step : RecordFormat → ℕ → List ℕ → ℕ → BlockStream → Type 0
  Step k size text o s =
      (s1 : BlockStream) × (start_format source limit k false size s ≡ ok s1)
      × (s2 : BlockStream) × (next_format source limit k size s1 ≡ (s2, ok text))
      × IsAt limit bytes s2 (o + length (framed k text))

  next_variable-Step :
      (text : List ℕ) (size o : ℕ) (s : BlockStream)
      → IsAt limit bytes s o
      → length text < 65535
      → slice bytes o (length (frame text)) ≡ frame text
      → o + length (frame text) ≤ limit
      → Step variable size text o s
  next_variable-Step text size o s a short there inside =
      let word : slice bytes o 2 ≡ length_word text =
        slice-front bytes (length_word text) (text ++ pad text) o there in
      let (s1, skipped, a1) =
        skip_nothing source limit bytes file text o s a (omega (arith, length-frame text, inside))
          word short in
      let (s2, got, a2) =
        next_variable-frame source limit bytes file text o s1 a1 there inside (omega arith) in
      (s1, skipped, s2, got, a2)

  next_format-Step :
      (k : RecordFormat) (text : List ℕ) (size o : ℕ) (s : BlockStream)
      → IsAt limit bytes s o
      → Readable k size text
      → slice bytes o (length (framed k text)) ≡ framed k text
      → o + length (framed k text) ≤ limit
      → Step k size text o s
  next_format-Step variable text size o s a p there inside =
      next_variable-Step text size o s a p there inside
  next_format-Step vfc text size o s a p there inside =
      next_variable-Step text size o s a p there inside
  next_format-Step stream_lf text size o s a p there inside =
      let (s2, got, a2) =
        next_stream-text source limit bytes file delim_lf text o s a there inside p (omega arith) in
      (s, refl, s2, got, a2)
  next_format-Step stream_cr text size o s a p there inside =
      let (s2, got, a2) =
        next_stream-text source limit bytes file delim_cr text o s a there inside p (omega arith) in
      (s, refl, s2, got, a2)
  next_format-Step stream_crlf text size o s a (p, q) there inside =
      let (s2, got, a2) =
        next_stream-text source limit bytes file delim_crlf text o s a there inside p q in
      (s, refl, s2, got, a2)
  next_format-Step fixed text size o s a (p, q) there inside =
      let (s2, got, a2) =
        next_fixed-text source limit bytes file true text o s a (omega (arith, p, q)) there
          inside in
      (s, refl, s2, rw (← p) got, a2)
  next_format-Step undefined text size o s a (p, q) there inside =
      let (s2, got, a2) =
        next_fixed-text source limit bytes file false text o s a (omega (arith, p, q))
          (rw (append-nil text) there) (rw (append-nil text) inside) in
      (s, refl, s2, rw (← p) got, moved (omega (arith, length-append text [])) a2)

  -- Behind the last record, the end of the file is reported.
  next-end :
      (k : RecordFormat) (size : ℕ) (s : BlockStream)
      → IsAt limit bytes s limit
      → IsSized k size
      → (s1 : BlockStream) × (start_format source limit k false size s ≡ ok s1)
        × (s2 : BlockStream) × (next_format source limit k size s1 ≡ (s2, err end_of_file))
  next-end variable size s a h =
      let (s1, skipped, a1) = skip_last source limit bytes file limit s a (omega arith) in
      let (s2, got) = next_variable_end source limit bytes file s1 a1 in (s1, skipped, s2, got)
  next-end vfc size s a h =
      let (s1, skipped, a1) = skip_last source limit bytes file limit s a (omega arith) in
      let (s2, got) = next_variable_end source limit bytes file s1 a1 in (s1, skipped, s2, got)
  next-end stream_lf size s a h =
      let (s2, got) = next_stream_end source limit bytes file delim_lf s a in (s, refl, s2, got)
  next-end stream_cr size s a h =
      let (s2, got) = next_stream_end source limit bytes file delim_cr s a in (s, refl, s2, got)
  next-end stream_crlf size s a h =
      let (s2, got) = next_stream_end source limit bytes file delim_crlf s a in (s, refl, s2, got)
  next-end fixed size s a h =
      let (s2, got) = next_fixed_end source limit bytes file true size s a h in (s, refl, s2, got)
  next-end undefined size s a h =
      let (s2, got) = next_fixed_end source limit bytes file false size s a h in (s, refl, s2, got)

  -- On a file whose bytes, from the reader's place to the end, are the frames of records of the
  -- reader's format, which may cross blocks and which their format can tell apart: the reader
  -- returns the records, in their order, then reports the end of the file.
  pub next-ReadsBack :
      (texts : List (List ℕ)) (r : Reader) (o : ℕ)
      → r.no_span ≡ false
      → IsSized r.format r.fixed_size
      → IsAt limit bytes r.stream o
      → slice bytes o (length (all_framed r.format texts)) ≡ all_framed r.format texts
      → o + length (all_framed r.format texts) ≡ limit
      → All (Readable r.format r.fixed_size) texts
      → ReadsBack source limit r texts
  unfolding next
  next-ReadsBack [] r o spans sized a there whole p =
      let (s1, start, s2, got) =
        next-end r.format r.fixed_size r.stream (moved (omega (arith, whole)) a) sized in
      rw (spans, start, got) refl
  next-ReadsBack (text ∷ more) r o spans sized a there whole (p, ps) =
      let sum : length (framed r.format text ++ all_framed r.format more)
          ≡ length (framed r.format text) + length (all_framed r.format more) =
        length-append (framed r.format text) (all_framed r.format more) in
      let (s1, start, s2, got, a2) =
        next_format-Step r.format text r.fixed_size o r.stream a p
          (slice-front bytes (framed r.format text) (all_framed r.format more) o there)
          (omega (arith, whole, sum)) in
      let outcome : next source limit r
          ≡ (record r { stream = s2; record_offset = offset s1 }, ok text) =
        rw (spans, start, got) refl in
      rw outcome (
        refl,
        next-ReadsBack more (record r { stream = s2; record_offset = offset s1 })
            (o + length (framed r.format text)) spans sized a2
            (slice-back bytes (framed r.format text) (all_framed r.format more) o there)
            (omega (arith, whole, sum)) ps,
      )
