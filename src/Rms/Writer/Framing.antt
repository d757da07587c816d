-- ===== src/Rms/Writer/Framing.antt =====
-- rms/writer.go: what Put does before a record, and records of fixed size.
use ods.Base.{
  ℕ, ◌<◌, ◌≡◌, inl, inr, refl, ◌∙◌, List, ◌++◌, append_assoc, Result, ok, ◌>>=◌, arith, length,
  ◌==◌, if_not, Bool-cases, Option-cases, true, false,
}
use ods.Ondisk.RecAttr.{
  RecordFormat, undefined, fixed, variable, vfc, stream_crlf, stream_lf, stream_cr,
}
use ods.Rms.Reader.Records.{Readable}
use ods.Rms.BlockFile.{BlockFile}
use ods.Rms.Reader.{StreamDelim, delim_lf, delim_cr, delim_crlf}
use ods.Rms.Frames.{delim}
use ods.Rms.Writer.{
  Writer, is_variable, append, append_pad, follow_end, put_fixed, start_record, space_needed,
  stream_delim_bytes,
}
use ods.Rms.Writer.Content.{IsWriting, moved_to}

-- The records that Put takes.
abbrev pub Puttable : RecordFormat → ℕ → List ℕ → Type 0
Puttable undefined size text = (length text ≡ size) × (0 < size)
Puttable fixed size text = (length text ≡ size) × (0 < size)
Puttable variable size text = length text < 65536
Puttable vfc size text = length text < 65536
Puttable stream_lf size text = 0 < 1
Puttable stream_cr size text = 0 < 1
Puttable stream_crlf size text = 0 < 1

-- What can be told apart can be put.
pub Readable→Puttable :
    (k : RecordFormat) (size : ℕ) (text : List ℕ) → Readable k size text → Puttable k size text
Readable→Puttable undefined size text p = p
Readable→Puttable fixed size text p = p
Readable→Puttable variable size text p = omega arith
Readable→Puttable vfc size text p = omega arith
Readable→Puttable stream_lf size text p = omega arith
Readable→Puttable stream_cr size text p = omega arith
Readable→Puttable stream_crlf size text p = omega arith

-- A writer that has its file to itself, of records that may cross blocks.
pub record IsAlone (w : Writer) : Type 0 where
  pub still_open : w.closed ≡ false
  pub unshared : w.shared ≡ false
  pub spans : w.no_span ≡ false

pub delim_bytes : (kind : StreamDelim) → stream_delim_bytes kind ≡ delim kind
unfolding stream_delim_bytes
delim_bytes delim_lf = refl
delim_bytes delim_cr = refl
delim_bytes delim_crlf = refl

module _ {S : Type 0} (f : BlockFile S) (Ready : S → Type 0) where
  -- An operation has added `body` to what the writer has been given.
  abbrev pub Adds : List ℕ → List ℕ → Writer → S → Result (Writer × S) → Type 0
  Adds content body w s r =
      (buf : List ℕ) × (vbn : ℕ) × (s' : S) × (r ≡ ok (moved_to w buf vbn, s'))
      × IsWriting f Ready (moved_to w buf vbn) s' (content ++ body)
      × (length buf < 512)
      × (f.attributes s' ≡ f.attributes s)

  pub Adds-then :
      (content one two : List ℕ) (w : Writer) (s : S) (r : Result (Writer × S))
      (next : Writer × S → Result (Writer × S))
      → Adds content one w s r
      → ((buf : List ℕ) (vbn : ℕ) (s' : S)
          → IsWriting f Ready (moved_to w buf vbn) s' (content ++ one)
          → length buf < 512
          → Adds (content ++ one) two (moved_to w buf vbn) s' (next (moved_to w buf vbn, s')))
      → Adds content (one ++ two) w s (r >>= next)
  Adds-then content one two w s r next (buf, vbn, s1, done, a, short, same) more =
      let (buf', vbn', s2, done', a', short', same') = more buf vbn s1 a short in
      (buf', vbn', s2, rw done done', rw (← append_assoc content one two) a', short', same' ∙ same)

  -- Where the last record starts says nothing of the bytes.
  pub noted :
      (w : Writer) (s : S) (content : List ℕ) (n : ℕ)
      → IsWriting f Ready w s content
      → IsWriting f Ready (record w { record_offset = n }) s content
  noted w s content n a = record {
    ready = a.ready;
    starts = a.starts;
    buffered = a.buffered;
    inside = a.inside;
    stored = a.stored;
    reached = a.reached;
    within = a.within;
  }

  pub start_anywhere :
      (text : List ℕ) (w : Writer) (s : S) → w.no_span ≡ false → start_record f text w s ≡ ok (w, s)
  unfolding start_record
  start_anywhere text w s e = elim (Option-cases (space_needed w.format text)) [
    | inl p ↦ rw p refl
    | inr (need, p) ↦ elim (Bool-cases (is_variable w.format)) [
      | inl v ↦ rw (p, v, e) refl
      | inr v ↦ rw (p, v, e) refl
    ]
  ]

  pub follow_alone : (w : Writer) (s : S) → w.shared ≡ false → follow_end f w s ≡ ok w
  unfolding follow_end
  follow_alone w s e = if_not _ _ e

  pub put_fixed_aligned :
      (text : List ℕ) (w : Writer) (s : S)
      → w.format ≡ fixed
      → length text ≡ w.fixed_size
      → 0 < w.fixed_size
      → put_fixed f text w s ≡ (append f text w s >>= append_pad f text)
  unfolding put_fixed
  put_fixed_aligned text w s k sized some_size =
      let e : (w.fixed_size == 0) ≡ false = ground arith in
      let e' : (length text == w.fixed_size) ≡ true = ground (arith, sized) in rw (e, e', k) refl

  pub put_fixed_undefined :
      (text : List ℕ) (w : Writer) (s : S)
      → w.format ≡ undefined
      → length text ≡ w.fixed_size
      → 0 < w.fixed_size
      → put_fixed f text w s ≡ (append f text w s >>= λ written. ok written)
  unfolding put_fixed
  put_fixed_undefined text w s k sized some_size =
      let e : (w.fixed_size == 0) ≡ false = ground arith in
      let e' : (length text == w.fixed_size) ≡ true = ground (arith, sized) in rw (e, e', k) refl
