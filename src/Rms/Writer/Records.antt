-- ===== src/Rms/Writer/Records.antt =====
-- rms/writer.go: what a record becomes in the file, by its format.
use ods.Base.{
  ℕ, ◌+◌, ◌*◌, ◌%◌, ◌^◌, ◌≤◌, ◌<◌, ◌≡◌, ◌⊎◌, inl, inr, refl, ap, ◌∙◌, List, [], ◌∷◌, ◌++◌,
  append-nil, ok, ◌>>=◌, arith, length, ltb, ◌==◌, if_not, Bool-cases, false, length-append,
}
use ods.Base.Word.{u16}
use ods.Ondisk.RecAttr.{
  RecordFormat, undefined, fixed, variable, vfc, stream_crlf, stream_lf, stream_cr,
}
use ods.Rms.BlockFile.{BlockFile, IsBlockFile}
use ods.Rms.Reader.{StreamDelim, delim_lf, delim_cr, delim_crlf}
use ods.Rms.Frames.{pad, frame, length_word, delim, framed}
use ods.Rms.Writer.{
  Writer, append, append_pad, position, put, put_record, put_format, put_fixed, put_variable,
  put_stream, start_record,
}
use ods.Rms.Writer.Content.{IsWriting, moved_to, append-IsWriting, position-IsWriting}
pub use ods.Rms.Writer.Framing.{Puttable, Readable→Puttable, IsAlone, noted, start_anywhere}
use ods.Rms.Writer.Framing.{
  Adds, delim_bytes, Adds-then, follow_alone, put_fixed_aligned, put_fixed_undefined,
}

module _ {S : Type 0} (f : BlockFile S) (Ready : S → Type 0) (capacity : ℕ)
    (file : IsBlockFile f Ready capacity) (small : capacity + 1 < 2 ^ 32) where
  append_pad-Adds :
      (text : List ℕ) (w : Writer) (s : S) (content : List ℕ)
      → IsWriting f Ready w s content
      → length w.buf < 512
      → length content + length (pad text) ≤ capacity * 512
      → Adds f Ready content (pad text) w s (append_pad f text (w, s))
  append_pad-Adds text w s content a short room = elim (Bool-cases (length text % 2 == 0)) [
    | inl e ↦ rw e (w.buf, w.vbn, s, refl, rw (append-nil content) a, short, refl)
    | inr e ↦
        let one : length (pad text) ≡ 1 = rw e refl in
        rw e (
          append-IsWriting f Ready capacity file small (0 ∷ []) w s content a
            (omega (arith, one, room)))
  ]

  -- Each format's record, in its frame, follows what the writer has been given.
  put_fixed-Adds :
      (k : RecordFormat) (text : List ℕ) (w : Writer) (s : S) (content : List ℕ)
      → IsWriting f Ready w s content
      → w.format ≡ k
      → (k ≡ fixed) ⊎ (k ≡ undefined)
      → (length text ≡ w.fixed_size) × (0 < w.fixed_size)
      → length content + length (framed k text) ≤ capacity * 512
      → Adds f Ready content (framed k text) w s (put_fixed f text w s)
  put_fixed-Adds k text w s content a e (inr u) (sized, some_size) room =
      let shape : framed k text ≡ text = ap (λ (r : RecordFormat). framed r text) u in
      let (buf, vbn, s', done, a', short', same) =
        append-IsWriting f Ready capacity file small text w s content a
          (omega (arith, ap length shape, room)) in
      rw (shape, put_fixed_undefined f Ready text w s (e ∙ u) sized some_size, done)
        (buf, vbn, s', refl, a', short', same)
  put_fixed-Adds k text w s content a e (inl u) (sized, some_size) room =
      let shape : framed k text ≡ text ++ pad text = ap (λ (r : RecordFormat). framed r text) u in
      let size : length (text ++ pad text) ≡ length text + length (pad text) =
        length-append text (pad text) in
      rw (shape, put_fixed_aligned f Ready text w s (e ∙ u) sized some_size)
        (Adds-then f Ready content text (pad text) w s (append f text w s) (append_pad f text)
          (append-IsWriting f Ready capacity file small text w s content a
            (omega (arith, ap length shape, size, room)))
          (λ buf vbn s' a' short'.
            append_pad-Adds text (moved_to w buf vbn) s' (content ++ text) a' short'
              (omega (arith, ap length shape, size, room, length-append content text))))

  put_stream-Adds :
      (kind : StreamDelim) (text : List ℕ) (w : Writer) (s : S) (content : List ℕ)
      → IsWriting f Ready w s content
      → length content + length (text ++ delim kind) ≤ capacity * 512
      → Adds f Ready content (text ++ delim kind) w s (put_stream f kind text w s)
  unfolding put_stream
  put_stream-Adds kind text w s content a room =
      let size : length (text ++ delim kind) ≡ length text + length (delim kind) =
        length-append text (delim kind) in
      rw (delim_bytes kind) (
        Adds-then f Ready content text (delim kind) w s (append f text w s)
          (λ (w1, s1). append f (delim kind) w1 s1)
          (append-IsWriting f Ready capacity file small text w s content a
            (omega (arith, size, room)))
          (λ buf vbn s' a' short'.
            append-IsWriting f Ready capacity file small (delim kind) (moved_to w buf vbn) s'
              (content ++ text) a' (omega (arith, size, room, length-append content text))))

  put_variable-Adds :
      (text : List ℕ) (w : Writer) (s : S) (content : List ℕ)
      → IsWriting f Ready w s content
      → length text < 65536
      → length content + length (frame text) ≤ capacity * 512
      → Adds f Ready content (frame text) w s (put_variable f text w s)
  unfolding put_variable
  put_variable-Adds text w s content a fits room =
      let e : ltb 0xFFFF (length text) ≡ false = ground arith in
      let e' : u16 (length text) ≡ length text = omega arith in
      let size : length (text ++ pad text) ≡ length text + length (pad text) =
        length-append text (pad text) in
      rw (e, e')
        (Adds-then f Ready content (length_word text) (text ++ pad text) w s
          (append f (length_word text) w s) (λ (w1, s1). append f text w1 s1 >>= append_pad f text)
          (append-IsWriting f Ready capacity file small (length_word text) w s content a
            (omega (arith, size, room)))
          (λ buf vbn s1 a1 short1.
            Adds-then f Ready (content ++ length_word text) text (pad text) (moved_to w buf vbn) s1
              (append f text (moved_to w buf vbn) s1) (append_pad f text)
              (append-IsWriting f Ready capacity file small text (moved_to w buf vbn) s1
                (content ++ length_word text) a1
                (omega (arith, size, room, length-append content (length_word text))))
              (λ buf2 vbn2 s2 a2 short2.
                append_pad-Adds text (moved_to w buf2 vbn2) s2
                  ((content ++ length_word text) ++ text) a2 short2
                  (omega (
                    arith,
                    size,
                    room,
                    length-append content (length_word text),
                    length-append (content ++ length_word text) text,
                  )))))

  pub put_format-Adds :
      (k : RecordFormat) (text : List ℕ) (w : Writer) (s : S) (content : List ℕ)
      → IsWriting f Ready w s content
      → w.format ≡ k
      → Puttable k w.fixed_size text
      → length content + length (framed k text) ≤ capacity * 512
      → Adds f Ready content (framed k text) w s (put_format f k text w s)
  put_format-Adds undefined text w s content a e allowed room =
      put_fixed-Adds undefined text w s content a e (inr refl) allowed room
  put_format-Adds fixed text w s content a e allowed room =
      put_fixed-Adds fixed text w s content a e (inl refl) allowed room
  put_format-Adds variable text w s content a e allowed room =
      put_variable-Adds text w s content a allowed room
  put_format-Adds vfc text w s content a e allowed room =
      put_variable-Adds text w s content a allowed room
  put_format-Adds stream_lf text w s content a e allowed room =
      put_stream-Adds delim_lf text w s content a room
  put_format-Adds stream_cr text w s content a e allowed room =
      put_stream-Adds delim_cr text w s content a room
  put_format-Adds stream_crlf text w s content a e allowed room =
      put_stream-Adds delim_crlf text w s content a room

  -- Put writes a record behind all that the writer has been given, in the frame of its format,
  -- and notes where it starts.
  pub put-IsWriting :
      (text : List ℕ) (w : Writer) (s : S) (content : List ℕ)
      → IsAlone w
      → IsWriting f Ready w s content
      → Puttable w.format w.fixed_size text
      → length content + length (framed w.format text) ≤ capacity * 512
      → (buf : List ℕ) × (vbn : ℕ) × (s' : S) × (put f text w s
          ≡ ok (record w { buf = buf; vbn = vbn; record_offset = length content }, s'))
        × IsWriting f Ready
            (record w { buf = buf; vbn = vbn; record_offset = length content })
            s'
            (content ++ framed w.format text)
        × (length buf < 512)
        × (f.attributes s' ≡ f.attributes s)
  unfolding put put_record
  put-IsWriting text w s content alone a allowed room =
      let (buf, vbn, s', done, a', short, same) =
        put_format-Adds w.format text w s content a refl allowed room in
      let start : start_record f text w s ≡ ok (w, s) =
        start_anywhere f Ready text w s alone.spans in
      let place : position w ≡ length content =
        position-IsWriting f Ready capacity file small w s content a (omega (arith, room)) in
      (
        buf,
        vbn,
        s',
        if_not _ _ alone.still_open
            ∙ rw (follow_alone f Ready w s alone.unshared, start, done)
                (if_not _ _ alone.unshared
                  ∙ ap (λ (p : ℕ). ok (record w { buf = buf; vbn = vbn; record_offset = p }, s'))
                      place),
        noted f Ready (moved_to w buf vbn) s' (content ++ framed w.format text) (length content) a',
        short,
        same,
      )
