-- ===== src/Rms/BlockStream/Bytes.antt =====
-- rms/blockstream.go: the stream beside the file's bytes as one list.
use ods.Base.{
  ℕ, ◌+◌, ◌-◌, ◌≤◌, ◌<◌, ◌≡◌, inr, refl, ap, ◌∙◌, List, none, some, ok, err, end_of_file,
  unexpected_eof, arith, get_or, slice, ◌==◌, if◌then◌else◌, length-drop,
}
use ods.Rms.BlockStream.{
  BlockSource, BlockStream, unread, fill, peek, read_full, read_byte, offset, seek,
}
pub use ods.Rms.BlockStream.Rounds.{IsFile, IsAt}
use ods.Rms.BlockStream.Rounds.{
  after_read_full_done, after_read_full_failed, after_peek_done, after_peek_failed,
  after_read_byte_done, after_read_byte_failed, first_taken,
}
use ods.Rms.BlockStream.Filling.{fill-Filled, IsAt-consume, Filled-all, Filled-end}

module _ (source : BlockSource) (limit : ℕ) (bytes : List ℕ)
    (file : IsFile source limit bytes) where
  -- Where the file has the bytes asked for, ReadFull returns those from the stream's place on,
  -- whichever blocks they are in, and moves behind them.
  pub read_full-bytes :
      (n o : ℕ) (s : BlockStream)
      → IsAt limit bytes s o
      → o + n ≤ limit
      → (s' : BlockStream) × (read_full source limit n s ≡ (s', ok (slice bytes o n)))
        × IsAt limit bytes s' (o + n)
  unfolding read_full
  read_full-bytes n o s a h =
      let f = fill-Filled source limit bytes file n o s a in
      let (done, enough) = Filled-all limit bytes n o (fill source limit n s) f h in
      let (next, got) = IsAt-consume limit bytes n o (fill source limit n s).0 f.at_same enough in
      (
        record (fill source limit n s).0 { buf_off = (fill source limit n s).0.buf_off + n },
        after_read_full_done n (fill source limit n s) done
            ∙ ap
                (λ (b : List ℕ). (
                  record (fill source limit n s).0 {
                    buf_off = (fill source limit n s).0.buf_off + n;
                  },
                  ok b,
                ))
                got,
        next,
      )

  pub read_full_short :
      (n o : ℕ) (s : BlockStream)
      → IsAt limit bytes s o
      → limit < o + n
      → 0 < n
      → (s' : BlockStream) × IsAt limit bytes s' o
        × (unread s' ≡ slice bytes o (limit - o))
        × (read_full source limit n s
            ≡ (s', err (if limit - o == 0 then end_of_file else unexpected_eof)))
  unfolding read_full
  read_full_short n o s a h p =
      let f = fill-Filled source limit bytes file n o s a in
      let (failed, left) = Filled-end limit bytes n o (fill source limit n s) f h p in
      (
        (fill source limit n s).0,
        f.at_same,
        f.at_same.holds ∙ ap (λ (k : ℕ). slice bytes o k) left,
        after_read_full_failed n (fill source limit n s) end_of_file failed
            ∙ ap
                (λ (k : ℕ).
                  ((fill source limit n s).0, err (if k == 0 then end_of_file else unexpected_eof)))
                left,
      )

  pub peek-bytes :
      (n o : ℕ) (s : BlockStream)
      → IsAt limit bytes s o
      → o + n ≤ limit
      → (s' : BlockStream) × (peek source limit n s ≡ (s', some (slice bytes o n)))
        × IsAt limit bytes s' o
  unfolding peek
  peek-bytes n o s a h =
      let f = fill-Filled source limit bytes file n o s a in
      let (done, enough) = Filled-all limit bytes n o (fill source limit n s) f h in
      let (next, got) = IsAt-consume limit bytes n o (fill source limit n s).0 f.at_same enough in
      (
        (fill source limit n s).0,
        after_peek_done n (fill source limit n s) done
            ∙ ap (λ (b : List ℕ). ((fill source limit n s).0, some b)) got,
        f.at_same,
      )

  pub peek_short :
      (n o : ℕ) (s : BlockStream)
      → IsAt limit bytes s o
      → limit < o + n
      → 0 < n
      → (s' : BlockStream) × (peek source limit n s ≡ (s', none)) × IsAt limit bytes s' o
  unfolding peek
  peek_short n o s a h p =
      let f = fill-Filled source limit bytes file n o s a in
      let (failed, left) = Filled-end limit bytes n o (fill source limit n s) f h p in
      (
        (fill source limit n s).0,
        after_peek_failed n (fill source limit n s) end_of_file failed,
        f.at_same,
      )

  pub read_byte-bytes :
      (o : ℕ) (s : BlockStream)
      → IsAt limit bytes s o
      → o + 1 ≤ limit
      → (s' : BlockStream) × (read_byte source limit s ≡ (s', ok (get_or (slice bytes o 1) 0 0)))
        × IsAt limit bytes s' (o + 1)
  unfolding read_byte
  read_byte-bytes o s a h =
      let f = fill-Filled source limit bytes file 1 o s a in
      let (done, enough) = Filled-all limit bytes 1 o (fill source limit 1 s) f h in
      let (next, got) = IsAt-consume limit bytes 1 o (fill source limit 1 s).0 f.at_same enough in
      (
        record (fill source limit 1 s).0 { buf_off = (fill source limit 1 s).0.buf_off + 1 },
        after_read_byte_done (fill source limit 1 s) done
            ∙ ap
                (λ (b : ℕ). (
                  record (fill source limit 1 s).0 {
                    buf_off = (fill source limit 1 s).0.buf_off + 1;
                  },
                  ok b,
                ))
                (first_taken (unread (fill source limit 1 s).0)
                  ∙ ap (λ (b : List ℕ). get_or b 0 0) got),
        next,
      )

  pub read_byte_end :
      (o : ℕ) (s : BlockStream)
      → IsAt limit bytes s o
      → limit ≤ o
      → (s' : BlockStream) × (read_byte source limit s ≡ (s', err end_of_file))
        × IsAt limit bytes s' o
  unfolding read_byte
  read_byte_end o s a h =
      let f = fill-Filled source limit bytes file 1 o s a in
      let (failed, left) =
        Filled-end limit bytes 1 o (fill source limit 1 s) f (omega arith) (omega arith) in
      (
        (fill source limit 1 s).0,
        after_read_byte_failed (fill source limit 1 s) end_of_file failed,
        f.at_same,
      )

-- A stream moved to a place is there, and says so.
pub seek-IsAt : (limit : ℕ) (bytes : List ℕ) (o : ℕ) → IsAt limit bytes (seek o) o
unfolding seek
seek-IsAt limit bytes o = record {
  inside = omega arith;
  here = omega arith;
  holds = refl;
  ahead = inr refl;
}

pub offset-IsAt :
    (limit : ℕ) (bytes : List ℕ) (s : BlockStream) (o : ℕ) → IsAt limit bytes s o → offset s ≡ o
unfolding offset
offset-IsAt limit bytes s o a = omega (arith, a.inside, a.here, length-drop s.buf_off s.buf)
