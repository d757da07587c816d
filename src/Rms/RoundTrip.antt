-- ===== src/Rms/RoundTrip.antt =====
-- rms/writer.go beside rms/reader.go: a file of records, written, closed, and read again.
mod Examples
use ods.Base.{
  ℕ, ◌+◌, ◌-◌, ◌*◌, ◌^◌, ◌≤◌, ◌<◌, ◌≡◌, refl, ap, sym, ◌∙◌, List, [], ◌∷◌, ◌++◌, append-nil,
  append_assoc, Option, some, Result, ok, err, ◌>>=◌, arith, length, drop, slice, ◌==◌, bit_and,
  not, if◌then◌else◌, if_so, Bool, true, false, All, All-append, length-append,
}
use ods.Ondisk.RecAttr.{
  RecAttr, RecordFormat, undefined, fixed, variable, vfc, stream_crlf, stream_lf, stream_cr,
  record_format, organization, attr_no_span,
}
use ods.Rms.BlockFile.{BlockFile, IsBlockFile}
use ods.Rms.BlockStream.{new_block_stream, seek}
use ods.Rms.BlockStream.Bytes.{IsFile, IsAt, seek-IsAt}
use ods.Rms.Length.{file_byte_length}
use ods.Rms.Frames.{framed, all_framed}
use ods.Rms.Reader.{Reader, new_reader}
use ods.Rms.Reader.Records.{ReadsBack, Readable, IsSized, next-ReadsBack}
use ods.Rms.Writer.{Writer, new_writer, new_appender, put, close}
use ods.Rms.Writer.Shared.{IsShared, seek-IsWriting}
use ods.Rms.Writer.Content.{IsWriting, moved_to}
use ods.Rms.Writer.Records.{IsAlone, Readable→Puttable, put-IsWriting}
use ods.Rms.Writer.Files.{IsLeft, close-IsLeft}
pub use ods.Rms.Sequential.{IsSequential}
unfoldable pub use ods.Rms.Sequential.{write_file, append_file}
use ods.Rms.Sequential.{writer_for, reader_for, new_writer-sequential, new_reader-sequential, puts}

module _ {S : Type 0} (f : BlockFile S) (Ready : S → Type 0) (capacity : ℕ)
    (file : IsBlockFile f Ready capacity) (small : capacity + 1 < 2 ^ 32) where
  puts-IsWriting :
      (texts : List (List ℕ)) (w : Writer) (s : S) (content : List ℕ)
      → IsAlone w
      → IsWriting f Ready w s content
      → length w.buf < 512
      → All (Readable w.format w.fixed_size) texts
      → length content + length (all_framed w.format texts) ≤ capacity * 512
      → (w' : Writer) × (s' : S) × (puts f texts w s ≡ ok (w', s'))
        × IsAlone w'
        × IsWriting f Ready w' s' (content ++ all_framed w.format texts)
        × (length w'.buf < 512)
        × (f.attributes s' ≡ f.attributes s)
  unfolding puts
  puts-IsWriting [] w s content alone a short p room =
      (w, s, refl, alone, rw (append-nil content) a, short, refl)
  puts-IsWriting (text ∷ more) w s content alone a short (p, ps) room =
      let one : List ℕ = framed w.format text in
      let rest : List ℕ = all_framed w.format more in
      let sum : length (one ++ rest) ≡ length one + length rest = length-append one rest in
      let (buf, vbn, s1, done, a1, short1, same1) =
        put-IsWriting f Ready capacity file small text w s content alone a
          (Readable→Puttable w.format w.fixed_size text p) (omega (arith, sum, room)) in
      let (w', s', done', alone', a', short', same') =
        puts-IsWriting more (record w { buf = buf; vbn = vbn; record_offset = length content }) s1
          (content ++ one)
          (record { still_open = alone.still_open; unshared = alone.unshared; spans = alone.spans })
          a1 short1 ps (omega (arith, sum, room, length-append content one)) in
      (
        w',
        s',
        rw done done',
        alone',
        rw (← append_assoc content one rest) a',
        short',
        same' ∙ same1,
      )

  begin-IsWriting :
      (k : RecordFormat) (s : S)
      → IsSequential k (f.attributes s)
      → Ready s
      → f.max_written s ≡ 0
      → IsWriting f Ready (writer_for k (f.attributes s)) s []
        × IsAlone (writer_for k (f.attributes s))
  unfolding writer_for
  begin-IsWriting k s a opened fresh =
      let e : (bit_and (f.attributes s).attributes attr_no_span == 0) ≡ true =
        ground (arith, a.spanning) in
      (
        record {
          ready = opened;
          starts = omega arith;
          buffered = refl;
          inside = omega arith;
          stored = λ v h. absurd (omega (arith, h));
          reached = omega arith;
          within = omega (arith, fresh);
        },
        record { still_open = refl; unshared = refl; spans = rw e refl },
      )

  -- A reader of the file that is left returns its records.
  left-ReadsBack :
      (k : RecordFormat) (texts : List (List ℕ)) (s s1 s2 : S)
      → IsSequential k (f.attributes s)
      → IsSized k (f.attributes s).max_record_size
      → All (Readable k (f.attributes s).max_record_size) texts
      → f.attributes s1 ≡ f.attributes s
      → IsLeft f s1 s2 (all_framed k texts)
      → (r : Reader) × (new_reader (f.attributes s2) ≡ ok r)
        × ReadsBack (f.read_block s2) (file_byte_length (f.attributes s2)) r texts
  unfolding reader_for new_block_stream seek
  left-ReadsBack k texts s s1 s2 seq sized p same left =
      let (eof, byte, kind) = left.same_kind in
      let attr : f.attributes s2
          ≡ record (f.attributes s) { end_of_file_block = eof; first_free_byte = byte } =
        kind
        ∙ ap (λ (t : RecAttr). record t { end_of_file_block = eof; first_free_byte = byte }) same in
      let e : (bit_and (f.attributes s).attributes attr_no_span == 0) ≡ true =
        ground (arith, seq.spanning) in
      let spans : not (bit_and (f.attributes s).attributes attr_no_span == 0) ≡ false = rw e refl in
      (
        reader_for k (f.attributes s),
        ap new_reader attr
            ∙ new_reader-sequential k
                (record (f.attributes s) { end_of_file_block = eof; first_free_byte = byte })
                (record {
                  sequential = seq.sequential;
                  formatted = seq.formatted;
                  spanning = seq.spanning;
                }),
        rw (left.long) (
            next-ReadsBack (f.read_block s2) (length (all_framed k texts)) left.whole_blocks
              left.reads texts (reader_for k (f.attributes s)) 0 spans sized
              (seek-IsAt (length (all_framed k texts)) left.whole_blocks 0) left.begins
              (omega arith) p),
      )

  -- On a block file that is open for write, has nothing written and room for the records, and
  -- whose records may cross blocks: records of any of the seven formats, put one by one and
  -- closed, are given back by a new reader, in their order, and then the end of the file. The
  -- records are ones that their format can tell apart: of the fixed size, shorter than 65535
  -- bytes, or without the delimiter.
  pub ReadsBack-write_file :
      (k : RecordFormat) (texts : List (List ℕ)) (s : S)
      → IsSequential k (f.attributes s)
      → IsSized k (f.attributes s).max_record_size
      → Ready s
      → f.max_written s ≡ 0
      → All (Readable k (f.attributes s).max_record_size) texts
      → length (all_framed k texts) ≤ capacity * 512
      → (s' : S) × (r : Reader) × (write_file f texts s ≡ ok s')
        × (new_reader (f.attributes s') ≡ ok r)
        × ReadsBack (f.read_block s') (file_byte_length (f.attributes s')) r texts
  unfolding write_file writer_for
  ReadsBack-write_file k texts s seq sized opened fresh p room =
      let (a0, alone0) = begin-IsWriting k s seq opened fresh in
      let (w1, s1, put_all, alone1, a1, short, same) =
        puts-IsWriting texts (writer_for k (f.attributes s)) s [] alone0 a0 (omega arith) p
          (omega (arith, room)) in
      let (s2, closed_, left) =
        close-IsLeft f Ready capacity file small w1 s1 (all_framed k texts) alone1 a1 short room in
      let (r, opened_, back) = left-ReadsBack k texts s s1 s2 seq sized p same left in
      (
        s2,
        r,
        rw (new_writer-sequential k (f.attributes s) seq, put_all, closed_) refl,
        opened_,
        back,
      )

  IsLeft-same : {b b' : List ℕ} (s1 s2 : S) → b ≡ b' → IsLeft f s1 s2 b → IsLeft f s1 s2 b'
  IsLeft-same s1 s2 e a = rw (← e) a

  all_framed-append :
      (k : RecordFormat) (xs ys : List (List ℕ))
      → all_framed k (xs ++ ys) ≡ all_framed k xs ++ all_framed k ys
  all_framed-append k [] ys = refl
  all_framed-append k (x ∷ xs) ys =
      ap (λ (b : List ℕ). framed k x ++ b) (all_framed-append k xs ys)
      ∙ sym (append_assoc (framed k x) (all_framed k xs) (all_framed k ys))

  -- On a block file that holds records of one of the seven formats, which may cross blocks:
  -- records appended by a new appender, and closed, are given back by a new reader behind those
  -- the file had, and then the end of the file. The records are ones that their format can tell
  -- apart, and there is room for all of them.
  pub ReadsBack-append_file :
      (k : RecordFormat) (texts more : List (List ℕ)) (s : S)
      → IsSequential k (f.attributes s)
      → IsSized k (f.attributes s).max_record_size
      → IsShared f Ready s (all_framed k texts)
      → All (Readable k (f.attributes s).max_record_size) texts
      → All (Readable k (f.attributes s).max_record_size) more
      → length (all_framed k (texts ++ more)) ≤ capacity * 512
      → (s' : S) × (r : Reader) × (append_file f more s ≡ ok s')
        × (new_reader (f.attributes s') ≡ ok r)
        × ReadsBack (f.read_block s') (file_byte_length (f.attributes s')) r (texts ++ more)
  unfolding append_file new_appender writer_for
  ReadsBack-append_file k texts more s seq sized a p q room =
      let joined : all_framed k (texts ++ more) ≡ all_framed k texts ++ all_framed k more =
        all_framed-append k texts more in
      let size : length (all_framed k (texts ++ more))
          ≡ length (all_framed k texts) + length (all_framed k more) =
        ap length joined ∙ length-append (all_framed k texts) (all_framed k more) in
      let w : Writer = writer_for k (f.attributes s) in
      let e : (bit_and (f.attributes s).attributes attr_no_span == 0) ≡ true =
        ground (arith, seq.spanning) in
      let (buf, vbn, moved, a0, short0) =
        seek-IsWriting f Ready capacity file small w s (all_framed k texts) a
          (omega (arith, size, room)) in
      let (w1, s1, put_all, alone1, a1, short, same) =
        puts-IsWriting more (moved_to w buf vbn) s (all_framed k texts)
          (record { still_open = refl; unshared = refl; spans = rw e refl }) a0 short0 q
          (omega (arith, size, room)) in
      let (s2, closed_, left) =
        close-IsLeft f Ready capacity file small w1 s1 (all_framed k texts ++ all_framed k more)
          alone1 a1 short
          (omega (arith, size, room, length-append (all_framed k texts) (all_framed k more))) in
      let left' : IsLeft f s1 s2 (all_framed k (texts ++ more)) =
        IsLeft-same s1 s2 (sym joined) left in
      let (r, opened_, back) =
        left-ReadsBack k (texts ++ more) s s1 s2 seq sized
          (All-append (Readable k (f.attributes s).max_record_size) texts more p q) same left' in
      (
        s2,
        r,
        rw (new_writer-sequential k (f.attributes s) seq, moved, put_all, closed_) refl,
        opened_,
        back,
      )
