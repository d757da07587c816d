-- ===== src/Rms/Writer/Files.antt =====
-- rms/writer.go, Close and Flush: the file that a writer leaves.
use ods.Base.{
  ℕ, ◌+◌, ◌-◌, ◌*◌, ◌^◌, ◌≤◌, ◌<◌, ◌≡◌, inl, inr, refl, ap, sym, ◌∙◌, List, ◌++◌, ok, ◌>>=◌, arith,
  length, take, slice, ltb, ltb→lt, ◌==◌, Bool-cases, true, false, length-append, length-drop,
  take_all, slice-append_left, drop-append_left, take-append, if_not, if_so,
}
use ods.Ondisk.RecAttr.{RecAttr}
use ods.Rms.BlockFile.{BlockFile, IsBlockFile, closed_attributes}
use ods.Rms.BlockStream.Bytes.{IsFile}
use ods.Rms.Length.{file_byte_length}
use ods.Rms.Writer.{Writer, final_block, close, write_final_block}
use ods.Rms.Writer.Content.{IsWriting}
use ods.Rms.Writer.Records.{IsAlone}
pub use ods.Rms.Writer.LastBlock.{IsLeft}
use ods.Rms.Writer.LastBlock.{final_block_split, closed_kind, closed_full, closed_part, the_last}

-- A file whose blocks hold `content`, the highest of them being the last written.
pub record IsStored {S : Type 0} (f : BlockFile S) (Ready : S → Type 0) (s : S) (content : List ℕ)
    : Type 0 where
  pub ready : Ready s
  pub whole_blocks : List ℕ
  pub reads : IsFile (f.read_block s) (length content) whole_blocks
  pub begins : slice whole_blocks 0 (length content) ≡ content
  pub reached : length content ≤ f.max_written s * 512
  pub within : f.max_written s * 512 < length content + 512

module _ {S : Type 0} (f : BlockFile S) (Ready : S → Type 0) (capacity : ℕ)
    (file : IsBlockFile f Ready capacity) (small : capacity + 1 < 2 ^ 32) where
  -- A change that keeps the blocks written keeps the file.
  pub IsStored-IsFile :
      (s s' : S) (content : List ℕ) (a : IsStored f Ready s content)
      → ((v : ℕ) → v ≤ f.max_written s → f.read_block s' v ≡ f.read_block s v)
      → IsFile (f.read_block s') (length content) a.whole_blocks
  IsStored-IsFile s s' content a keeps = record {
    reads = λ v h. keeps (v + 1) (omega (arith, h, a.reached)) ∙ a.reads.reads v h;
    whole = a.reads.whole;
    enough = a.reads.enough;
    bounded = a.reads.bounded;
  }

  close_alone :
      (w : Writer) (s : S)
      → IsAlone w
      → close f w s ≡ (
          write_final_block f w s >>= λ s1.
          f.close_with_final_byte (length w.buf) s1 >>= λ s2. ok (record w { closed = true }, s2))
  unfolding close
  close_alone w s alone = if_not _ _ alone.still_open ∙ if_not _ _ alone.unshared

  buffered_length :
      (w : Writer) (s : S) (content : List ℕ)
      → IsWriting f Ready w s content
      → length content ≡ (w.vbn - 1) * 512 + length w.buf
  buffered_length w s content a =
      omega (arith, ap length a.buffered, length-drop ((w.vbn - 1) * 512) content, a.inside)

  -- With a full last block, nothing is left to write.
  write_nothing-IsStored :
      (w : Writer) (s : S) (content : List ℕ)
      → IsWriting f Ready w s content
      → length w.buf ≡ 0
      → length content ≤ capacity * 512
      → (s' : S) × (write_final_block f w s ≡ ok s')
        × IsStored f Ready s' content
        × (f.attributes s' ≡ f.attributes s)
  unfolding write_final_block
  write_nothing-IsStored w s content a nothing room =
      let size : length content ≡ (w.vbn - 1) * 512 + length w.buf =
        buffered_length w s content a in
      let e : (length w.buf == 0) ≡ true = ground (arith, nothing) in
      (
        s,
        if_so _ _ e,
        record {
          ready = a.ready;
          whole_blocks = content;
          reads = record {
            reads = λ v h. a.stored v (omega (arith, h, size, nothing, a.starts));
            whole = λ v h. omega (arith, h, size, nothing);
            enough = omega arith;
            bounded = omega (arith, room, small);
          };
          begins = take_all (length content) content (omega arith);
          reached = omega (arith, size, nothing, a.reached);
          within = a.within;
        },
        refl,
      )

  write_rest-IsStored :
      (w : Writer) (s : S) (content : List ℕ)
      → IsWriting f Ready w s content
      → 0 < length w.buf
      → length w.buf < 512
      → length content ≤ capacity * 512
      → (s' : S) × (write_final_block f w s ≡ ok s')
        × IsStored f Ready s' content
        × (f.attributes s' ≡ f.attributes s)
  unfolding write_final_block
  write_rest-IsStored w s content a something short room =
      let size : length content ≡ (w.vbn - 1) * 512 + length w.buf =
        buffered_length w s content a in
      let e : (length w.buf == 0) ≡ false = ground arith in
      let (rest, split, long) = final_block_split w short in
      let whole : length (final_block w) ≡ 512 =
        ap length split ∙ omega (arith, length-append w.buf rest, long, short) in
      let (s1, wrote, write) =
        file.writes w.vbn (final_block w) s a.ready a.starts
          (omega (arith, size, something, room, a.starts)) whole in
      let top : f.max_written s1 ≡ w.vbn =
        omega (arith, write.raises_max, size, short, a.within, a.starts) in
      let all : length (content ++ rest) ≡ (w.vbn - 1) * 512 + 512 =
        omega (arith, length-append content rest, size, long, short) in
      let last : slice (content ++ rest) ((w.vbn - 1) * 512) 512 ≡ final_block w =
        ap (take 512) (
          drop-append_left ((w.vbn - 1) * 512) content rest a.inside
          ∙ ap (λ (b : List ℕ). b ++ rest) (sym a.buffered)
          ∙ sym split)
        ∙ take_all 512 (final_block w) (omega (arith, whole)) in
      (
        s1,
        if_not _ _ e ∙ wrote,
        record {
          ready = write.stays_ready;
          whole_blocks = content ++ rest;
          reads = record {
            reads = λ v h. elim (Bool-cases (ltb (v + 1) w.vbn)) [
              | inl t ↦
                  let before : v + 1 < w.vbn = ltb→lt (v + 1) w.vbn t in
                  write.keeps_blocks (v + 1) before (omega (arith, a.reached, before))
                  ∙ a.stored v before
                  ∙ ap (λ (b : List ℕ). ok b)
                      (sym (
                        slice-append_left content rest (v * 512) 512 (omega (arith, before, size))))
              | inr t ↦
                  let here : v + 1 ≡ w.vbn =
                    the_last v w.vbn (length w.buf) a.starts t (omega (arith, h, size)) short in
                  let place : (w.vbn - 1) * 512 ≡ v * 512 = omega (arith, here) in
                  ap (f.read_block s1) here
                  ∙ write.reads_block
                  ∙ ap (λ (b : List ℕ). ok b) (sym last)
                  ∙ ap (λ (k : ℕ). ok (slice (content ++ rest) k 512)) place
            ];
            whole = λ v h. omega (arith, h, all, size, short);
            enough = omega (arith, length-append content rest);
            bounded = omega (arith, room, small);
          };
          begins = take-append content rest;
          reached = omega (arith, size, top, short, a.starts);
          within = omega (arith, size, top, something, a.starts);
        },
        write.keeps_attributes,
      )

  -- The last, partly filled block in the file: it holds all that the writer has been given.
  pub write_final_block-IsStored :
      (w : Writer) (s : S) (content : List ℕ)
      → IsWriting f Ready w s content
      → length w.buf < 512
      → length content ≤ capacity * 512
      → (s' : S) × (write_final_block f w s ≡ ok s')
        × IsStored f Ready s' content
        × (f.attributes s' ≡ f.attributes s)
  write_final_block-IsStored w s content a short room = elim (Bool-cases (ltb 0 (length w.buf))) [
    | inl t ↦ write_rest-IsStored w s content a (ltb→lt 0 (length w.buf) t) short room
    | inr t ↦ write_nothing-IsStored w s content a (ground (arith, t)) room
  ]

  -- The length that a close with `final_byte` bytes in the last block records.
  closed_long :
      (s : S) (content : List ℕ) (final_byte full : ℕ)
      → IsStored f Ready s content
      → length content ≡ full * 512 + final_byte
      → final_byte < 512
      → length content ≤ capacity * 512
      → file_byte_length (closed_attributes (f.max_written s) final_byte (f.attributes s))
        ≡ length content
  closed_long s content final_byte full a size short room = elim (Bool-cases (ltb 0 final_byte)) [
    | inl t ↦
        let some_bytes : 0 < final_byte = ltb→lt 0 final_byte t in
        let top : f.max_written s ≡ full + 1 =
          omega (arith, size, short, some_bytes, a.reached, a.within) in
        closed_part (f.max_written s) final_byte (f.attributes s) (omega (arith, top)) some_bytes
        ∙ omega (arith, top, size)
    | inr t ↦
        let none_left : final_byte ≡ 0 = ground (arith, t) in
        let top : f.max_written s * 512 ≡ length content =
          omega (arith, size, none_left, a.reached, a.within) in
        ap (λ (n : ℕ). file_byte_length (closed_attributes (f.max_written s) n (f.attributes s)))
          none_left
        ∙ closed_full (f.max_written s) (f.attributes s) (omega (arith, top, room, small))
        ∙ top
  ]

  -- Close of an open, unshared writer, of records that may cross blocks, succeeds where there is
  -- room, and leaves a file of the bytes that the writer has been given: its blocks hold them, in
  -- their order, and its attributes give their length.
  pub close-IsLeft :
      (w : Writer) (s : S) (content : List ℕ)
      → IsAlone w
      → IsWriting f Ready w s content
      → length w.buf < 512
      → length content ≤ capacity * 512
      → (s' : S) × (close f w s ≡ ok (record w { closed = true }, s')) × IsLeft f s s' content
  close-IsLeft w s content alone a short room =
      let size : length content ≡ (w.vbn - 1) * 512 + length w.buf =
        buffered_length w s content a in
      let (s1, wrote, stored, same) = write_final_block-IsStored w s content a short room in
      let (s2, done, left) = file.closes (length w.buf) s1 stored.ready short in
      let (eof, byte, kind) = closed_kind (f.max_written s1) (length w.buf) (f.attributes s1) in
      (
        s2,
        close_alone w s alone ∙ rw (wrote, done) refl,
        record {
          whole_blocks = stored.whole_blocks;
          reads = IsStored-IsFile s1 s2 content stored left.keeps_blocks;
          begins = stored.begins;
          long =
              ap file_byte_length left.records_end
              ∙ closed_long s1 content (length w.buf) (w.vbn - 1) stored size short room;
          same_kind = (
            eof,
            byte,
            left.records_end
                ∙ kind
                ∙ ap (λ (t : RecAttr). record t { end_of_file_block = eof; first_free_byte = byte })
                    same,
          );
        },
      )
