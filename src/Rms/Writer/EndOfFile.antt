-- ===== src/Rms/Writer/EndOfFile.antt =====
-- rms/writer.go: a shared file, and a writer at its end.
use ods.Base.{
  ℕ, ◌+◌, ◌-◌, ◌*◌, ◌/◌, ◌%◌, ◌^◌, ◌≤◌, ◌<◌, ◌≡◌, refl, ap, sym, ◌∙◌, List, [], ok, arith, inl, inr,
  length, take, drop, slice, ◌==◌, if_so, Bool-cases, true, length-take, drop_all,
}
use ods.Base.Word.{u32}
use ods.Rms.BlockFile.{BlockFile, IsBlockFile, end_of_file_at}
use ods.Rms.Length.{file_byte_length}
use ods.Rms.Writer.{Writer, position, follow_end, seek, flush_buffer}
use ods.Rms.Writer.Content.{IsWriting, moved_to, position-IsWriting}
use ods.Rms.Writer.Files.{IsStored, write_final_block-IsStored, IsStored-IsFile}
use ods.Rms.Writer.Tail.{slice-begins, partial_block, end_of_file_long}

-- A file that writers share: its blocks hold `content`, and its attributes give that length.
pub record IsShared {S : Type 0} (f : BlockFile S) (Ready : S → Type 0) (s : S) (content : List ℕ)
    : Type 0 where
  pub stored : IsStored f Ready s content
  pub long : file_byte_length (f.attributes s) ≡ length content

module _ {S : Type 0} (f : BlockFile S) (Ready : S → Type 0) (capacity : ℕ)
    (file : IsBlockFile f Ready capacity) (small : capacity + 1 < 2 ^ 32) where
  -- A writer moved to the end of the file, whatever it had buffered.
  pub seek-IsWriting :
      (w : Writer) (s : S) (content : List ℕ)
      → IsShared f Ready s content
      → length content ≤ capacity * 512
      → (buf : List ℕ) × (vbn : ℕ) × (seek f (file_byte_length (f.attributes s)) w s
          ≡ ok (moved_to w buf vbn))
        × IsWriting f Ready (moved_to w buf vbn) s content
        × (length buf < 512)
  unfolding seek
  seek-IsWriting w s content a room =
      let n : ℕ = length content in
      let number : u32 (u32 (n / 512) + 1) ≡ n / 512 + 1 = omega (arith, room, small) in
      elim (Bool-cases (n % 512 == 0)) [
        | inl e ↦
            let even : n % 512 ≡ 0 = ground (arith, e) in
            (
              [],
              n / 512 + 1,
              rw (a.long, e, number) refl,
              at_end [] (sym (drop_all ((n / 512 + 1 - 1) * 512) content (omega (arith, even)))),
              omega arith,
            )
        | inr e ↦
            let odd : 0 < n % 512 = ground (arith, e) in
            let block : f.read_block s (n / 512 + 1)
                ≡ ok (slice a.stored.whole_blocks (n / 512 * 512) 512) =
              a.stored.reads.reads (n / 512) (omega (arith, odd)) in
            (
              take (n % 512) (slice a.stored.whole_blocks (n / 512 * 512) 512),
              n / 512 + 1,
              rw (a.long, e, number, block) refl,
              at_end (take (n % 512) (slice a.stored.whole_blocks (n / 512 * 512) 512))
                  (partial_block a.stored.whole_blocks content a.stored.begins),
              omega
                  (arith, length-take (n % 512) (slice a.stored.whole_blocks (n / 512 * 512) 512)),
            )
      ]
    where
      at_end :
          (buf : List ℕ)
          → buf ≡ drop ((length content / 512 + 1 - 1) * 512) content
          → IsWriting f Ready (moved_to w buf (length content / 512 + 1)) s content
      at_end buf e = record {
        ready = a.stored.ready;
        starts = omega arith;
        buffered = e;
        inside = omega arith;
        stored = λ v h.
            a.stored.reads.reads v (omega (arith, h))
            ∙ ap (λ (b : List ℕ). ok b)
                (slice-begins a.stored.whole_blocks content (v * 512) 512 a.stored.begins
                  (omega (arith, h)));
        reached = omega (arith, a.stored.reached);
        within = a.stored.within;
      }

  pub follow_end-IsWriting :
      (w : Writer) (s : S) (content : List ℕ)
      → w.shared ≡ true
      → IsShared f Ready s content
      → length content ≤ capacity * 512
      → (buf : List ℕ) × (vbn : ℕ) × (follow_end f w s ≡ ok (moved_to w buf vbn))
        × IsWriting f Ready (moved_to w buf vbn) s content
  unfolding follow_end
  follow_end-IsWriting w s content shared a room =
      let (buf, vbn, moved, writing, short) = seek-IsWriting w s content a room in
      (buf, vbn, if_so _ _ shared ∙ moved, writing)

  pub flush_buffer-IsShared :
      (w : Writer) (s : S) (content : List ℕ)
      → IsWriting f Ready w s content
      → length w.buf < 512
      → length content ≤ capacity * 512
      → (s' : S) × (flush_buffer f w s ≡ ok s')
        × IsShared f Ready s' content
        × (f.attributes s'
            ≡ end_of_file_at
                (u32 (u32 (length content / 512) + 1))
                (length content % 512)
                (f.attributes s))
  unfolding flush_buffer
  flush_buffer-IsShared w s content a short room =
      let n : ℕ = length content in
      let (s1, wrote, stored, same) =
        write_final_block-IsStored f Ready capacity file small w s content a short room in
      let place : position w ≡ n =
        position-IsWriting f Ready capacity file small w s content a room in
      let (attr, keeps, top, ready) =
        file.sets_end (u32 (u32 (n / 512) + 1)) (n % 512) s1 stored.ready (omega arith)
          (omega arith) in
      let s2 : S = f.set_end_of_file (u32 (u32 (n / 512) + 1)) (n % 512) s1 in
      let attr' : f.attributes s2
          ≡ end_of_file_at (u32 (u32 (n / 512) + 1)) (n % 512) (f.attributes s) =
        attr ∙ ap (end_of_file_at (u32 (u32 (n / 512) + 1)) (n % 512)) same in
      (
        s2,
        rw (wrote, place) refl,
        record {
          stored = record {
            ready = ready;
            whole_blocks = stored.whole_blocks;
            reads = IsStored-IsFile f Ready capacity file small s1 s2 content stored keeps;
            begins = stored.begins;
            reached = omega (arith, top, stored.reached);
            within = omega (arith, top, stored.within);
          };
          long =
              ap file_byte_length attr'
              ∙ end_of_file_long n (f.attributes s) (omega (arith, room, small));
        },
        attr',
      )
