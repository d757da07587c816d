-- ===== src/Rms/Writer/Shared.antt =====
-- rms/writer.go, SetShared: writers that share a file, and the records they append to it.
use ods.Base.{
  ℕ, ◌+◌, ◌*◌, ◌/◌, ◌%◌, ◌^◌, ◌≤◌, ◌<◌, ◌≡◌, refl, ap, ◌∙◌, List, [], ◌∷◌, ◌++◌, append-nil,
  append_assoc, Result, ok, ◌>>=◌, arith, length, if_so, if_not, true, false, length-append,
}
use ods.Base.Word.{u32}
use ods.Ondisk.RecAttr.{RecAttr, RecordFormat}
use ods.Rms.BlockFile.{BlockFile, IsBlockFile, end_of_file_at}
use ods.Rms.Frames.{framed, all_framed}
use ods.Rms.Reader.Records.{Readable}
use ods.Rms.Writer.{Writer, put, put_record, position}
use ods.Rms.Writer.Content.{moved_to, position-IsWriting}
use ods.Rms.Writer.Records.{Puttable, Readable→Puttable, put_format-Adds, start_anywhere, noted}
pub use ods.Rms.Writer.EndOfFile.{IsShared, seek-IsWriting}
use ods.Rms.Writer.EndOfFile.{follow_end-IsWriting, flush_buffer-IsShared}

-- One of its writers: records may cross blocks, and what it has buffered is anything.
pub record IsSharing (w : Writer) : Type 0 where
  pub still_open : w.closed ≡ false
  pub shared : w.shared ≡ true
  pub spans : w.no_span ≡ false

-- Nothing but the end of the file has changed in its attributes.
abbrev pub SameKind : {S : Type 0} → BlockFile S → S → S → Type 0
SameKind f s s' =
    (eof : ℕ) × (byte : ℕ) × (f.attributes s'
      ≡ record (f.attributes s) { end_of_file_block = eof; first_free_byte = byte })

abbrev pub texts_of : List (Writer × List ℕ) → List (List ℕ)
texts_of [] = []
texts_of ((w, text) ∷ more) = text ∷ texts_of more

-- Each of them shares the file, and its record is one of format `k`.
abbrev pub AllSharing : RecordFormat → ℕ → List (Writer × List ℕ) → Type 0
AllSharing k size [] = 0 < 1
AllSharing k size ((w, text) ∷ more) =
    (IsSharing w × (w.format ≡ k) × (w.fixed_size ≡ size) × Readable k size text)
    × AllSharing k size more

module _ {S : Type 0} (f : BlockFile S) where
  -- A run of records that the writers of a file put, in the order in which they do.
  pub puts_shared : List (Writer × List ℕ) → S → Result S
  puts_shared [] s = ok s
  puts_shared ((w, text) ∷ more) s = put f text w s >>= λ (w', s'). puts_shared more s'

module _ {S : Type 0} (f : BlockFile S) (Ready : S → Type 0) (capacity : ℕ)
    (file : IsBlockFile f Ready capacity) (small : capacity + 1 < 2 ^ 32) where
  -- Put of a shared writer, whatever it has buffered from before, adds its record behind all that the
  -- file has, and the record is in the file, with the end of the file behind it, when Put returns.
  pub put-IsShared :
      (text : List ℕ) (w : Writer) (s : S) (content : List ℕ)
      → IsSharing w
      → IsShared f Ready s content
      → Puttable w.format w.fixed_size text
      → length content + length (framed w.format text) ≤ capacity * 512
      → (w' : Writer) × (s' : S) × (put f text w s ≡ ok (w', s'))
        × IsShared f Ready s' (content ++ framed w.format text)
        × (w'.record_offset ≡ length content)
        × SameKind f s s'
  unfolding put put_record end_of_file_at
  put-IsShared text w s content sharing a allowed room =
      let all : List ℕ = content ++ framed w.format text in
      let size : length all ≡ length content + length (framed w.format text) =
        length-append content (framed w.format text) in
      let (buf0, vbn0, followed, a0) =
        follow_end-IsWriting f Ready capacity file small w s content sharing.shared a
          (omega (arith, room)) in
      let w0 : Writer = moved_to w buf0 vbn0 in
      let start = start_anywhere f Ready text w0 s sharing.spans in
      let (buf1, vbn1, s1, done, a1, short, same) =
        put_format-Adds f Ready capacity file small w.format text w0 s content a0 refl allowed
          room in
      let place : position w0 ≡ length content =
        position-IsWriting f Ready capacity file small w0 s content a0 (omega (arith, room)) in
      let w1 : Writer = record w { buf = buf1; vbn = vbn1; record_offset = length content } in
      let (s2, flushed, shared, attr) =
        flush_buffer-IsShared f Ready capacity file small w1 s1 all
          (noted f Ready (moved_to w buf1 vbn1) s1 all (length content) a1) short
          (omega (arith, size, room)) in
      (
        w1,
        s2,
        if_not _ _ sharing.still_open
            ∙ rw (followed, start, done, place) (if_so _ _ sharing.shared ∙ rw flushed refl),
        shared,
        refl,
        (
          u32 (u32 (length all / 512) + 1),
          length all % 512,
          attr ∙ ap (end_of_file_at (u32 (u32 (length all / 512) + 1)) (length all % 512)) same,
        ),
      )

  IsShared-same : {b b' : List ℕ} (s : S) → b ≡ b' → IsShared f Ready s b → IsShared f Ready s b'
  IsShared-same s e a = rw (← e) a

  -- However the records of writers that share a file alternate, whatever each has buffered, none
  -- is lost or overwritten: the file has them behind what it had, in the order in which they were
  -- put, and its attributes give the whole length. The writers are open ones of the file's
  -- format, the records may cross blocks and are ones that their format can tell apart, and there
  -- is room for them.
  pub puts_shared-IsShared :
      (k : RecordFormat) (size : ℕ) (turns : List (Writer × List ℕ)) (s : S) (content : List ℕ)
      → AllSharing k size turns
      → IsShared f Ready s content
      → length content + length (all_framed k (texts_of turns)) ≤ capacity * 512
      → (s' : S) × (puts_shared f turns s ≡ ok s')
        × IsShared f Ready s' (content ++ all_framed k (texts_of turns))
        × SameKind f s s'
  unfolding puts_shared
  puts_shared-IsShared k size [] s content p a room = (
    s,
    refl,
    rw (append-nil content) a,
    ((f.attributes s).end_of_file_block, (f.attributes s).first_free_byte, refl),
  )
  puts_shared-IsShared k size ((w, text) ∷ more) s content ((sharing, format, sized, readable), p) a
        room =
      let shape : framed w.format text ≡ framed k text =
        ap (λ (r : RecordFormat). framed r text) format in
      let rest : List ℕ = all_framed k (texts_of more) in
      let sum : length (framed k text ++ rest) ≡ length (framed k text) + length rest =
        length-append (framed k text) rest in
      let joined : length (content ++ framed k text) ≡ length content + length (framed k text) =
        length-append content (framed k text) in
      let fits : length content + length (framed w.format text) ≤ capacity * 512 =
        omega (arith, ap length shape, sum, room) in
      let allowed : Puttable w.format w.fixed_size text =
        rw (format, sized) (Readable→Puttable k size text readable) in
      let (w', s1, done, a1, place, (eof, byte, kind)) =
        put-IsShared text w s content sharing a allowed fits in
      let a1' : IsShared f Ready s1 (content ++ framed k text) =
        IsShared-same s1 (ap (λ (b : List ℕ). content ++ b) shape) a1 in
      let (s2, done', a2, (eof', byte', kind')) =
        puts_shared-IsShared k size more s1 (content ++ framed k text) p a1'
          (omega (arith, joined, sum, room)) in
      (
        s2,
        rw done done',
        IsShared-same s2 (append_assoc content (framed k text) rest) a2,
        (
          eof',
          byte',
          kind'
              ∙ ap (λ (t : RecAttr). record t { end_of_file_block = eof'; first_free_byte = byte' })
                  kind,
        ),
      )
