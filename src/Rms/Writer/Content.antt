-- ===== src/Rms/Writer/Content.antt =====
-- rms/writer.go: the bytes that a writer has been given, in the file's blocks and in its buffer.
use ods.Base.{
  ℕ, zero, suc, ◌+◌, ◌-◌, ◌*◌, ◌^◌, ◌≤◌, ◌<◌, ◌≡◌, ◌⊎◌, inl, inr, refl, ap, sym, ◌∙◌, List, ◌++◌,
  ok, arith, length, take, drop, slice, ltb, Bool-cases, true, length-append, length-take,
  length-drop, drop-drop, drop-append_left, slice-append_left,
}
use ods.Base.Word.{u32}
use ods.Rms.BlockFile.{BlockFile, IsBlockFile}
use ods.Rms.Writer.{Writer, append, append_rounds, position}

-- The writer has been given `content`: the file's blocks before its own have the first of it, and its
-- buffer the rest.
pub record IsWriting {S : Type 0} (f : BlockFile S) (Ready : S → Type 0) (w : Writer) (s : S)
    (content : List ℕ) : Type 0 where
  pub ready : Ready s
  pub starts : 0 < w.vbn
  pub buffered : w.buf ≡ drop ((w.vbn - 1) * 512) content
  pub inside : (w.vbn - 1) * 512 ≤ length content
  pub stored : (v : ℕ) → v + 1 < w.vbn → f.read_block s (v + 1) ≡ ok (slice content (v * 512) 512)
  pub reached : w.vbn ≤ f.max_written s + 1
  pub within : f.max_written s * 512 < length content + 512

-- A writer that has moved on in its file.
abbrev pub moved_to : Writer → List ℕ → ℕ → Writer
moved_to w buf vbn = record w { buf = buf; vbn = vbn }

module _ {S : Type 0} (f : BlockFile S) (Ready : S → Type 0) (capacity : ℕ)
    (file : IsBlockFile f Ready capacity) (small : capacity + 1 < 2 ^ 32) where
  -- One full block goes from the buffer to the file.
  write_full :
      (w : Writer) (s : S) (content : List ℕ)
      → IsWriting f Ready w s content
      → 512 ≤ length w.buf
      → length content ≤ capacity * 512
      → (s' : S) × (f.write_block w.vbn (take 512 w.buf) s ≡ ok s')
        × IsWriting f Ready (moved_to w (drop 512 w.buf) (u32 (w.vbn + 1))) s' content
        × (f.attributes s' ≡ f.attributes s)
  write_full w s content a full room =
      let size : length w.buf ≡ length content - (w.vbn - 1) * 512 =
        ap length a.buffered ∙ length-drop ((w.vbn - 1) * 512) content in
      let whole : length (take 512 w.buf) ≡ 512 = omega (arith, length-take 512 w.buf, full) in
      let (s', done, wrote) =
        file.writes w.vbn (take 512 w.buf) s a.ready a.starts
          (omega (arith, size, full, room, a.starts)) whole in
      let next : u32 (w.vbn + 1) ≡ w.vbn + 1 = omega (arith, size, full, room, a.starts, small) in
      (
        s',
        done,
        record {
          ready = wrote.stays_ready;
          starts = omega (arith, next);
          buffered =
              ap (drop 512) a.buffered
              ∙ drop-drop 512 ((w.vbn - 1) * 512) content
              ∙ ap (λ (k : ℕ). drop k content) (omega (arith, next, a.starts));
          inside = omega (arith, next, size, full, a.starts);
          stored = λ v h. elim (compare_block v h) [
            | inl before ↦
                wrote.keeps_blocks (v + 1) before (omega (arith, a.reached, before))
                ∙ a.stored v before
            | inr here ↦
                let place : (w.vbn - 1) * 512 ≡ v * 512 = omega (arith, here) in
                ap (f.read_block s') here
                ∙ wrote.reads_block
                ∙ ap (λ (b : List ℕ). ok (take 512 b)) a.buffered
                ∙ ap (λ (k : ℕ). ok (slice content k 512)) place
          ];
          reached = omega (arith, next, wrote.raises_max);
          within = omega (arith, wrote.raises_max, a.within, size, full, a.starts);
        },
        wrote.keeps_attributes,
      )
    where
      compare_block : (v : ℕ) → v + 1 < u32 (w.vbn + 1) → (v + 1 < w.vbn) ⊎ (v + 1 ≡ w.vbn)
      compare_block v h = elim (Bool-cases (ltb (v + 1) w.vbn)) [
        | inl t ↦ inl (ground (arith, t))
        | inr t ↦ inr (ground (arith, t, h))
      ]

  append_rounds-IsWriting :
      (fuel : ℕ) (w : Writer) (s : S) (content : List ℕ)
      → IsWriting f Ready w s content
      → length w.buf ≤ fuel
      → length content ≤ capacity * 512
      → (buf : List ℕ) × (vbn : ℕ) × (s' : S) × (append_rounds f fuel w s
          ≡ ok (moved_to w buf vbn, s'))
        × IsWriting f Ready (moved_to w buf vbn) s' content
        × (length buf < 512)
        × (f.attributes s' ≡ f.attributes s)
  unfolding append_rounds
  append_rounds-IsWriting zero w s content a h room =
      let e : ltb (length w.buf) 512 ≡ true = ground (arith, h) in
      (w.buf, w.vbn, s, rw e refl, a, omega (arith, h), refl)
  append_rounds-IsWriting (suc fuel) w s content a h room =
      elim (Bool-cases (ltb (length w.buf) 512)) [
        | inl e ↦ (w.buf, w.vbn, s, rw e refl, a, ground (arith, e), refl)
        | inr e ↦
            let full : 512 ≤ length w.buf = ground (arith, e) in
            let (s1, done, a1, same) = write_full w s content a full room in
            let (buf, vbn, s2, more, a2, short, same2) =
              append_rounds-IsWriting fuel (moved_to w (drop 512 w.buf) (u32 (w.vbn + 1))) s1
                content a1 (omega (arith, length-drop 512 w.buf, full, h)) room in
            (buf, vbn, s2, rw (e, done) more, a2, short, same2 ∙ same)
      ]

  -- Bytes added to the writer follow those it has been given, and less than a block of them stays
  -- in the buffer.
  pub append-IsWriting :
      (body : List ℕ) (w : Writer) (s : S) (content : List ℕ)
      → IsWriting f Ready w s content
      → length content + length body ≤ capacity * 512
      → (buf : List ℕ) × (vbn : ℕ) × (s' : S) × (append f body w s ≡ ok (moved_to w buf vbn, s'))
        × IsWriting f Ready (moved_to w buf vbn) s' (content ++ body)
        × (length buf < 512)
        × (f.attributes s' ≡ f.attributes s)
  unfolding append
  append-IsWriting body w s content a room =
      append_rounds-IsWriting (length (w.buf ++ body)) (record w { buf = w.buf ++ body }) s
        (content ++ body) extended (omega arith) (omega (arith, length-append content body, room))
    where
      extended : IsWriting f Ready (record w { buf = w.buf ++ body }) s (content ++ body)
      extended = record {
        ready = a.ready;
        starts = a.starts;
        buffered =
            ap (λ (b : List ℕ). b ++ body) a.buffered
            ∙ sym (drop-append_left ((w.vbn - 1) * 512) content body a.inside);
        inside = omega (arith, a.inside, length-append content body);
        stored = λ v h.
            a.stored v h
            ∙ ap (λ (b : List ℕ). ok b)
                (sym (slice-append_left content body (v * 512) 512 (omega (arith, a.inside, h))));
        reached = a.reached;
        within = omega (arith, a.within, length-append content body);
      }

  -- The writer stands behind what it has been given.
  pub position-IsWriting :
      (w : Writer) (s : S) (content : List ℕ)
      → IsWriting f Ready w s content
      → length content ≤ capacity * 512
      → position w ≡ length content
  unfolding position
  position-IsWriting w s content a room = omega (
    arith,
    ap length a.buffered,
    length-drop ((w.vbn - 1) * 512) content,
    a.starts,
    a.inside,
    small,
  )
