-- ===== src/Rms/BlockStream/Filling.antt =====
-- rms/blockstream.go: what is in the buffer after fill.
use ods.Base.{
  ℕ, zero, suc, ◌+◌, ◌-◌, ◌*◌, ◌/◌, ◌≤◌, ◌<◌, ◌≡◌, inl, inr, refl, ap, sym, ◌∙◌, List, Option, none,
  some, Error, ok, end_of_file, arith, length, take, drop, slice, ltb, leb, ltb→lt, leb→le,
  Bool-cases, false, length-drop, drop-drop, take-take, drop-take,
}
use ods.Base.Word.{u32}
use ods.Rms.BlockStream.{
  BlockSource, BlockStream, unread, add_block, fetch_block, fill_rounds, fill,
}
use ods.Rms.BlockStream.Rounds.{IsFile, IsAt}
use ods.Rms.BlockStream.Rounds.{Filled, add_block-IsAt, block_number}

module _ (source : BlockSource) (limit : ℕ) (bytes : List ℕ)
    (file : IsFile source limit bytes) where
  fill_rounds-Filled :
      (fuel n o : ℕ) (s : BlockStream)
      → IsAt limit bytes s o
      → n ≤ length (unread s) + fuel
      → Filled limit bytes n o (fill_rounds source limit fuel n s)
  unfolding fill_rounds fetch_block
  fill_rounds-Filled zero n o s a h =
      let e : ltb (length (unread s)) n ≡ false = ground arith in
      rw e (record { at_same = a; outcome = inl (refl, omega arith) })
  fill_rounds-Filled (suc fuel) n o s a h = elim (Bool-cases (ltb (length (unread s)) n)) [
    | inr t ↦ rw t (record { at_same = a; outcome = inl (refl, ground (arith, t)) })
    | inl t ↦ elim (Bool-cases (leb limit s.fetched)) [
      | inl e ↦
          rw (t, e)
            (record {
              at_same = a;
              outcome = inr (refl, ltb→lt (length (unread s)) n t, leb→le limit s.fetched e);
            })
      | inr e ↦
          let before : s.fetched < limit = ground (arith, e) in
          let first : s.fetched / 512 * 512 < limit = omega arith in
          let number : u32 (u32 (s.fetched / 512) + 1) ≡ s.fetched / 512 + 1 =
            block_number s.fetched (omega (arith, file.bounded)) in
          let got : source (u32 (u32 (s.fetched / 512) + 1))
              ≡ ok (slice bytes (s.fetched / 512 * 512) 512) =
            ap source number ∙ file.reads (s.fetched / 512) first in
          let (next, more) =
            add_block-IsAt limit bytes s o a before (file.whole (s.fetched / 512) first) in
          rw (t, e, got)
            (fill_rounds-Filled fuel n o
              (add_block limit s (slice bytes (s.fetched / 512 * 512) 512)) next
              (omega (arith, more, h)))
    ]
  ]

  pub fill-Filled :
      (n o : ℕ) (s : BlockStream)
      → IsAt limit bytes s o
      → Filled limit bytes n o (fill source limit n s)
  unfolding fill
  fill-Filled n o s a = fill_rounds-Filled n n o s a (omega arith)

module _ (limit : ℕ) (bytes : List ℕ) where
  -- Consuming what is there.
  pub IsAt-consume :
      (n o : ℕ) (s : BlockStream)
      → IsAt limit bytes s o
      → n ≤ length (unread s)
      → IsAt limit bytes (record s { buf_off = s.buf_off + n }) (o + n)
        × (take n (unread s) ≡ slice bytes o n)
  IsAt-consume n o s a h =
      let later : drop (s.buf_off + n) s.buf ≡ drop n (unread s) =
        sym (drop-drop n s.buf_off s.buf) in
      let size : length (drop (s.buf_off + n) s.buf) ≡ length (unread s) - n =
        ap length later ∙ length-drop n (unread s) in
      let sum : length (unread s) ≡ n + (length (unread s) - n) = omega arith in
      let held : unread s ≡ take (n + (length (unread s) - n)) (drop o bytes) =
        a.holds ∙ ap (λ (k : ℕ). take k (drop o bytes)) sum in
      let cut : drop n (unread s) ≡ take (length (unread s) - n) (drop (o + n) bytes) =
        ap (drop n) held
        ∙ drop-take n (length (unread s) - n) (drop o bytes)
        ∙ ap (take (length (unread s) - n)) (drop-drop n o bytes) in
      (
        record {
          inside = omega (arith, length-drop s.buf_off s.buf, a.inside);
          here = omega (arith, size, a.here);
          holds = later ∙ cut ∙ ap (λ (k : ℕ). take k (drop (o + n) bytes)) (sym size);
          ahead = elim a.ahead [ inl p ↦ inl p | inr z ↦ inr (omega (arith, size, z)) ];
        },
        ap (take n) a.holds ∙ take-take n (length (unread s)) (drop o bytes) h,
      )

  -- `n` bytes are there exactly when the file has them.
  pub Filled-all :
      (n o : ℕ) (r : BlockStream × Option Error)
      → Filled limit bytes n o r
      → o + n ≤ limit
      → (r.1 ≡ none) × (n ≤ length (unread r.0))
  Filled-all n o r f h = elim f.outcome [
    | inl done ↦ done
    | inr (e, short, end) ↦ absurd (omega (arith, f.at_same.here, short, end, h))
  ]

  pub Filled-end :
      (n o : ℕ) (r : BlockStream × Option Error)
      → Filled limit bytes n o r
      → limit < o + n
      → 0 < n
      → (r.1 ≡ some end_of_file) × (length (unread r.0) ≡ limit - o)
  Filled-end n o r f h p = elim f.outcome [
    | inl (e, enough) ↦ elim f.at_same.ahead [
      | inl q ↦ absurd (omega (arith, f.at_same.here, enough, h, q))
      | inr z ↦ absurd (omega (arith, z, enough, p))
    ]
    | inr (e, short, end) ↦ (
      e,
      elim f.at_same.ahead [
        | inl q ↦ omega (arith, f.at_same.here, end, q)
        | inr z ↦ omega (arith, f.at_same.here, end, z)
      ],
    )
  ]
