-- ===== src/Rms/Reader/Fixed.antt =====
-- rms/reader.go, nextFixed: fixed-length records in a file's bytes.
use ods.Base.{
  ℕ, ◌+◌, ◌-◌, ◌%◌, ◌≤◌, ◌<◌, ◌≡◌, inl, inr, refl, List, [], ◌++◌, ok, err, end_of_file, arith,
  length, slice, ◌==◌, ◌&&◌, not, Bool-cases, Bool, true, false, length-append, slice-front,
}
use ods.Rms.BlockStream.{BlockSource, BlockStream}
use ods.Rms.BlockStream.Bytes.{IsFile, IsAt, read_full-bytes, read_full_short}
use ods.Rms.Reader.{next_fixed}
use ods.Rms.Reader.Variable.{moved}
use ods.Rms.Frames.{pad}

abbrev pub padding : Bool → List ℕ → List ℕ
padding true text = pad text
padding false text = []

module _ (source : BlockSource) (limit : ℕ) (bytes : List ℕ)
    (file : IsFile source limit bytes) where
  -- A record is read back, with the pad byte of one of odd length behind it.
  pub next_fixed-text :
      (aligned : Bool) (text : List ℕ) (o : ℕ) (s : BlockStream)
      → IsAt limit bytes s o
      → 0 < length text
      → slice bytes o (length (text ++ padding aligned text)) ≡ text ++ padding aligned text
      → o + length (text ++ padding aligned text) ≤ limit
      → (s' : BlockStream) × (next_fixed source limit aligned (length text) s ≡ (s', ok text))
        × IsAt limit bytes s' (o + length (text ++ padding aligned text))
  unfolding next_fixed
  next_fixed-text aligned text o s a some_text there inside =
      let e : (length text == 0) ≡ false = ground arith in
      let size : length (text ++ padding aligned text)
          ≡ length text + length (padding aligned text) =
        length-append text (padding aligned text) in
      let (s1, got, a1) =
        read_full-bytes source limit bytes file (length text) o s a (omega (arith, size, inside)) in
      let body : slice bytes o (length text) ≡ text =
        slice-front bytes text (padding aligned text) o there in
      elim (Bool-cases (aligned && not (length text % 2 == 0))) [
        | inr even ↦
            let nothing : length (padding aligned text) ≡ 0 = unpadded aligned text even in
            (s1, rw (e, got, even, body) refl, moved (omega (arith, size, nothing)) a1)
        | inl odd ↦
            let one : length (padding aligned text) ≡ 1 = padded aligned text odd in
            let (s2, got2, a2) =
              read_full-bytes source limit bytes file 1 (o + length text) s1 a1
                (omega (arith, size, one, inside)) in
            (s2, rw (e, got, odd, body, got2) refl, moved (omega (arith, size, one)) a2)
      ]
    where
      unpadded :
          (aligned : Bool) (text : List ℕ)
          → (aligned && not (length text % 2 == 0)) ≡ false
          → length (padding aligned text) ≡ 0
      unpadded false text h = refl
      unpadded true text h = ground (arith, h)

      padded :
          (aligned : Bool) (text : List ℕ)
          → (aligned && not (length text % 2 == 0)) ≡ true
          → length (padding aligned text) ≡ 1
      padded false text h = cc
      padded true text h = ground (arith, h)

  pub next_fixed_end :
      (aligned : Bool) (size : ℕ) (s : BlockStream)
      → IsAt limit bytes s limit
      → 0 < size
      → (s' : BlockStream) × (next_fixed source limit aligned size s ≡ (s', err end_of_file))
  unfolding next_fixed
  next_fixed_end aligned size s a h =
      let e : (size == 0) ≡ false = ground arith in
      let (s', at', left, got) =
        read_full_short source limit bytes file size limit s a (omega arith) h in
      let none_left : limit - limit ≡ 0 = omega arith in (s', rw (e, got, none_left) refl)
