-- ===== src/Rms/BlockStream/Memory.antt =====
-- rms/blockstream.go, BytesSource: a file whose data is in memory, as a file of blocks.
use ods.Base.{
  ℕ, ◌+◌, ◌-◌, ◌*◌, ◌^◌, ◌≤◌, ◌<◌, ◌≡◌, ap, sym, ◌∙◌, List, ◌++◌, ok, arith, length, take, drop,
  slice, replicate, ◌==◌, false, length-append, length-replicate, length-take, drop-append_left,
  take-append_both, take-replicate,
}
use ods.Rms.BlockStream.{bytes_source}
use ods.Rms.BlockStream.Bytes.{IsFile}

-- A block behind whose bytes there are zeros, cut from bytes behind which there are zeros.
padded_slice :
    (b : List ℕ) (i n : ℕ)
    → i ≤ length b
    → slice b i n ++ replicate (n - length (slice b i n)) 0 ≡ slice (b ++ replicate n 0) i n
padded_slice b i n h =
    let left : n - length (slice b i n) ≡ n - length (drop i b) =
      omega (arith, length-take n (drop i b)) in
    sym (
      ap (take n) (drop-append_left i b (replicate n 0) h)
      ∙ take-append_both n (drop i b) (replicate n 0)
      ∙ ap (λ (z : List ℕ). slice b i n ++ z)
          (take-replicate (n - length (drop i b)) n 0 (omega arith))
      ∙ ap (λ (k : ℕ). slice b i n ++ replicate k 0) (sym left))

-- The blocks of a file in memory are its bytes, with zeros behind the last of them.
pub bytes_source-IsFile :
    (b : List ℕ)
    → length b + 512 < 2 ^ 41
    → IsFile (bytes_source b) (length b) (b ++ replicate 512 0)
unfolding bytes_source
bytes_source-IsFile b h = record {
  reads = λ v p. block_of v p;
  whole =
      λ v p. omega (arith, p, length-append b (replicate 512 0), length-replicate {A = ℕ} 512 0);
  enough = omega (arith, length-append b (replicate 512 0));
  bounded = h;
}
  where
    block_of :
        (v : ℕ)
        → v * 512 < length b
        → bytes_source b (v + 1) ≡ ok (slice (b ++ replicate 512 0) (v * 512) 512)
    block_of v p =
        let number : v + 1 - 1 ≡ v = omega arith in
        let some_block : (v + 1 == 0) ≡ false = ground arith in
        rw (some_block, number)
          (ap (λ (block : List ℕ). ok block) (padded_slice b (v * 512) 512 (omega (arith, p))))
