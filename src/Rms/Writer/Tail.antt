-- ===== src/Rms/Writer/Tail.antt =====
-- rms/writer.go, seek: the last block of a file, read back.
use ods.Base.{
  ℕ, ◌+◌, ◌-◌, ◌*◌, ◌/◌, ◌%◌, ◌^◌, ◌≤◌, ◌<◌, ◌≡◌, ap, sym, ◌∙◌, List, arith, length, take, drop,
  slice, ◌==◌, false, take-take, drop-take,
}
use ods.Base.Word.{u32}
use ods.Ondisk.RecAttr.{RecAttr}
use ods.Rms.BlockFile.{end_of_file_at}
use ods.Rms.Length.{file_byte_length}

-- What is cut from the first bytes of a file.
pub slice-begins :
    (whole content : List ℕ) (i n : ℕ)
    → slice whole 0 (length content) ≡ content
    → i + n ≤ length content
    → slice whole i n ≡ slice content i n
slice-begins whole content i n begins h =
    let split : i + (length content - i) ≡ length content = omega arith in
    let cut : drop i content ≡ take (length content - i) (drop i whole) =
      ap (drop i) (sym begins)
      ∙ ap (λ (k : ℕ). drop i (take k whole)) (sym split)
      ∙ drop-take i (length content - i) whole in
    sym (ap (take n) cut ∙ take-take n (length content - i) (drop i whole) (omega arith))

drop-begins :
    (whole content : List ℕ) (i : ℕ)
    → slice whole 0 (length content) ≡ content
    → i ≤ length content
    → drop i content ≡ take (length content - i) (drop i whole)
drop-begins whole content i begins h =
    let split : i + (length content - i) ≡ length content = omega arith in
    ap (drop i) (sym begins)
    ∙ ap (λ (k : ℕ). drop i (take k whole)) (sym split)
    ∙ drop-take i (length content - i) whole

-- The last block of the file, as far as the data goes.
pub partial_block :
    (whole content : List ℕ)
    → slice whole 0 (length content) ≡ content
    → take (length content % 512) (slice whole (length content / 512 * 512) 512)
      ≡ drop ((length content / 512 + 1 - 1) * 512) content
partial_block whole content begins =
    let n : ℕ = length content in
    let i : ℕ = n / 512 * 512 in
    let left : n % 512 ≡ n - i = omega arith in
    let place : i ≡ (n / 512 + 1 - 1) * 512 = omega arith in
    take-take (n % 512) 512 (drop i whole) (omega arith)
    ∙ ap (λ (k : ℕ). take k (drop i whole)) left
    ∙ sym (drop-begins whole content i begins (omega arith))
    ∙ ap (λ (k : ℕ). drop k content) place

pub end_of_file_long :
    (n : ℕ) (attr : RecAttr)
    → n + 512 < 2 ^ 41
    → file_byte_length (end_of_file_at (u32 (u32 (n / 512) + 1)) (n % 512) attr) ≡ n
unfolding file_byte_length end_of_file_at
end_of_file_long n attr h =
    let number : u32 (u32 (n / 512) + 1) ≡ n / 512 + 1 = omega arith in
    let positive : (n / 512 + 1 == 0) ≡ false = ground arith in rw (number, positive) (omega arith)
