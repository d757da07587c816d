-- ===== src/Ondisk/Block/Sum.antt =====
-- ondisk/checksum.go: which bytes of a block its checksum is taken over.
use ods.Base.{
  ℕ, zero, suc, ◌+◌, ◌*◌, ◌≤◌, ◌<◌, ◌≡◌, refl, ap, ◌∙◌, sym, List, ◌++◌, length, arith,
  get_or-append_left, length-append, Result, ok, Bool-cases, inl, inr, ◌==◌, ◌^◌,
}
use ods.Base.Word.{u16, u16_at, u32}
use ods.Ondisk.Block.{checksum, sum_words}

u16_at-append_left :
    (xs ys : List ℕ) (i : ℕ) → i + 2 ≤ length xs → u16_at (xs ++ ys) i ≡ u16_at xs i
u16_at-append_left xs ys i h = ground (
  arith,
  get_or-append_left xs ys i 0 (omega arith),
  get_or-append_left xs ys (i + 1) 0 (omega arith),
)

-- Words before the end of a prefix are summed whatever stands behind it.
pub sum_words-append :
    (n : ℕ) (pre xs ys : List ℕ) (i sum : ℕ)
    → (i + n) * 2 ≤ length pre
    → sum_words n (pre ++ xs) i sum ≡ sum_words n (pre ++ ys) i sum
unfolding sum_words
sum_words-append zero pre xs ys i sum h = refl
sum_words-append (suc n) pre xs ys i sum h =
    let same : u16_at (pre ++ xs) (i * 2) ≡ u16_at (pre ++ ys) (i * 2) =
      u16_at-append_left pre xs (i * 2) (omega arith)
      ∙ sym (u16_at-append_left pre ys (i * 2) (omega arith)) in
    ap (λ w. sum_words n (pre ++ xs) (i + 1) (u32 (sum + w))) same
    ∙ sum_words-append n pre xs ys (i + 1) (u32 (sum + u16_at (pre ++ ys) (i * 2))) (omega arith)

u16_small : (n : ℕ) → u16 n < 2 ^ 16
u16_small n = omega arith

ok_inj : {x y : ℕ} → Result.ok x ≡ ok y → x ≡ y
ok_inj e = cc

pub checksum_small : (block : List ℕ) (sum : ℕ) → checksum block ≡ ok sum → sum < 2 ^ 16
unfolding checksum
checksum_small block sum k = elim (Bool-cases (length block == 512)) [
  | inl t ↦ rw (← (ok_inj (rw t at k))) (u16_small (sum_words 255 block 0 0))
  | inr t ↦ cc (rw t at k)
]

-- A checksum does not change with the word that holds it.
pub checksum-append :
    (body xs ys : List ℕ)
    → length body ≡ 510
    → length xs ≡ 2
    → length ys ≡ 2
    → checksum (body ++ xs) ≡ checksum (body ++ ys)
unfolding checksum
checksum-append body xs ys b x y =
    let lx : length (body ++ xs) ≡ 512 = omega (arith, length-append body xs) in
    let ly : length (body ++ ys) ≡ 512 = omega (arith, length-append body ys) in
    rw (lx, ly, sum_words-append 255 body xs ys 0 0 (omega arith)) refl

pub checksum_total : (block : List ℕ) → length block ≡ 512 → (sum : ℕ) × (checksum block ≡ ok sum)
unfolding checksum
checksum_total block e = (u16 (sum_words 255 block 0 0), rw e refl)
