-- ===== src/Ondisk/Acl/RoundTrip.antt =====
-- ondisk/acl.go: an access control list found again in the area that holds it.
use ods.Base.{
  ℕ, zero, suc, ◌+◌, ◌%◌, ◌≤◌, ◌≡◌, refl, sym, ap, ◌∙◌, List, [], ◌∷◌, ◌++◌, append_assoc, length,
  length-append, length-replicate, replicate, arith, take, take-append,
}
use ods.Base.Word.{byte_at, byte_at-append}
use ods.Ondisk.Acl.{acl_used, acl_area}

-- Access control entries one after another, each of which begins with its length.
pub data IsAcl : List ℕ → Type 0 where
  nothing : IsAcl []
  entry :
      (size : ℕ) (body rest : List ℕ)
      → size ≡ suc (length body)
      → IsAcl rest
      → IsAcl (size ∷ (body ++ rest))

acl_used_step :
    (fuel used size : ℕ) (area : List ℕ)
    → byte_at area used ≡ suc size
    → used + suc size ≤ length area
    → acl_used (suc fuel) area used ≡ acl_used fuel area (used + suc size)
unfolding acl_used
acl_used_step fuel used size area b h = ground arith

acl_used_end :
    (fuel : ℕ) (pre : List ℕ) (n : ℕ)
    → n ≤ 1
    → acl_used fuel (pre ++ replicate n 0) (length pre) ≡ length pre
unfolding acl_used
acl_used_end zero pre n h = refl
acl_used_end (suc fuel) pre n h = ground (
  arith,
  byte_at-append pre (replicate n 0) 0 (length pre),
  length-append pre (replicate n 0),
  length-replicate {A = ℕ} n 0,
  zero_byte n,
)
  where
    zero_byte : (k : ℕ) → byte_at (replicate k 0) 0 ≡ 0
    zero_byte zero = refl
    zero_byte (suc k) = refl

acl_used-IsAcl :
    (fuel : ℕ) (pre acl : List ℕ) (n : ℕ)
    → IsAcl acl
    → n ≤ 1
    → length acl ≤ fuel
    → acl_used fuel (pre ++ (acl ++ replicate n 0)) (length pre) ≡ length pre + length acl
acl_used-IsAcl fuel pre acl n IsAcl.nothing h f = acl_used_end fuel pre n h ∙ omega arith
acl_used-IsAcl zero pre acl n (IsAcl.entry size body rest e a) h f = absurd (omega arith)
acl_used-IsAcl (suc fuel) pre acl n (IsAcl.entry size body rest e a) h f =
    let front : List ℕ = size ∷ body in
    let tail : List ℕ = rest ++ replicate n 0 in
    let area : List ℕ = pre ++ (size ∷ ((body ++ rest) ++ replicate n 0)) in
    let moved : area ≡ (pre ++ front) ++ tail =
      ap (λ t. pre ++ (size ∷ t)) (append_assoc body rest (replicate n 0))
      ∙ sym (append_assoc pre front tail) in
    let there : length (pre ++ front) ≡ length pre + suc (length body) =
      omega (arith, length-append pre front) in
    let long : length pre + suc (length body) ≤ length area =
      rw moved (omega (arith, there, length-append (pre ++ front) tail)) in
    let first : byte_at area (length pre) ≡ suc (length body) =
      byte_at-append pre (size ∷ ((body ++ rest) ++ replicate n 0)) 0 (length pre) (omega arith)
      ∙ e in
    let step = acl_used_step fuel (length pre) (length body) area first long in
    let ih =
      acl_used-IsAcl fuel (pre ++ front) rest n a h (omega (arith, length-append body rest)) in
    step
    ∙ ap (λ k. acl_used fuel area k) (sym there)
    ∙ ap (λ t. acl_used fuel t (length (pre ++ front))) moved
    ∙ ih
    ∙ omega (arith, there, length-append body rest)

pub length-acl_area : (acl : List ℕ) → length (acl_area acl) ≡ length acl + length acl % 2
unfolding acl_area
length-acl_area acl = omega (
  arith,
  length-append acl (replicate (length acl % 2) 0),
  length-replicate {A = ℕ} (length acl % 2) 0,
)

-- The bytes in use of an area are the list that it was made from.
pub acl_used-acl_area :
    (acl : List ℕ)
    → IsAcl acl
    → take (acl_used (length (acl_area acl)) (acl_area acl) 0) (acl_area acl) ≡ acl
unfolding acl_area
acl_used-acl_area acl a =
    let pad : List ℕ = replicate (length acl % 2) 0 in
    let used : acl_used (length (acl ++ pad)) (acl ++ pad) 0 ≡ length acl =
      acl_used-IsAcl (length (acl ++ pad)) [] acl (length acl % 2) a (omega arith)
        (omega (arith, length-append acl pad))
      ∙ omega arith in
    ap (λ k. take k (acl ++ pad)) used ∙ take-append acl pad
