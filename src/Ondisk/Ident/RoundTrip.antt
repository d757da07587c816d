-- ===== src/Ondisk/Ident/RoundTrip.antt =====
-- ondisk/ident.go: an identification area, written and read back.
use ods.Base.{
  ℕ, zero, suc, ◌+◌, ◌-◌, ◌^◌, ◌≤◌, ◌<◌, ◌≡◌, refl, ap, ◌∙◌, inl, inr, List, [], ◌∷◌, ◌++◌, false,
  ok, arith, length, take, drop, slice, replicate, ltb, take-append, drop-append_more,
  length-append, length-replicate, Bool-cases, take_all, le→ltb,
}
use ods.Base.Word.{
  u16_at, u64_at, u16_at-append, u64_at-append, word_bytes, quad_bytes, split_u16, split_u64,
}
use ods.Ondisk.Padded.{is_empty}
use ods.Ondisk.Ident.{Ident, ident_fields, encode_ident, decode_nul_padded_string, blank_padded}

-- The dates and the revision fit their fields, and the names are no longer than theirs and do not
-- end in a blank or a NUL byte.
pub record IdentInRange (id : Ident) : Type 0 where
  pub filename : length id.filename ≤ 20
  pub trimmed : decode_nul_padded_string id.filename ≡ id.filename
  pub revision : id.revision < 2 ^ 16
  pub creation_date : id.creation_date < 2 ^ 64
  pub revision_date : id.revision_date < 2 ^ 64
  pub expiration_date : id.expiration_date < 2 ^ 64
  pub backup_date : id.backup_date < 2 ^ 64
  pub filename_extension : length id.filename_extension ≤ 66
  pub trimmed_extension : decode_nul_padded_string id.filename_extension ≡ id.filename_extension

decode_nul_padded_string-blanks : (n : ℕ) → decode_nul_padded_string (replicate n b' ') ≡ []
unfolding decode_nul_padded_string is_empty
decode_nul_padded_string-blanks zero = refl
decode_nul_padded_string-blanks (suc n) = rw (decode_nul_padded_string-blanks n) refl

decode_nul_padded_string-append :
    (s : List ℕ) (n : ℕ)
    → decode_nul_padded_string (s ++ replicate n b' ') ≡ decode_nul_padded_string s
unfolding decode_nul_padded_string
decode_nul_padded_string-append [] n = decode_nul_padded_string-blanks n
decode_nul_padded_string-append (c ∷ s) n = rw (decode_nul_padded_string-append s n) refl

length-blank_padded :
    (width : ℕ) (s : List ℕ) → length s ≤ width → length (blank_padded width s) ≡ width
length-blank_padded width s h = omega (
  arith,
  length-append s (replicate (width - length s) b' '),
  length-replicate {A = ℕ} (width - length s) b' ',
)

slice_front : (xs ys : List ℕ) (n : ℕ) → length xs ≡ n → slice (xs ++ ys) 0 n ≡ xs
slice_front xs ys n e = rw (← e) (take-append xs ys)

-- What stands behind the first field.
abbrev after_name : Ident → List ℕ
after_name id =
    word_bytes id.revision
    ++ (quad_bytes id.creation_date
        ++ (quad_bytes id.revision_date
            ++ (quad_bytes id.expiration_date
                ++ (quad_bytes id.backup_date ++ blank_padded 66 id.filename_extension))))

pub length-encode_ident :
    (id : Ident) (area : List ℕ) → encode_ident id ≡ ok area → length area ≡ 120
unfolding encode_ident
length-encode_ident id area k = elim (Bool-cases (ltb 20 (length id.filename))) [
  | inl t ↦ cc (rw t at k)
  | inr t ↦ elim (Bool-cases (ltb 66 (length id.filename_extension))) [
    | inl u ↦ cc (rw (t, u) at k)
    | inr u ↦
        let same : blank_padded 20 id.filename ++ after_name id ≡ area =
          ground (arith, rw (t, u) at k) in
        rw (← same) (
          omega (
            arith,
            length-append (blank_padded 20 id.filename) (after_name id),
            length-blank_padded 20 id.filename (ground (arith, t)),
            length-blank_padded 66 id.filename_extension (ground (arith, u)),
          ))
  ]
]

-- An identification area decodes to what was encoded.
pub ident_fields-encode_ident :
    (id : Ident)
    → IdentInRange id
    → (area : List ℕ) × (encode_ident id ≡ ok area) × (ident_fields area ≡ id)
unfolding encode_ident ident_fields
ident_fields-encode_ident id h =
    let a : ltb 20 (length id.filename) ≡ false = le→ltb 20 _ h.filename in
    let b : ltb 66 (length id.filename_extension) ≡ false = le→ltb 66 _ h.filename_extension in
    let f : List ℕ = blank_padded 20 id.filename in
    let x : List ℕ = blank_padded 66 id.filename_extension in
    let t : List ℕ = after_name id in
    let lf : length f ≡ 20 = length-blank_padded 20 id.filename h.filename in
    let lx : length x ≡ 66 = length-blank_padded 66 id.filename_extension h.filename_extension in
    let name : decode_nul_padded_string (slice (f ++ t) 0 20) ≡ id.filename =
      ap decode_nul_padded_string (slice_front f t 20 lf)
      ∙ decode_nul_padded_string-append id.filename (20 - length id.filename)
      ∙ h.trimmed in
    let behind : drop 54 (f ++ t) ≡ x =
      let at : 54 ≡ length f + 34 = omega (arith, lf) in
      ap (λ k. drop k (f ++ t)) at ∙ drop-append_more f t 34 in
    let extension : decode_nul_padded_string (slice (f ++ t) 54 66) ≡ id.filename_extension =
      ap (λ s. decode_nul_padded_string (take 66 s)) behind
      ∙ ap decode_nul_padded_string (take_all 66 x (omega (arith, lx)))
      ∙ decode_nul_padded_string-append id.filename_extension (66 - length id.filename_extension)
      ∙ h.trimmed_extension in
    let revision : u16_at (f ++ t) 20 ≡ id.revision =
      u16_at-append f t 0 20 (omega (arith, lf)) ∙ split_u16 id.revision h.revision in
    let creation : u64_at (f ++ t) 22 ≡ id.creation_date =
      u64_at-append f t 2 22 (omega (arith, lf)) ∙ split_u64 id.creation_date h.creation_date in
    let revised : u64_at (f ++ t) 30 ≡ id.revision_date =
      u64_at-append f t 10 30 (omega (arith, lf)) ∙ split_u64 id.revision_date h.revision_date in
    let expires : u64_at (f ++ t) 38 ≡ id.expiration_date =
      u64_at-append f t 18 38 (omega (arith, lf))
      ∙ split_u64 id.expiration_date h.expiration_date in
    let backup : u64_at (f ++ t) 46 ≡ id.backup_date =
      u64_at-append f t 26 46 (omega (arith, lf)) ∙ split_u64 id.backup_date h.backup_date in
    (
      f ++ t,
      rw (a, b) refl,
      rw (name, revision, creation, revised, expires, backup, extension) refl,
    )
