-- ===== src/Ondisk/FileHeader/Layout.antt =====
-- ondisk/fileheader.go: how EncodeFileHeader lays the areas of a header out in its block.
use ods.Base.{
  ℕ, ◌+◌, ◌-◌, ◌*◌, ◌/◌, ◌%◌, ◌^◌, ◌≤◌, ◌<◌, ◌≡◌, refl, sym, ap, ◌∙◌, inl, inr, List, [], ◌∷◌, ◌++◌,
  true, false, Option, none, some, ok, >>=-eq-ok, length, length-append, length-replicate,
  replicate, ◌>>=◌, err, areas_too_large, if◌then◌else◌, ltb, ◌==◌, ==_iff, arith, Bool-cases,
  le→ltb,
}
use ods.Base.Word.{word_bytes}
use ods.Ondisk.Block.{checksum}
use ods.Ondisk.Block.Sum.{checksum_small, checksum_total}
use ods.Ondisk.Fid.{encode_fid}
use ods.Ondisk.Uic.{encode_uic}
use ods.Ondisk.RecAttr.{encode_rec_attr}
use ods.Ondisk.Ident.{Ident}
use ods.Ondisk.Ident.RoundTrip.{length-encode_ident}
use ods.Ondisk.FileHeader.{FileHeader}
use ods.Ondisk.FileHeader.Encode.{
  FileHeaderAreas, fixed_part, header_body, encode_file_header, ident_bytes,
}

pub length-fixed_part : (h : FileHeader) (m a w : ℕ) → length (fixed_part h m a w) ≡ 80
unfolding fixed_part encode_fid encode_rec_attr encode_uic
length-fixed_part h m a w = refl

ident_bytes_even :
    (ident : Option Ident) (bytes : List ℕ)
    → ident_bytes ident ≡ ok bytes
    → length bytes ≡ 2 * (length bytes / 2)
unfolding ident_bytes
ident_bytes_even none bytes e = let same : [] ≡ bytes = ground arith in rw (← same) refl
ident_bytes_even (some id) bytes e = omega (arith, length-encode_ident id bytes e)

-- How an encoded header is laid out, and that it is a block.
pub record Layout (h : FileHeader) (areas : FileHeaderAreas) (block : List ℕ) : Type 0 where
  pub ident : List ℕ
  pub encoded : ident_bytes areas.ident ≡ ok ident
  pub even : length ident ≡ 2 * (length ident / 2)
  pub map_even : length areas.map_bytes ≡ 2 * (length areas.map_bytes / 2)
  pub acl_even : length areas.acl_bytes ≡ 2 * (length areas.acl_bytes / 2)
  pub fits : 40 + length ident / 2 + length areas.map_bytes / 2 + length areas.acl_bytes / 2 ≤ 255
  pub sum : ℕ
  pub sum_small : sum < 2 ^ 16
  pub whole : block ≡ header_body h ident areas.map_bytes areas.acl_bytes ++ word_bytes sum
  pub summed : checksum (header_body h ident areas.map_bytes areas.acl_bytes ++ 0 ∷ 0 ∷ []) ≡ ok sum

pub length-header_body :
    (h : FileHeader) (ident map acl : List ℕ)
    → length ident ≡ 2 * (length ident / 2)
    → length map ≡ 2 * (length map / 2)
    → length acl ≡ 2 * (length acl / 2)
    → 40 + length ident / 2 + length map / 2 + length acl / 2 ≤ 255
    → length (header_body h ident map acl) ≡ 510
unfolding header_body
length-header_body h ident map acl i m a f =
    let mo : ℕ = 40 + length ident / 2 in
    let ao : ℕ = 255 - length acl / 2 in
    let mw : ℕ = length map / 2 in
    let zeros : List ℕ = replicate ((ao - (mo + mw)) * 2) 0 in
    omega (
      arith,
      length-fixed_part h mo ao mw,
      length-append (fixed_part h mo ao mw) (ident ++ (map ++ (zeros ++ acl))),
      length-append ident (map ++ (zeros ++ acl)),
      length-append map (zeros ++ acl),
      length-append zeros acl,
      length-replicate {A = ℕ} ((ao - (mo + mw)) * 2) 0,
    )

even_of : (n : ℕ) → (n % 2 == 0) ≡ true → n ≡ 2 * (n / 2)
even_of n t = omega (arith, (==_iff (n % 2) 0).0 t)

even_test : (n : ℕ) → n ≡ 2 * (n / 2) → (n % 2 == 0) ≡ true
even_test n e = (==_iff (n % 2) 0).1 (omega arith)

pub encode_file_header-Layout :
    (h : FileHeader) (areas : FileHeaderAreas) (block : List ℕ)
    → encode_file_header h areas ≡ ok block
    → Layout h areas block
unfolding encode_file_header
encode_file_header-Layout h areas block k = elim (Bool-cases (length areas.map_bytes % 2 == 0)) [
  | inr t ↦ cc (rw t at k)
  | inl t ↦ elim (Bool-cases (length areas.acl_bytes % 2 == 0)) [
    | inr u ↦ cc (rw (t, u) at k)
    | inl u ↦
        let (ident, e, k') = >>=-eq-ok (ident_bytes areas.ident) _ (rw (t, u) at k) in
        laid t u ident e k'
  ]
]
  where
    laid :
        (length areas.map_bytes % 2 == 0) ≡ true
        → (length areas.acl_bytes % 2 == 0) ≡ true
        → (ident : List ℕ) → ident_bytes areas.ident ≡ ok ident
        → (if ltb
              (255 - length areas.acl_bytes / 2)
              (40 + length ident / 2 + length areas.map_bytes / 2)
            then err areas_too_large
            else (checksum (header_body h ident areas.map_bytes areas.acl_bytes ++ 0 ∷ 0 ∷ [])
                >>= λ sum.
                    ok (header_body h ident areas.map_bytes areas.acl_bytes ++ word_bytes sum)))
          ≡ ok block
        → Layout h areas block
    laid t u ident e k =
        elim (Bool-cases (
          ltb (255 - length areas.acl_bytes / 2)
            (40 + length ident / 2 + length areas.map_bytes / 2))) [
              | inl v ↦ cc (rw v at k)
              | inr v ↦
                  let body : List ℕ = header_body h ident areas.map_bytes areas.acl_bytes in
                  let (sum, s, k') = >>=-eq-ok (checksum (body ++ 0 ∷ 0 ∷ [])) _ (rw v at k) in
                  let same : body ++ word_bytes sum ≡ block = ground arith in
                  record {
                    ident = ident;
                    encoded = e;
                    even = ident_bytes_even areas.ident ident e;
                    map_even = even_of (length areas.map_bytes) t;
                    acl_even = even_of (length areas.acl_bytes) u;
                    fits = ground (arith, v);
                    sum = sum;
                    sum_small = checksum_small (body ++ 0 ∷ 0 ∷ []) sum s;
                    whole = sym same;
                    summed = s;
                  }
            ]

pub length-encode_file_header :
    (h : FileHeader) (areas : FileHeaderAreas) (block : List ℕ)
    → encode_file_header h areas ≡ ok block
    → length block ≡ 512
length-encode_file_header h areas block k =
    let l = encode_file_header-Layout h areas block k in
    let body : List ℕ = header_body h l.ident areas.map_bytes areas.acl_bytes in
    ap length l.whole
    ∙ omega (
      arith,
      length-append body (word_bytes l.sum),
      length-header_body h l.ident areas.map_bytes areas.acl_bytes l.even l.map_even l.acl_even
          l.fits,
    )

-- Areas of whole words that fit are encoded, whatever the other fields are.
pub encode_file_header_fits :
    (h : FileHeader) (areas : FileHeaderAreas) (bytes : List ℕ)
    → ident_bytes areas.ident ≡ ok bytes
    → length areas.map_bytes ≡ 2 * (length areas.map_bytes / 2)
    → length areas.acl_bytes ≡ 2 * (length areas.acl_bytes / 2)
    → 40 + length bytes / 2 + length areas.map_bytes / 2 + length areas.acl_bytes / 2 ≤ 255
    → (block : List ℕ) × (encode_file_header h areas ≡ ok block)
unfolding encode_file_header
encode_file_header_fits h areas bytes i m a f =
    let body : List ℕ = header_body h bytes areas.map_bytes areas.acl_bytes in
    let even = ident_bytes_even areas.ident bytes i in
    let size = length-header_body h bytes areas.map_bytes areas.acl_bytes even m a f in
    let long : length (body ++ 0 ∷ 0 ∷ []) ≡ 512 = omega (arith, length-append body (0 ∷ 0 ∷ [])) in
    let map : (length areas.map_bytes % 2 == 0) ≡ true = even_test (length areas.map_bytes) m in
    let acl : (length areas.acl_bytes % 2 == 0) ≡ true = even_test (length areas.acl_bytes) a in
    let room : ltb (255 - length areas.acl_bytes / 2)
          (40 + length bytes / 2 + length areas.map_bytes / 2)
        ≡ false =
      le→ltb _ _ (omega (arith, f)) in
    let (sum, k) = checksum_total (body ++ 0 ∷ 0 ∷ []) long in
    (body ++ word_bytes sum, rw (map, acl, i, room, k) refl)

pub encode_file_header_any :
    (h h' : FileHeader) (areas : FileHeaderAreas) (block : List ℕ)
    → encode_file_header h areas ≡ ok block
    → (block' : List ℕ) × (encode_file_header h' areas ≡ ok block')
encode_file_header_any h h' areas block k =
    let l = encode_file_header-Layout h areas block k in
    encode_file_header_fits h' areas l.ident l.encoded l.map_even l.acl_even l.fits
