-- ===== src/Ondisk/FileHeader/Areas.antt =====
-- ondisk/ident.go, retrieval.go and acl.go: the areas of an encoded header, found again.
use ods.Base.{
  ℕ, ◌+◌, ◌-◌, ◌*◌, ◌/◌, ◌<◌, ◌≡◌, refl, sym, ap, ◌∙◌, List, [], ◌∷◌, ◌++◌, append_assoc, false,
  ◌||◌, some, ok, All, arith, length, length-append, length-replicate, replicate, slice,
  slice-middle, ltb, ◌==◌, le→ltb, if_not, if_so, take, Bool-cases, inl, inr,
}
use ods.Base.Word.{word_bytes}
use ods.Ondisk.FileHeader.{FileHeader}
use ods.Ondisk.FileHeader.Encode.{FileHeaderAreas, fixed_part, header_body, ident_bytes}
use ods.Ondisk.FileHeader.Layout.{Layout, length-fixed_part, length-header_body}
use ods.Ondisk.FileHeader.RoundTrip.{laid_out}
use ods.Ondisk.Ident.{Ident, ident, ident_fields}
use ods.Ondisk.Ident.RoundTrip.{IdentInRange, ident_fields-encode_ident, length-encode_ident}
use ods.Ondisk.Retrieval.{Extent, retrieval_pointers, encode_retrieval_pointers}
use ods.Ondisk.Retrieval.Entry.{ExtentInRange}
use ods.Ondisk.Retrieval.RoundTrip.{retrieval_pointers-encode_retrieval_pointers}
use ods.Ondisk.Acl.{acl, acl_area, acl_used}
use ods.Ondisk.Acl.RoundTrip.{IsAcl, acl_used-acl_area, length-acl_area}

module _ (h : FileHeader) (areas : FileHeaderAreas) (block : List ℕ) (l : Layout h areas block)
    (sum : ℕ) where
  abbrev m : ℕ
  m = 40 + length l.ident / 2

  abbrev a : ℕ
  a = 255 - length areas.acl_bytes / 2

  abbrev w : ℕ
  w = length areas.map_bytes / 2

  abbrev fixed : List ℕ
  fixed = fixed_part h m a w

  abbrev zeros : List ℕ
  zeros = replicate ((a - (m + w)) * 2) 0

  -- The header as it is decoded.
  abbrev pub stored : FileHeader
  stored = laid_out h block m a w sum

  around_map :
      block
      ≡ (fixed ++ l.ident) ++ (areas.map_bytes ++ ((zeros ++ areas.acl_bytes) ++ word_bytes l.sum))
  unfolding header_body
  around_map =
      l.whole
      ∙ append_assoc fixed (l.ident ++ (areas.map_bytes ++ (zeros ++ areas.acl_bytes)))
          (word_bytes l.sum)
      ∙ ap (λ t. fixed ++ t)
          (append_assoc l.ident (areas.map_bytes ++ (zeros ++ areas.acl_bytes)) (word_bytes l.sum)
            ∙ ap (λ t. l.ident ++ t)
                (append_assoc areas.map_bytes (zeros ++ areas.acl_bytes) (word_bytes l.sum)))
      ∙ sym (
          append_assoc fixed l.ident
            (areas.map_bytes ++ ((zeros ++ areas.acl_bytes) ++ word_bytes l.sum)))

  pub stored-retrieval_pointers :
      (es : List Extent)
      → All ExtentInRange es
      → encode_retrieval_pointers es ≡ ok areas.map_bytes
      → retrieval_pointers stored ≡ ok es
  stored-retrieval_pointers es r k =
      retrieval_pointers-encode_retrieval_pointers stored es (fixed ++ l.ident) areas.map_bytes
        ((zeros ++ areas.acl_bytes) ++ word_bytes l.sum) r k around_map
        (omega (arith, length-append fixed l.ident, length-fixed_part h m a w, l.even))
        (omega (arith, l.map_even))

  long : length block ≡ 512
  long =
      ap length l.whole
      ∙ omega (
        arith,
        length-append (header_body h l.ident areas.map_bytes areas.acl_bytes) (word_bytes l.sum),
        length-header_body h l.ident areas.map_bytes areas.acl_bytes l.even l.map_even l.acl_even
            l.fits,
      )

  pub stored-ident :
      (id : Ident)
      → areas.ident ≡ some id
      → IdentInRange id
      → (stored.ident_offset < stored.map_offset) × (ident stored ≡ ok id)
  unfolding ident ident_bytes
  stored-ident id e r =
      let (area, k, fields) = ident_fields-encode_ident id r in
      let same : area ≡ l.ident = cc (k, e, l.encoded) in
      let size : length l.ident ≡ 120 = rw (← same) (length-encode_ident id area k) in
      let tail : List ℕ = areas.map_bytes ++ ((zeros ++ areas.acl_bytes) ++ word_bytes l.sum) in
      let around : block ≡ fixed ++ (l.ident ++ tail) =
        around_map ∙ append_assoc fixed l.ident tail in
      let part : slice block 80 120 ≡ area =
        ap (λ b. slice b 80 120) around
        ∙ ap (λ n. slice (fixed ++ (l.ident ++ tail)) 80 n) (sym size)
        ∙ slice-middle fixed l.ident tail 80 (sym (length-fixed_part h m a w))
        ∙ sym same in
      let inside : ltb (length block) 200 ≡ false = rw long refl in
      (omega (arith, size), if_not _ _ inside ∙ ap ok (ap ident_fields part ∙ fields))

  -- The list lies at the end of the block's body.
  acl_part : slice block (a * 2) (length areas.acl_bytes) ≡ areas.acl_bytes
  acl_part =
      let front : List ℕ = (fixed ++ l.ident) ++ (areas.map_bytes ++ zeros) in
      let tail : List ℕ = areas.acl_bytes ++ word_bytes l.sum in
      let around : block ≡ front ++ tail =
        around_map
        ∙ ap (λ t. (fixed ++ l.ident) ++ t)
            (ap (λ t. areas.map_bytes ++ t) (append_assoc zeros areas.acl_bytes (word_bytes l.sum))
              ∙ sym (append_assoc areas.map_bytes zeros tail))
        ∙ sym (append_assoc (fixed ++ l.ident) (areas.map_bytes ++ zeros) tail) in
      let place : a * 2 ≡ length front = omega (
        arith,
        length-append (fixed ++ l.ident) (areas.map_bytes ++ zeros),
        length-append fixed l.ident,
        length-append areas.map_bytes zeros,
        length-fixed_part h m a w,
        length-replicate {A = ℕ} ((a - (m + w)) * 2) 0,
        l.even,
        l.map_even,
        l.fits,
      ) in
      ap (λ b. slice b (a * 2) (length areas.acl_bytes)) around
      ∙ slice-middle front areas.acl_bytes (word_bytes l.sum) (a * 2) place

  no_list : (list : List ℕ) → length list ≡ 0 → list ≡ []
  no_list [] e = refl
  no_list (x ∷ xs) e = absurd (omega arith)

  pub stored-acl :
      (list : List ℕ) → areas.acl_bytes ≡ acl_area list → IsAcl list → acl stored ≡ ok list
  unfolding acl
  stored-acl list e is = elim (Bool-cases (a * 2 == 510)) [
    | inl t ↦
        let size = ap length e ∙ length-acl_area list in
        let none : length list ≡ 0 = ground (arith, t, size, l.fits, l.acl_even) in
        if_so _ _ t ∙ ap ok (sym (no_list list none))
    | inr t ↦
        let back : 510 - a * 2 ≡ length areas.acl_bytes = omega (arith, l.fits, l.acl_even) in
        let area : slice block (a * 2) (510 - a * 2) ≡ acl_area list =
          ap (slice block (a * 2)) back ∙ acl_part ∙ e in
        let inside : (ltb 510 (a * 2) || ltb 510 510) ≡ false =
          rw (le→ltb 510 (a * 2) (omega arith)) refl in
        if_not _ _ t
        ∙ if_not _ _ inside
        ∙ ap (λ b. ok (take (acl_used (length b) b 0) b)) area
        ∙ ap ok (acl_used-acl_area list is)
  ]
