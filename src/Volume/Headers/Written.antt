-- ===== src/Volume/Headers/Written.antt =====
-- volume/writeheader.go: a header written to its slot, and found there again.
use ods.Base.{
  ℕ, ◌<◌, ◌≡◌, ◌≢◌, refl, ap, ◌∙◌, inl, inr, List, false, not, ◌&&◌, ◌||◌, Option, Result, ok, All,
  length, ◌==◌, ==_iff, ==_refl, arith, Bool-cases, if_so, if_not,
}
use ods.Ondisk.Fid.{Fid, number}
use ods.Ondisk.FileHeader.{FileHeader, valid_file_header}
use ods.Ondisk.FileHeader.Encode.{encode_file_header}
use ods.Ondisk.FileHeader.RoundTrip.{HeaderInRange}
use ods.Ondisk.Ident.{Ident}
use ods.Ondisk.Acl.RoundTrip.{IsAcl}
use ods.Ondisk.Retrieval.{Extent, encode_retrieval_pointers}
use ods.Ondisk.Retrieval.Entry.{ExtentInRange}
use ods.Volume.Device.{Container, Device}
use ods.Volume.Extents.{resolve_extent_lbn, read_extents}
use ods.Volume.File.{file_header_vbn, read_file_header_via_index}
use ods.Volume.WriteFile.Marks.{IsContainerWrite, read_here}
use ods.Volume.Headers.{
  index_extents_of, on_container, write_alternate, write_header_bytes, write_header,
}
use ods.Volume.Headers.Rewrite.{
  HasAreas, GoodIdent, IsStored, areas_of, valid_file_header-encode_file_header,
}

-- The block that holds the header of file number `n`, inside the container, as its second copy is.
pub record IsSlot (dev : Device) (n lbn : ℕ) : Type 0 where
  pub place :
      resolve_extent_lbn (index_extents_of dev.index_file) (file_header_vbn dev.home n) ≡ ok lbn
  pub inside : lbn < dev.container.blocks
  pub alternate : n ≡ 1 → dev.home.alternate_index_lbn < dev.container.blocks

-- The second container is the first with the block of a slot written, and for the index file the
-- second copy.
pub record IsWritten (dev : Device) (c : Container) (n lbn : ℕ) (block : List ℕ) : Type 0 where
  pub same_size : c.blocks ≡ dev.container.blocks
  pub here : c.read_block lbn ≡ ok block
  pub others :
      (m : ℕ)
      → m ≢ lbn
      → (n ≡ 1 → m ≢ dev.home.alternate_index_lbn)
      → c.read_block m ≡ dev.container.read_block m

module _ (write_container : Container → ℕ → List ℕ → Result Container)
    (container : IsContainerWrite write_container) where
  write_alternate_lem :
      (dev : Device) (c : Container) (n lbn : ℕ) (block : List ℕ)
      → IsWritten dev c 0 lbn block
      → (n ≡ 1 → dev.home.alternate_index_lbn < c.blocks)
      → length block ≡ 512
      → (c' : Container) × (write_alternate write_container dev n block c ≡ ok c')
        × IsWritten dev c' n lbn block
  unfolding write_alternate
  write_alternate_lem dev c n lbn block w inside size =
      let alt : ℕ = dev.home.alternate_index_lbn in
      elim (Bool-cases ((n == 1) && not (alt == 0))) [
        | inr t ↦ (
          c,
          if_not _ _ t,
          record {
            same_size = w.same_size;
            here = w.here;
            others = λ m p q. w.others m p (λ z. cc);
          },
        )
        | inl t ↦
            let one : n ≡ 1 = ground (arith, t) in
            let (c', k, blocks, here, rest) = container.writes c alt block (inside one) size in
            (
              c',
              if_so _ _ t ∙ k,
              record {
                same_size = blocks ∙ w.same_size;
                here = elim (Bool-cases (lbn == alt)) [
                  | inl u ↦ let e : lbn ≡ alt = (==_iff lbn alt).0 u in ap c'.read_block e ∙ here
                  | inr u ↦ rest lbn (λ e. cc (u, (==_iff lbn alt).1 e)) ∙ w.here
                ];
                others = λ m p q. rest m (q one) ∙ w.others m p (λ z. cc);
              },
            )
      ]

  -- The slot is written whole.
  pub write_header_bytes_lem :
      (dev : Device) (n lbn : ℕ) (block : List ℕ) (d : FileHeader)
      → IsSlot dev n lbn
      → length block ≡ 512
      → valid_file_header block ≡ ok d
      → (c : Container) × (write_header_bytes write_container dev n block
          ≡ ok (on_container c dev, d))
        × IsWritten dev c n lbn block
  unfolding write_header_bytes
  write_header_bytes_lem dev n lbn block d slot size valid =
      let (c, k, blocks, here, rest) = container.writes dev.container lbn block slot.inside size in
      let first : IsWritten dev c 0 lbn block = record {
        same_size = blocks;
        here = here;
        others = λ m p q. rest m p;
      } in
      let (c', k', w) =
        write_alternate_lem dev c n lbn block first
          (λ one. let i = slot.alternate one in omega (arith, blocks)) size in
      (c', rw (slot.place, k, k', valid) refl, w)

  -- A header over areas, written to its slot.
  pub write_header_lem :
      (dev : Device) (n lbn : ℕ) (h : FileHeader) (id : Option Ident) (es : List Extent)
      (list map block : List ℕ)
      → IsSlot dev n lbn
      → HeaderInRange h
      → GoodIdent id
      → All ExtentInRange es
      → IsAcl list
      → encode_retrieval_pointers es ≡ ok map
      → encode_file_header h (areas_of id map list) ≡ ok block
      → (c : Container) × (d : FileHeader) × (write_header write_container dev n h
            (areas_of id map list)
          ≡ ok (on_container c dev, d))
        × IsStored h d block
        × HasAreas d id es list
        × (valid_file_header block ≡ ok d)
        × IsWritten dev c n lbn block
  unfolding write_header
  write_header_lem dev n lbn h id es list map block slot r gi ge gl k e =
      let (d, valid, stored, areas, size) =
        valid_file_header-encode_file_header h id es list map block r gi ge gl k e in
      let (c, k', w) = write_header_bytes_lem dev n lbn block d slot size valid in
      (c, d, rw e k', stored, areas, valid, w)

-- The header of a slot is found by its file identification.
pub read_file_header_via_index-IsWritten :
    (dev : Device) (c : Container) (n lbn : ℕ) (block : List ℕ) (d : FileHeader) (fid : Fid)
    → IsSlot dev n lbn
    → IsWritten dev c n lbn block
    → valid_file_header block ≡ ok d
    → number fid ≡ n
    → d.fid ≡ fid
    → read_file_header_via_index (on_container c dev) (index_extents_of dev.index_file) fid ≡ ok d
unfolding read_file_header_via_index
read_file_header_via_index-IsWritten dev c n lbn block d fid slot w valid e same =
    let found : read_extents (on_container c dev) (index_extents_of dev.index_file)
          (file_header_vbn dev.home (number fid))
        ≡ ok block =
      rw e (
        read_here (on_container c dev) (index_extents_of dev.index_file)
          (file_header_vbn dev.home n) lbn slot.place
        ∙ w.here) in
    let checked : (not (number d.fid == number fid) || not (d.fid.seq == fid.seq)) ≡ false =
      rw (same, ==_refl (number fid), ==_refl fid.seq) refl in
    rw (found, valid) (if_not _ _ checked)

-- A header written to its slot over areas, whose contents fit their fields and the header, is found
-- there by its file identification: every field is as it was written, but for the offsets, the map's
-- size, the classification, the checksum and the block, and the identification, the retrieval
-- pointers and the access control list are those written. No block changes but the slot's and, for
-- the index file, its second copy.
pub read_file_header_via_index-write_header :
    (write_container : Container → ℕ → List ℕ → Result Container) (dev : Device) (n lbn : ℕ)
    (h : FileHeader) (id : Option Ident) (es : List Extent) (list map block : List ℕ)
    → IsContainerWrite write_container
    → IsSlot dev n lbn
    → HeaderInRange h
    → GoodIdent id
    → All ExtentInRange es
    → IsAcl list
    → encode_retrieval_pointers es ≡ ok map
    → encode_file_header h (areas_of id map list) ≡ ok block
    → number h.fid ≡ n
    → (c : Container) × (d : FileHeader) × (write_header write_container dev n h
          (areas_of id map list)
        ≡ ok (on_container c dev, d))
      × (read_file_header_via_index (on_container c dev) (index_extents_of dev.index_file) h.fid
          ≡ ok d)
      × IsStored h d block
      × HasAreas d id es list
      × IsWritten dev c n lbn block
read_file_header_via_index-write_header write_container dev n lbn h id es list map block container
      slot r gi ge gl k e f =
    let (c, d, written, stored, areas, valid, w) =
      write_header_lem write_container container dev n lbn h id es list map block slot r gi ge gl k
        e in
    let own : d.fid ≡ h.fid = ap (λ (x : FileHeader). x.fid) stored.same in
    (
      c,
      d,
      written,
      read_file_header_via_index-IsWritten dev c n lbn block d h.fid slot w valid f own,
      stored,
      areas,
      w,
    )
