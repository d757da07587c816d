-- ===== src/Volume/Directory/Update/Written.antt =====
-- volume/directory.go: the blocks of a directory, written and listed again.
use ods.Base.{
  ℕ, ◌+◌, ◌≤◌, ◌<◌, ◌≡◌, ◌≢◌, refl, sym, ap, ◌∙◌, List, [], ◌∷◌, ◌++◌, append_assoc, append-nil,
  false, Result, ok, >>=-eq-ok, All, length, min, arith,
}
use ods.Ondisk.DirEntry.{DirEntry}
use ods.Ondisk.DirBlock.{decode_directory_block}
use ods.Volume.Device.{Container, Device, File, ExtentLocation}
use ods.Volume.Extents.{resolve_extent_lbn}
use ods.Volume.File.{blocks, used_blocks, is_unwritten, read_block}
use ods.Volume.Directory.{list, list_blocks}
use ods.Volume.Directory.Pack.Kept.{decode_blocks}
use ods.Volume.Directory.Update.{write_blocks}
use ods.Volume.Headers.{on_container}
use ods.Volume.WriteFile.Marks.{IsContainerWrite, read_block-read_extents, read_here}

-- The first `capacity` blocks of the extents have places of their own in the container.
pub record IsPlaced (capacity : ℕ) (size : ℕ) (extents : List ExtentLocation) : Type 0 where
  pub placed :
      (v : ℕ) → 0 < v → v ≤ capacity → (l : ℕ) × (resolve_extent_lbn extents v ≡ ok l) × (l < size)
  pub apart :
      (v w l : ℕ)
      → resolve_extent_lbn extents v ≡ ok l
      → resolve_extent_lbn extents w ≡ ok l
      → v ≡ w

-- The virtual blocks from `vbn` on hold the given ones.
abbrev pub Holds : Container → List ExtentLocation → ℕ → List (List ℕ) → Type 0
Holds c extents vbn [] = Unit
Holds c extents vbn (b ∷ bs) =
    ((l : ℕ) → resolve_extent_lbn extents vbn ≡ ok l → c.read_block l ≡ ok b)
    × Holds c extents (vbn + 1) bs

-- Blocks that read the same hold the same.
pub Holds-same :
    (c c' : Container) (extents : List ExtentLocation) (vbn : ℕ) (bs : List (List ℕ))
    → ((v l : ℕ) → resolve_extent_lbn extents v ≡ ok l → c'.read_block l ≡ c.read_block l)
    → Holds c extents vbn bs
    → Holds c' extents vbn bs
Holds-same c c' extents vbn [] same h = tt
Holds-same c c' extents vbn (b ∷ bs) same (h, hs) =
    (λ l e. same vbn l e ∙ h l e, Holds-same c c' extents (vbn + 1) bs same hs)

module _ (write_container : Container → ℕ → List ℕ → Result Container)
    (container : IsContainerWrite write_container) where
  pub write_blocks-Holds :
      (capacity vbn : ℕ) (dev : Device) (extents : List ExtentLocation) (bs : List (List ℕ))
      → IsPlaced capacity dev.container.blocks extents
      → 0 < vbn
      → vbn + length bs ≤ capacity + 1
      → All (λ b. length b ≡ 512) bs
      → (c : Container) × (write_blocks write_container dev extents vbn bs
          ≡ ok (on_container c dev))
        × (c.blocks ≡ dev.container.blocks)
        × Holds c extents vbn bs
        × ((m : ℕ)
            → ((v : ℕ) → vbn ≤ v → resolve_extent_lbn extents v ≢ ok m)
            → c.read_block m ≡ dev.container.read_block m)
  unfolding write_blocks
  write_blocks-Holds capacity vbn dev extents [] p z h a =
      (dev.container, refl, refl, tt, λ m o. refl)
  write_blocks-Holds capacity vbn dev extents (b ∷ bs) p z h (size, sizes) =
      let (l, at, inside) = p.placed vbn z (omega arith) in
      let (c1, k1, blocks1, here, rest1) = container.writes dev.container l b inside size in
      let p1 : IsPlaced capacity c1.blocks extents = rw blocks1 p in
      let (c, k, blocks', holds, rest) =
        write_blocks-Holds capacity (vbn + 1) (on_container c1 dev) extents bs p1 (omega arith)
          (omega arith) sizes in
      let later : (v : ℕ) → vbn + 1 ≤ v → resolve_extent_lbn extents v ≢ ok l =
        λ v q e. absurd (omega (arith, p.apart v vbn l e at)) in
      (
        c,
        rw (at, k1) k,
        blocks' ∙ blocks1,
        (λ n e. let same : n ≡ l = cc in ap c.read_block same ∙ rest l later ∙ here, holds),
        λ m o.
            rest m (λ v q. o v (omega arith))
            ∙ rest1 m (λ e. o vbn (omega arith) (at ∙ ap ok (sym e))),
      )

list_blocks-Holds :
    (dev : Device) (f : File) (vbn : ℕ) (bs : List (List ℕ)) (found out : List DirEntry)
    → ((v : ℕ) → vbn ≤ v → v < vbn + length bs → (l : ℕ) × (resolve_extent_lbn f.extents v ≡ ok l))
    → vbn + length bs ≤ f.header.high_water_mark
    → Holds dev.container f.extents vbn bs
    → decode_blocks bs ≡ ok out
    → list_blocks (length bs) dev f vbn found ≡ ok (found ++ out)
unfolding list_blocks decode_blocks
list_blocks-Holds dev f vbn [] found out p h holds k =
    let e : [] ≡ out = ground arith in rw (← e, append-nil) refl
list_blocks-Holds dev f vbn (b ∷ bs) found out p h (here, holds) k =
    let (es, d, k') = >>=-eq-ok (decode_directory_block b) _ k in
    let (more, d', k'') = >>=-eq-ok (decode_blocks bs) _ k' in
    let whole : es ++ more ≡ out = ground arith in
    let (l, at) = p vbn (omega arith) (omega arith) in
    let written : is_unwritten f vbn ≡ false = unfold is_unwritten in ground arith in
    let read : read_block dev f vbn ≡ ok b =
      read_block-read_extents dev f vbn (omega arith)
      ∙ read_here dev f.extents vbn l at
      ∙ here l at in
    let ih =
      list_blocks-Holds dev f (vbn + 1) bs (found ++ es) more
        (λ v q r. p v (omega arith) (omega arith)) (omega arith) holds d' in
    rw (written, read, d) (ih ∙ ap ok (append_assoc found es more ∙ ap (λ t. found ++ t) whole))

-- A directory whose blocks up to its end of file are the given ones lists their entries.
pub list-Holds :
    (dev : Device) (f : File) (bs : List (List ℕ)) (out : List DirEntry)
    → used_blocks f ≡ length bs
    → length bs ≤ blocks f
    → length bs < f.header.high_water_mark
    → ((v : ℕ) → 0 < v → v ≤ length bs → (l : ℕ) × (resolve_extent_lbn f.extents v ≡ ok l))
    → Holds dev.container f.extents 1 bs
    → decode_blocks bs ≡ ok out
    → list dev f ≡ ok out
unfolding list
list-Holds dev f bs out used room mark p holds k =
    let rounds : min (blocks f) (used_blocks f) ≡ length bs = omega arith in
    rw rounds (
      list_blocks-Holds dev f 1 bs [] out (λ v q r. p v (omega arith) (omega arith)) (omega arith)
        holds k)
