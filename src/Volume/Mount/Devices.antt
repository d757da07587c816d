-- ===== src/Volume/Mount/Devices.antt =====
-- volume/volume.go: the devices that Mount returns, and the files that OpenFID opens on them.
use ods.Base.{
  ◌≢◌, ℕ, ◌+◌, ◌≡◌, ◌≤◌, refl, List, [], ◌∷◌, none, some, Bool, ◌&&◌, ◌||◌, not, ok, >>=-eq-ok,
  arith, ◌==◌, leb, Bool-cases, inl, inr, ◌⊎◌,
}
use ods.Base.Word.{u8, u32}
use ods.Ondisk.Fid.{Fid, number}
use ods.Ondisk.FileHeader.{FileHeader, valid_file_header}
use ods.Ondisk.Retrieval.{Extent}
use ods.Volume.Device.{Container, Device, File}
use ods.Volume.File.{locate, build_file}
use ods.Volume.File.Segments.{Segments, build_file-Segments}
use ods.Volume.Mount.{
  index_file_fid, find_home_block, bootstrap_index_file, mount_device, mount_from, mount,
}
use ods.Volume.Mount.HomeSearch.{IsHome, find_home_block-IsHome}

-- The device that Mount makes of the container at position `i`.
pub record IsMounted (i : ℕ) (c : Container) (dev : Device) : Type 0 where
  pub container : dev.container ≡ c
  pub position : dev.rvn ≡ u8 (i + 1)
  pub numbered :
      (dev.home.relative_volume_number ≡ u8 (i + 1))
      ⊎ ((i ≡ 0) × (dev.home.relative_volume_number ≤ 1))
  pub idle : dev.accessed ≡ []
  pub home_lbn : ℕ
  pub home : IsHome c home_lbn dev.home
  pub header : FileHeader
  pub block : List ℕ
  pub read : c.read_block (u32 (dev.home.index_bitmap_lbn + dev.home.index_bitmap_size)) ≡ ok block
  pub valid : valid_file_header block ≡ ok header
  pub own_number : number header.fid ≡ number index_file_fid
  pub own_seq : header.fid.seq ≡ 1
  pub extents : List Extent
  pub chain : Segments (record dev { index_file = none }) [] header extents
  pub index : dev.index_file ≡ some (record { header = header; extents = locate dev.rvn extents })

-- Containers and the devices made of them, from position `i` on.
pub data AllMounted : ℕ → List Container → List Device → Type 0 where
  done : {i : ℕ} → AllMounted i [] []
  next :
      {i : ℕ} {c : Container} {cs : List Container} {d : Device} {ds : List Device}
      → IsMounted i c d
      → AllMounted (i + 1) cs ds
      → AllMounted i (c ∷ cs) (d ∷ ds)

bootstrap_index_file-eq :
    (fuel : ℕ) (dev out : Device)
    → bootstrap_index_file fuel dev ≡ ok out
    → (b : List ℕ) × (h : FileHeader) × (f : File) × (dev.container.read_block
          (u32 (dev.home.index_bitmap_lbn + dev.home.index_bitmap_size))
        ≡ ok b)
      × (valid_file_header b ≡ ok h)
      × (number h.fid ≡ number index_file_fid)
      × (h.fid.seq ≡ 1)
      × (build_file fuel dev h ≡ ok f)
      × (out ≡ record dev { index_file = some f })
unfolding bootstrap_index_file
bootstrap_index_file-eq fuel dev out k =
    let (b, r, k1) =
      >>=-eq-ok
        (dev.container.read_block (u32 (dev.home.index_bitmap_lbn + dev.home.index_bitmap_size))) _
        k in
    let (h, v, k2) = >>=-eq-ok (valid_file_header b) _ k1 in
    elim (Bool-cases (not (number h.fid == number index_file_fid) || not (h.fid.seq == 1))) [
      | inl t ↦ absurd (ground (arith, t, k2))
      | inr t ↦
          let (f, m, k3) = >>=-eq-ok (build_file fuel dev h) _ (rw t at k2) in
          (b, h, f, r, v, ground (arith, t), ground (arith, t), m, ground (arith, k3))
    ]

mount_device-IsMounted :
    (fuel i : ℕ) (c : Container) (dev : Device) → mount_device fuel i c ≡ ok dev → IsMounted i c dev
unfolding mount_device
mount_device-IsMounted fuel i c dev k =
    let (home, hm, k1) = >>=-eq-ok (find_home_block c) _ k in
    let start : Device = record {
      container = c;
      home = home;
      rvn = u8 (i + 1);
      index_file = none;
      accessed = [];
    } in
    let wrong : Bool =
      not (home.relative_volume_number == u8 (i + 1))
      && not (i == 0 && leb home.relative_volume_number 1) in
    elim (Bool-cases wrong) [
      | inl t ↦ absurd (ground (arith, t, k1))
      | inr t ↦
          let (b, h, f, r, v, num, seq, built, made) =
            bootstrap_index_file-eq fuel start dev (rw t at k1) in
          let (es, chain, same, located) = build_file-Segments fuel start h f built in
          let (lbn, _, _, is, _) = find_home_block-IsHome c home hm in
          rw made (record {
            container = refl;
            position = refl;
            numbered = ground (arith, t);
            idle = refl;
            home_lbn = lbn;
            home = is;
            header = h;
            block = b;
            read = r;
            valid = v;
            own_number = num;
            own_seq = seq;
            extents = es;
            chain = chain;
            index = cc (same, located);
          })
    ]

mount_from-AllMounted :
    (fuel i : ℕ) (cs : List Container) (ds : List Device)
    → mount_from fuel i cs ≡ ok ds
    → AllMounted i cs ds
unfolding mount_from
mount_from-AllMounted fuel i [] ds k = let e : [] ≡ ds = ground arith in rw (← e) done
mount_from-AllMounted fuel i (c ∷ cs) ds k =
    let (d, m, k1) = >>=-eq-ok (mount_device fuel i c) _ k in
    let (rest, ms, k2) = >>=-eq-ok (mount_from fuel (i + 1) cs) _ k1 in
    let e : d ∷ rest ≡ ds = ground arith in
    rw (← e)
      (next (mount_device-IsMounted fuel i c d m) (mount_from-AllMounted fuel (i + 1) cs rest ms))

-- Where Mount succeeds, it has made one device of each container, in their order. Each has its
-- place as its volume number, agreeing with the home block (which may say 0 or 1 on the first); a
-- home block that stands in its container; and as its index file the file of the valid header right
-- behind the index bitmap, which identifies itself as the index file, with the extents of its whole
-- chain of headers. No file of it is accessed.
pub mount-AllMounted :
    (fuel : ℕ) (cs : List Container) (ds : List Device) → mount fuel cs ≡ ok ds → AllMounted 0 cs ds
unfolding mount
mount-AllMounted fuel [] ds k = cc
mount-AllMounted fuel (c ∷ cs) ds k = mount_from-AllMounted fuel 0 (c ∷ cs) ds k

pub data Member (d : Device) : List Device → Type 0 where
  here : {ds : List Device} → Member d (d ∷ ds)
  there : {e : Device} {ds : List Device} → Member d ds → Member d (e ∷ ds)

-- A file of the map that the list stands for, under its number.
pub data HeldUnder (n : ℕ) (f : File) : List (ℕ × File) → Type 0 where
  here : {k : ℕ} {g : File} {rest : List (ℕ × File)} → k ≡ n → g ≡ f → HeldUnder n f ((k, g) ∷ rest)
  there :
      {k : ℕ} {g : File} {rest : List (ℕ × File)}
      → k ≢ n
      → HeldUnder n f rest
      → HeldUnder n f ((k, g) ∷ rest)

-- The file of a device that is not accessed under the identification: the header in the index file
-- has its number, and the extents are those of the header's chain.
pub record IsRead (d : Device) (fid : Fid) (f : File) : Type 0 where
  pub unheld : (g : File) → HeldUnder (number fid) g d.accessed → g.header.fid.seq ≢ fid.seq
  pub same_number : number f.header.fid ≡ number fid
  pub extents : List Extent
  pub chain : Segments d [] f.header extents
  pub located : f.extents ≡ locate d.rvn extents
