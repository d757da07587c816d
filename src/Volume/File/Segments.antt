-- ===== src/Volume/File/Segments.antt =====
-- volume/file.go: the chain of headers of a file as a relation, and the loop that follows it.
use ods.Base.{
  ℕ, zero, suc, ◌+◌, ◌≡◌, refl, ap, List, [], ◌∷◌, ◌++◌, true, false, ok, err, >>=-eq-ok,
  out_of_fuel, arith, append_assoc, Bool-cases, inl, inr, some,
}
use ods.Ondisk.Fid.{Fid, number, is_zero}
use ods.Ondisk.FileHeader.{FileHeader, valid_file_header}
use ods.Ondisk.Retrieval.{Extent, retrieval_pointers}
use ods.Volume.Device.{Device, File, ExtentLocation}
use ods.Volume.Extents.{read_extents}
use ods.Volume.File.{
  locate, index_extents, extents_or, build_segments, build_file, read_file_header_via_index,
  file_header_vbn,
}

-- `Segments dev found h es`: the headers from `h` on, found behind the extents `found`, end, and
-- map the extents `es` in their order.
pub data Segments (dev : Device) : List ExtentLocation → FileHeader → List Extent → Type 0 where
  last :
      {found : List ExtentLocation} {h : FileHeader} {es : List Extent}
      → retrieval_pointers h ≡ ok es
      → is_zero h.extension_fid ≡ true
      → Segments dev found h es
  more :
      {found : List ExtentLocation} {h next : FileHeader} {es rest : List Extent}
      → retrieval_pointers h ≡ ok es
      → is_zero h.extension_fid ≡ false
      → read_file_header_via_index dev
          (index_extents dev (found ++ locate dev.rvn es))
          h.extension_fid
        ≡ ok next
      → Segments dev (found ++ locate dev.rvn es) next rest
      → Segments dev found h (es ++ rest)

map-append : (r : ℕ) (xs ys : List Extent) → locate r (xs ++ ys) ≡ locate r xs ++ locate r ys
map-append r [] ys = refl
map-append r (x ∷ xs) ys = cc (map-append r xs ys)

build_segments-Segments :
    (fuel : ℕ) (dev : Device) (found out : List ExtentLocation) (h : FileHeader)
    → build_segments fuel dev found h ≡ ok out
    → (es : List Extent) × Segments dev found h es × (out ≡ found ++ locate dev.rvn es)
unfolding build_segments
build_segments-Segments zero dev found out h k = cc
build_segments-Segments (suc fuel) dev found out h k =
    let (es, here, k') = >>=-eq-ok (retrieval_pointers h) _ k in
    elim (Bool-cases (is_zero h.extension_fid)) [
      | inl z ↦ (es, last here z, ground (arith, z, k'))
      | inr z ↦
          let (next, got, k'') =
            >>=-eq-ok
              (read_file_header_via_index dev (index_extents dev (found ++ locate dev.rvn es))
                h.extension_fid)
              _ (rw z at k') in
          let (rest, chain, same) =
            build_segments-Segments fuel dev (found ++ locate dev.rvn es) out next k'' in
          (
            es ++ rest,
            more here z got chain,
            cc (
              same,
              append_assoc found (locate dev.rvn es) (locate dev.rvn rest),
              map-append dev.rvn es rest,
            ),
          )
    ]

Segments-build_segments :
    {dev : Device} {found : List ExtentLocation} {h : FileHeader} {es : List Extent}
    → Segments dev found h es
    → (n : ℕ) × ((k : ℕ) → build_segments (n + k) dev found h ≡ ok (found ++ locate dev.rvn es))
unfolding build_segments
Segments-build_segments (last here z) =
    (1, λ k. let one : 1 + k ≡ suc k = omega arith in rw (one, here, z) refl)
Segments-build_segments {dev = dev} {found = found}
      (more {es = es} {rest = rest} here z got chain) =
    let (n, ih) = Segments-build_segments chain in
    (
      suc n,
      λ k.
          let step : suc n + k ≡ suc (n + k) = omega arith in
          rw (step, here, z, got)
            (cc (
              ih k,
              append_assoc found (locate dev.rvn es) (locate dev.rvn rest),
              map-append dev.rvn es rest,
            )),
    )

-- Whatever its fuel, where buildFile succeeds the chain of headers ends, and the file has the
-- primary header and the extents of the whole chain, in order, on the device it was opened on.
pub build_file-Segments :
    (fuel : ℕ) (dev : Device) (primary : FileHeader) (f : File)
    → build_file fuel dev primary ≡ ok f
    → (es : List Extent) × Segments dev [] primary es
      × (f.header ≡ primary)
      × (f.extents ≡ locate dev.rvn es)
unfolding build_file
build_file-Segments fuel dev primary f k =
    let (out, got, made) = >>=-eq-ok (build_segments fuel dev [] primary) _ k in
    let (es, chain, same) = build_segments-Segments fuel dev [] out primary got in
    (es, chain, ground (arith, made), ground (arith, made, same))

-- Where the chain of headers ends, buildFile succeeds with the extents of the whole chain, given
-- some number of rounds or any more.
pub Segments-build_file :
    (dev : Device) (primary : FileHeader) (es : List Extent)
    → Segments dev [] primary es
    → (n : ℕ) × ((k : ℕ)
        → build_file (n + k) dev primary
          ≡ ok (record { header = primary; extents = locate dev.rvn es }))
unfolding build_file
Segments-build_file dev primary es chain =
    let (n, runs) = Segments-build_segments chain in (n, λ k. rw (runs k) refl)

index_extents_mounted :
    (dev : Device) (index : File) (found : List ExtentLocation)
    → dev.index_file ≡ some index
    → index_extents dev found ≡ index.extents
unfolding index_extents extents_or
index_extents_mounted dev index found i = ap (extents_or found) i

cyclic_segments :
    (fuel : ℕ) (dev : Device) (index : File) (found : List ExtentLocation) (h : FileHeader)
    (es : List Extent)
    → dev.index_file ≡ some index
    → retrieval_pointers h ≡ ok es
    → is_zero h.extension_fid ≡ false
    → read_file_header_via_index dev index.extents h.extension_fid ≡ ok h
    → build_segments fuel dev found h ≡ err out_of_fuel
unfolding build_segments
cyclic_segments zero dev index found h es i r z g = refl
cyclic_segments (suc fuel) dev index found h es i r z g =
    rw (r, z, index_extents_mounted dev index (found ++ locate dev.rvn es) i, g)
      (cyclic_segments fuel dev index (found ++ locate dev.rvn es) h es i r z g)

-- On a mounted device, a header that names itself as its extension is followed for ever: buildFile
-- does not return in any number of rounds.
pub build_file_cyclic :
    (fuel : ℕ) (dev : Device) (index : File) (h : FileHeader) (es : List Extent)
    → dev.index_file ≡ some index
    → retrieval_pointers h ≡ ok es
    → is_zero h.extension_fid ≡ false
    → read_file_header_via_index dev index.extents h.extension_fid ≡ ok h
    → build_file fuel dev h ≡ err out_of_fuel
unfolding build_file
build_file_cyclic fuel dev index h es i r z g =
    rw (cyclic_segments fuel dev index [] h es i r z g) refl

-- A header that the index gives for a file identification is one whose block at the file number's
-- place in INDEXF.SYS has a valid checksum, and it carries the number and the sequence number asked
-- for: a stale identification is refused.
pub read_file_header_via_index-fresh :
    (dev : Device) (extents : List ExtentLocation) (fid : Fid) (h : FileHeader)
    → read_file_header_via_index dev extents fid ≡ ok h
    → (b : List ℕ) × (read_extents dev extents (file_header_vbn dev.home (number fid)) ≡ ok b)
      × (valid_file_header b ≡ ok h)
      × (number h.fid ≡ number fid)
      × (h.fid.seq ≡ fid.seq)
unfolding read_file_header_via_index
read_file_header_via_index-fresh dev extents fid h k =
    let (b, got, k') =
      >>=-eq-ok (read_extents dev extents (file_header_vbn dev.home (number fid))) _ k in
    let (header, valid, k'') = >>=-eq-ok (valid_file_header b) _ k' in
    let same : (header ≡ h) × (number header.fid ≡ number fid) × (header.fid.seq ≡ fid.seq) =
      ground arith in
    (b, got, cc (valid, same.0), ground (arith, same), ground (arith, same))
