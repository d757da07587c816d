-- ===== src/Volume/Extents.antt =====
-- volume/file.go: from the virtual block numbers of a file to the logical ones of its device.
pub mod Mapping
mod Examples
use ods.Base.{
  ℕ, ◌+◌, ◌-◌, List, [], ◌∷◌, Result, ok, err, ◌>>=◌, zero_vbn, beyond_file, leb, ◌==◌,
  if◌then◌else◌,
}
use ods.Base.Word.{u32}
use ods.Volume.Device.{ExtentLocation, Device}

-- The loop over the extents, with `remaining` blocks to go.
unfoldable pub resolve_from : ℕ → List ExtentLocation → Result ℕ
resolve_from remaining [] = err beyond_file
resolve_from remaining (e ∷ es) =
    let rest = resolve_from (remaining - e.extent.count) es in
    if leb remaining e.extent.count then ok (u32 (e.extent.start_lbn + (remaining - 1))) else rest

unfoldable pub resolve_extent_lbn : List ExtentLocation → ℕ → Result ℕ
unfolding resolve_from
resolve_extent_lbn extents vbn = if vbn == 0 then err zero_vbn else resolve_from vbn extents

unfoldable pub read_extents : Device → List ExtentLocation → ℕ → Result (List ℕ)
read_extents dev extents vbn = do lbn ← resolve_extent_lbn extents vbn; dev.container.read_block lbn
