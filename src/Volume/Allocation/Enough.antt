-- ===== src/Volume/Allocation/Enough.antt =====
-- volume/writeheader.go: allocateExtents on a volume with enough free clusters, and without.
use ods.Volume.Allocation.Taken.{Taken}
