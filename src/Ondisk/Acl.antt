-- ===== src/Ondisk/Acl.antt =====
-- ondisk/acl.go: the access control list of a file header, as bytes.
pub mod RoundTrip
use ods.Base.{
  ℕ, zero, suc, ◌+◌, ◌*◌, ◌%◌, List, [], ◌∷◌, ◌++◌, Bool, ◌||◌, Result, ok, err, bad_acl_area,
  length, take, slice, replicate, ltb, ◌==◌, ◌-◌, if◌then◌else◌,
}
use ods.Base.Word.{byte_at}
use ods.Ondisk.FileHeader.{FileHeader}

-- The loop over the entries: the bytes in use. An entry takes a byte at least, so the area's length
-- is fuel enough.
unfoldable pub acl_used : ℕ → List ℕ → ℕ → ℕ
acl_used zero area used = used
acl_used (suc fuel) area used =
    let size = byte_at area used in
    let more = acl_used fuel area (used + size) in
    if ltb used (length area)
    then (if size == 0 || ltb (length area) (used + size) then used else more)
    else used

-- FileHeader.ACL. The source's nil is the list without bytes.
unfoldable pub acl : FileHeader → Result (List ℕ)
unfolding acl_used
acl h =
    let start = h.acl_offset * 2 in
    let end = h.end_offset * 2 in
    let area = slice h.raw start (end - start) in
    if start == end
    then ok []
    else if ltb end start || ltb 510 end
    then err bad_acl_area
    else ok (take (acl_used (length area) area 0) area)

unfoldable pub acl_area : List ℕ → List ℕ
acl_area bytes = bytes ++ replicate (length bytes % 2) 0
