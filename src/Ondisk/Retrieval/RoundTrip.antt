-- ===== src/Ondisk/Retrieval/RoundTrip.antt =====
-- ondisk/retrieval.go: encoding a list of extents and decoding it from a header.
use ods.Base.{
  ℕ, zero, suc, ◌+◌, ◌*◌, ◌%◌, ◌≤◌, ◌<◌, ◌≡◌, refl, ap, sym, ◌∙◌, List, [], ◌∷◌, ◌++◌, ok, err,
  arith, length, length-append, append-nil, append_assoc, All,
}
use ods.Ondisk.FileHeader.{FileHeader}
use ods.Ondisk.Retrieval.{
  Extent, read_word, read_entry, read_entries, retrieval_pointers, encode_extent, encode_entries,
  encode_retrieval_pointers,
}
use ods.Ondisk.Retrieval.Entry.{ExtentInRange, encode_extent-ReadsBack}

-- The bytes of one extent, and of a list of them.
bytes : Extent → List ℕ
bytes e = elim (encode_extent e) [ ok a ↦ a | err x ↦ [] ]

unfoldable pub all_bytes : List Extent → List ℕ
unfolding bytes
all_bytes [] = []
all_bytes (e ∷ es) = bytes e ++ all_bytes es

encode_extent-bytes :
    (e : Extent) → ExtentInRange e → (encode_extent e ≡ ok (bytes e)) × (4 ≤ length (bytes e))
unfolding encode_extent bytes
encode_extent-bytes e h = ground arith

bytes_size :
    (e : Extent)
    → ExtentInRange e
    → (length (bytes e) % 2 ≡ 0) × (length (bytes e) ≤ 8) × (4 ≤ length (bytes e))
unfolding encode_extent bytes
bytes_size e h = ground arith

encode_entries-bytes :
    (b : List ℕ) (es : List Extent)
    → All ExtentInRange es
    → encode_entries b es ≡ ok (b ++ all_bytes es)
unfolding encode_entries all_bytes
encode_entries-bytes b [] h = ap ok (sym (append-nil b))
encode_entries-bytes b (e ∷ es) (h, hs) = ground (
  arith,
  encode_extent-bytes e h,
  encode_entries-bytes (b ++ bytes e) es hs,
  append_assoc b (bytes e) (all_bytes es),
)

read_entries_step :
    (fuel : ℕ) (raw : List ℕ) (map_end pos w next : ℕ) (acc new : List Extent)
    → pos < map_end
    → read_word raw pos ≡ ok w
    → read_entry raw pos w ≡ ok (new, next)
    → read_entries (suc fuel) raw map_end pos acc ≡ read_entries fuel raw map_end next (acc ++ new)
unfolding read_entries
read_entries_step fuel raw map_end pos w next acc new h p q = ground arith

read_entries_end :
    (fuel : ℕ) (raw : List ℕ) (pos : ℕ) (acc : List Extent)
    → read_entries fuel raw pos pos acc ≡ ok acc
unfolding read_entries
read_entries_end zero raw pos acc = ground arith
read_entries_end (suc fuel) raw pos acc = ground arith

regroup : (pre a r post : List ℕ) → pre ++ ((a ++ r) ++ post) ≡ (pre ++ a) ++ (r ++ post)
regroup pre a r post = simp append_assoc

read_entries-bytes :
    (es : List Extent) (pre post : List ℕ) (fuel map_end : ℕ) (acc : List Extent)
    → All ExtentInRange es
    → map_end ≡ length pre + length (all_bytes es)
    → length (all_bytes es) ≤ fuel * 2
    → read_entries fuel (pre ++ (all_bytes es ++ post)) map_end (length pre) acc ≡ ok (acc ++ es)
unfolding all_bytes
read_entries-bytes [] pre post fuel map_end acc h e f =
    let e' : map_end ≡ length pre = omega arith in
    rw (e', append-nil) (read_entries_end fuel (pre ++ post) (length pre) acc)
read_entries-bytes (x ∷ es) pre post zero map_end acc (hx, h) e f =
    absurd (omega (arith, encode_extent-bytes x hx, length-append (bytes x) (all_bytes es)))
read_entries-bytes (x ∷ es) pre post (suc fuel) map_end acc (hx, h) e f =
    let a = bytes x in
    let r = all_bytes es in
    let (ea, la) = encode_extent-bytes x hx in
    let (w, read, entry) = encode_extent-ReadsBack pre (r ++ post) a x hx ea in
    let le = length-append a r in
    let lp = length-append pre a in
    let raw : List ℕ = pre ++ (a ++ (r ++ post)) in
    let step =
      read_entries_step fuel raw map_end (length pre) w (length pre + length a) acc (x ∷ [])
        (omega arith) read entry in
    let ih =
      read_entries-bytes es (pre ++ a) post fuel map_end (acc ++ x ∷ []) h (omega arith)
        (omega arith) in
    rw append_assoc (step ∙ rw (append_assoc, lp, append_assoc) at ih)

-- Any list of extents with counts from 1 to 2^30 is encoded, and a header that holds the encoding
-- as its map area decodes to the same list, whatever the other bytes of the header are.
pub retrieval_pointers-encode_retrieval_pointers :
    (h : FileHeader) (es : List Extent) (pre enc post : List ℕ)
    → All ExtentInRange es
    → encode_retrieval_pointers es ≡ ok enc
    → h.raw ≡ pre ++ (enc ++ post)
    → length pre ≡ h.map_offset * 2
    → length enc ≡ h.map_words_in_use * 2
    → retrieval_pointers h ≡ ok es
unfolding retrieval_pointers encode_retrieval_pointers
retrieval_pointers-encode_retrieval_pointers h es pre enc post hs k e ep ee =
    let raw_len : length h.raw ≡ length pre + (length enc + length post) =
      rw e (rw (length-append, length-append) refl) in
    let same : enc ≡ all_bytes es = cc (encode_entries-bytes [] es hs) in
    ground (
      arith,
      same,
      raw_len,
      read_entries-bytes es pre post h.map_words_in_use (h.map_offset * 2 + h.map_words_in_use * 2)
          [] hs,
    )

all_bytes_size :
    (es : List Extent)
    → All ExtentInRange es
    → (length (all_bytes es) % 2 ≡ 0)
      × (length (all_bytes es) ≤ 8 * length es)
      × (4 * length es ≤ length (all_bytes es))
unfolding all_bytes
all_bytes_size [] h = omega arith
all_bytes_size (e ∷ es) (h, hs) =
    omega (arith, bytes_size e h, length-append (bytes e) (all_bytes es), all_bytes_size es hs)

-- Every list of extents with counts from 1 to 2^30 and 32-bit block numbers has an encoding, in
-- whole words, of two to four words an extent.
pub encode_retrieval_pointers_total :
    (es : List Extent)
    → All ExtentInRange es
    → (enc : List ℕ) × (encode_retrieval_pointers es ≡ ok enc)
      × (length enc % 2 ≡ 0)
      × (length enc ≤ 8 * length es)
      × (4 * length es ≤ length enc)
unfolding encode_retrieval_pointers
encode_retrieval_pointers_total es h =
    let (even, most, least) = all_bytes_size es h in
    (all_bytes es, encode_entries-bytes [] es h, even, most, least)
