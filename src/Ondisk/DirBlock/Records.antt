-- ===== src/Ondisk/DirBlock/Records.antt =====
-- ondisk/directory.go: reading back one name record, wherever it stands in a block.
use ods.Base.{
  ℕ, ◌+◌, ◌-◌, ◌*◌, ◌/◌, ◌%◌, ◌≤◌, ◌<◌, ◌≡◌, ◌^◌, refl, ◌∙◌, List, [], ◌∷◌, ◌++◌, ok, arith, length,
  slice, replicate, All, length-append, length-replicate, append_assoc, drop-append_more,
  drop-append, take-append, drop,
}
use ods.Base.Word.{u8, u16, u16_at, byte_at, ◌>>>◌, byte_at-append, u16_at-append, split_u16}
use ods.Ondisk.Fid.{FidInRange, encode_fid}
use ods.Ondisk.DirEntry.{DirEntry}
use ods.Ondisk.DirBlock.{
  word, round_up_to_even, read_versions, read_record, version_bytes, encode_record, record_limit,
}

pub record EntryInRange (e : DirEntry) : Type 0 where
  pub version : e.version < 2 ^ 16
  pub fid : FidInRange e.fid

-- The entries of one name, under the name and the limit of their record.
abbrev pub relabel : List ℕ → ℕ → List DirEntry → List DirEntry
relabel name limit [] = []
relabel name limit (v ∷ vs) =
    record v { name = name; version_limit = limit } ∷ relabel name limit vs

length-version_bytes : (vs : List DirEntry) → length (version_bytes vs) ≡ length vs * 8
unfolding version_bytes
length-version_bytes [] = omega arith
length-version_bytes (v ∷ vs) = omega (arith, length-version_bytes vs)

read_versions-version_bytes :
    (vs : List DirEntry) (pre post name : List ℕ) (limit p : ℕ)
    → All EntryInRange vs
    → p ≡ length pre
    → read_versions (length vs) (pre ++ (version_bytes vs ++ post)) p name limit
      ≡ relabel name limit vs
unfolding read_versions version_bytes
read_versions-version_bytes [] pre post name limit p h e = refl
read_versions-version_bytes (v ∷ vs) pre post name limit p (h, hs) e =
    let entry : List ℕ = word v.version ++ encode_fid v.fid in
    let ys : List ℕ = entry ++ (version_bytes vs ++ post) in
    let block : (pre ++ entry) ++ (version_bytes vs ++ post) ≡ pre ++ ys =
      append_assoc pre entry (version_bytes vs ++ post) in
    let ih =
      read_versions-version_bytes vs (pre ++ entry) post name limit (p + 8) hs
        (omega (arith, length-append pre entry)) in
    let ih' : read_versions (length vs) (pre ++ ys) (p + 8) name limit ≡ relabel name limit vs =
      rw block at ih in
    ground (
      arith,
      ih',
      u16_at-append pre ys 0 p,
      u16_at-append pre ys 2 (p + 2),
      u16_at-append pre ys 4 (p + 2 + 2),
      byte_at-append pre ys 6 (p + 2 + 4),
      byte_at-append pre ys 7 (p + 2 + 5),
      split_u16 v.version,
      split_u16 v.fid.num,
      split_u16 v.fid.seq,
    )

abbrev padding : List ℕ → List ℕ
padding name = replicate (round_up_to_even (length name) - length name) 0

pub length-encode_record :
    (name : List ℕ) (vs : List DirEntry)
    → length (encode_record name vs) ≡ 6 + round_up_to_even (length name) + length vs * 8
unfolding encode_record
length-encode_record name vs = omega (
  arith,
  length-append name (padding name ++ version_bytes vs),
  length-append (padding name) (version_bytes vs),
  length-replicate {A = ℕ} (round_up_to_even (length name) - length name) 0,
  length-version_bytes vs,
)

-- The record followed by the rest of the block, with the brackets to the right.
encode_record_flat :
    (name rest : List ℕ) (vs : List DirEntry)
    → encode_record name vs ++ rest
      ≡ u8 (u16 (length (encode_record name vs) - 2))
        ∷ u8 (u16 (length (encode_record name vs) - 2) >>> 8)
        ∷ u8 (record_limit vs)
        ∷ u8 (record_limit vs >>> 8)
        ∷ 0
        ∷ u8 (length name)
        ∷ (name ++ (padding name ++ (version_bytes vs ++ rest)))
encode_record_flat name rest vs =
    rw length-encode_record (unfold encode_record in simp append_assoc)

pub record_limit-le : (vs : List DirEntry) → (1 ≤ record_limit vs) × (record_limit vs ≤ 32767)
unfolding record_limit
record_limit-le vs = ground arith

-- A record whose fields are consistent is read as they say.
read_record_fields :
    (block : List ℕ) (offset size limit k : ℕ) (name : List ℕ) (out : List DirEntry)
    → u16_at block offset ≡ size
    → u16_at block (offset + 2) ≡ limit
    → byte_at block (offset + 5) ≡ length name
    → slice block (offset + 6) (length name) ≡ name
    → size + 2 ≡ 6 + round_up_to_even (length name) + k * 8
    → offset + size + 2 ≤ length block
    → read_versions k block (offset + 6 + round_up_to_even (length name)) name limit ≡ out
    → read_record block offset ≡ ok (out, offset + size + 2)
unfolding read_record
read_record_fields block offset size limit k name out hs hl hc hn e fit hv =
    let area : offset + size + 2 - (offset + 6 + round_up_to_even (length name)) ≡ k * 8 =
      omega arith in
    let rows : k * 8 / 8 ≡ k = omega arith in
    let whole : k * 8 % 8 ≡ 0 = omega arith in
    rw (hs, hl, hc, hn, area, rows, whole, hv) (ground arith)

slice-append :
    (pre front xs post : List ℕ) (i : ℕ)
    → i ≡ length pre + length front
    → slice (pre ++ (front ++ (xs ++ post))) i (length xs) ≡ xs
slice-append pre front xs post i e =
    let d : drop i (pre ++ (front ++ (xs ++ post))) ≡ xs ++ post =
      rw (e, drop-append_more pre (front ++ (xs ++ post)) (length front))
        (drop-append front (xs ++ post)) in
    rw d (take-append xs post)

-- DecodeDirectoryBlock's round at a name record gives back its versions and the place behind it.
pub read_record-encode_record :
    (pre post name : List ℕ) (vs : List DirEntry)
    → length name ≤ 255
    → All EntryInRange vs
    → length (encode_record name vs) ≤ 512
    → read_record (pre ++ (encode_record name vs ++ post)) (length pre)
      ≡ ok (relabel name (record_limit vs) vs, length pre + length (encode_record name vs))
read_record-encode_record pre post name vs hn hv hl =
    let size : ℕ = length (encode_record name vs) - 2 in
    let limit : ℕ = record_limit vs in
    let head : List ℕ =
      u8 (u16 size)
      ∷ u8 (u16 size >>> 8)
      ∷ u8 limit
      ∷ u8 (limit >>> 8)
      ∷ 0
      ∷ u8 (length name)
      ∷ [] in
    let ys : List ℕ = head ++ (name ++ (padding name ++ (version_bytes vs ++ post))) in
    let total = length-encode_record name vs in
    let before : List ℕ = pre ++ (head ++ (name ++ padding name)) in
    let moved : before ++ (version_bytes vs ++ post) ≡ pre ++ ys = simp append_assoc in
    let long : length before ≡ length pre + 6 + round_up_to_even (length name) = omega (
      arith,
      length-append pre (head ++ (name ++ padding name)),
      length-append name (padding name),
      length-replicate {A = ℕ} (round_up_to_even (length name) - length name) 0,
    ) in
    let block_long : length before + length vs * 8 ≤ length (pre ++ ys) = rw (← moved) (
      omega (
        arith,
        length-append before (version_bytes vs ++ post),
        length-append (version_bytes vs) post,
        length-version_bytes vs,
      )) in
    let limit_le = record_limit-le vs in
    let end : length pre + size + 2 ≡ length pre + length (encode_record name vs) = omega arith in
    rw (encode_record_flat, ← end)
      (read_record_fields (pre ++ ys) (length pre) size limit (length vs) name
        (relabel name limit vs) (u16_at-append pre ys 0 (length pre) (omega arith) ∙ omega arith)
        (u16_at-append pre ys 2 (length pre + 2) refl ∙ omega arith)
        (byte_at-append pre ys 5 (length pre + 5) refl ∙ omega arith)
        (slice-append pre head name (padding name ++ (version_bytes vs ++ post)) (length pre + 6)
          refl)
        (omega arith) (omega arith)
        (rw moved at (
          read_versions-version_bytes vs before post name limit
            (length pre + 6 + round_up_to_even (length name)) hv (omega arith))))

-- The size field of a record counts the bytes behind it.
pub u16_at-encode_record :
    (pre post name : List ℕ) (vs : List DirEntry)
    → length (encode_record name vs) ≤ 512
    → u16_at (pre ++ (encode_record name vs ++ post)) (length pre) + 2
      ≡ length (encode_record name vs)
u16_at-encode_record pre post name vs h =
    let total = length-encode_record name vs in
    omega
      (arith, u16_at-append pre (encode_record name vs ++ post) 0 (length pre) (omega arith), first)
  where
    first : u16_at (encode_record name vs ++ post) 0 + 2 ≡ length (encode_record name vs)
    first = rw encode_record_flat (omega (arith, length-encode_record name vs))
