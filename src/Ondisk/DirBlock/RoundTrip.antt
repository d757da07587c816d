-- ===== src/Ondisk/DirBlock/RoundTrip.antt =====
-- ondisk/directory.go: EncodeDirectoryBlock and then DecodeDirectoryBlock, entry by entry.
use ods.Base.{
  ℕ, zero, suc, ◌+◌, ◌-◌, ◌*◌, ◌≤◌, ◌≡◌, refl, ap, ◌∙◌, sym, List, [], ◌∷◌, ◌++◌, ok, arith, length,
  replicate, All, length-append, length-replicate, append_assoc, append-nil, ltb, Bool-cases, inl,
  inr, >>=-eq-ok,
}
use ods.Base.Word.{u16_at, u16_at-append}
use ods.Ondisk.DirEntry.{DirEntry, names_seen, group_of, sort_names, sort_versions}
use ods.Ondisk.DirEntry.Groups.{group_of-All, sort_versions-All}
use ods.Ondisk.DirBlock.{
  read_record, read_records, encode_record, encode_records, record_limit, decode_directory_block,
  encode_directory_block,
}
use ods.Ondisk.DirBlock.Records.{
  EntryInRange, relabel, read_record-encode_record, u16_at-encode_record, length-encode_record,
}

abbrev pub versions_of : List ℕ → List DirEntry → List DirEntry
versions_of name entries = sort_versions (group_of name entries)

-- The entries in the order of a directory block: by name, and within a name the highest version
-- first, each with the version limit of its name.
unfoldable pub listing : List (List ℕ) → List DirEntry → List DirEntry
listing [] entries = []
listing (n ∷ ns) entries =
    relabel n (record_limit (versions_of n entries)) (versions_of n entries) ++ listing ns entries

unfoldable pub canonical : List DirEntry → List DirEntry
unfolding listing
canonical entries = listing (sort_names (names_seen [] entries)) entries

body : List (List ℕ) → List DirEntry → List ℕ
body [] entries = []
body (n ∷ ns) entries = encode_record n (versions_of n entries) ++ body ns entries

abbrev ShortName : List ℕ → Type 0
ShortName n = length n ≤ 255

encode_records-body :
    (ns : List (List ℕ)) (es : List DirEntry) (block out : List ℕ)
    → encode_records ns es block ≡ ok out
    → (out ≡ block ++ body ns es) × All ShortName ns
unfolding encode_records body
encode_records-body [] es block out h = (cc (append-nil block), tt)
encode_records-body (n ∷ ns) es block out h = elim (Bool-cases (ltb 255 (length n))) [
  | inl t ↦ absurd (ground (arith, t))
  | inr t ↦
      let rec : List ℕ = encode_record n (versions_of n es) in
      let (same, short) = encode_records-body ns es (block ++ rec) out (ground (arith, t)) in
      (same ∙ append_assoc block rec (body ns es), (ground (arith, t), short))
]

read_records_step :
    (fuel : ℕ) (block : List ℕ) (offset next : ℕ) (acc new : List DirEntry)
    → offset + 6 ≤ length block
    → u16_at block offset ≤ 510
    → read_record block offset ≡ ok (new, next)
    → read_records (suc fuel) block offset acc ≡ read_records fuel block next (acc ++ new)
unfolding read_records
read_records_step fuel block offset next acc new h p q = ground arith

read_records_end :
    (fuel : ℕ) (pre post : List ℕ) (acc : List DirEntry)
    → length (pre ++ (255 ∷ 255 ∷ post)) ≤ length pre + 6 * fuel + 5
    → read_records fuel (pre ++ (255 ∷ 255 ∷ post)) (length pre) acc ≡ ok acc
unfolding read_records
read_records_end zero pre post acc h = ground arith
read_records_end (suc fuel) pre post acc h =
    ground (arith, u16_at-append pre (255 ∷ 255 ∷ post) 0 (length pre) (omega arith))

-- One record of a block, and the rest by hypothesis.
read_records-encode_record :
    (fuel : ℕ) (pre rest n : List ℕ) (vs acc out : List DirEntry)
    → All EntryInRange vs
    → ShortName n
    → length (pre ++ (encode_record n vs ++ rest)) ≡ 512
    → length pre + length (encode_record n vs) + 2 ≤ 512
    → 512 ≤ length pre + 6 * fuel + 5
    → ((f : ℕ)
        → fuel ≡ suc f
        → read_records f
            ((pre ++ encode_record n vs) ++ rest)
            (length (pre ++ encode_record n vs))
            (acc ++ relabel n (record_limit vs) vs)
          ≡ ok out)
    → read_records fuel (pre ++ (encode_record n vs ++ rest)) (length pre) acc ≡ ok out
read_records-encode_record zero pre rest n vs acc out hv hn hl hs hf ih =
    absurd (omega (arith, length-encode_record n vs))
read_records-encode_record (suc f) pre rest n vs acc out hv hn hl hs hf ih =
    let size = u16_at-encode_record pre rest n vs (omega arith) in
    let step =
      read_records_step f (pre ++ (encode_record n vs ++ rest)) (length pre)
        (length pre + length (encode_record n vs)) acc (relabel n (record_limit vs) vs)
        (omega (arith, length-encode_record n vs)) (omega arith)
        (read_record-encode_record pre rest n vs hn hv (omega arith)) in
    step ∙ rw (append_assoc, length-append) at (ih f refl)

read_records-body :
    (ns : List (List ℕ)) (es : List DirEntry) (pre post : List ℕ) (fuel : ℕ) (acc : List DirEntry)
    → All EntryInRange es
    → All ShortName ns
    → length (pre ++ (body ns es ++ (255 ∷ 255 ∷ post))) ≡ 512
    → 512 ≤ length pre + 6 * fuel + 5
    → read_records fuel (pre ++ (body ns es ++ (255 ∷ 255 ∷ post))) (length pre) acc
      ≡ ok (acc ++ listing ns es)
unfolding body listing
read_records-body [] es pre post fuel acc he hn hl hf =
    rw append-nil (read_records_end fuel pre post acc (omega arith))
read_records-body (n ∷ ns) es pre post fuel acc he (hn, hns) hl hf =
    let vs = versions_of n es in
    let rec : List ℕ = encode_record n vs in
    let rest : List ℕ = body ns es ++ (255 ∷ 255 ∷ post) in
    let block : pre ++ ((rec ++ body ns es) ++ (255 ∷ 255 ∷ post)) ≡ pre ++ (rec ++ rest) =
      ap (λ t. pre ++ t) (append_assoc rec (body ns es) (255 ∷ 255 ∷ post)) in
    let moved : (pre ++ rec) ++ rest ≡ pre ++ (rec ++ rest) = append_assoc pre rec rest in
    let long : length (pre ++ (rec ++ rest)) ≡ 512 = sym (ap length block) ∙ hl in
    let sizes : (length rec + 2 ≤ 512) × (6 ≤ length rec) × (length pre + length rec + 2 ≤ 512) =
      omega (
        arith,
        long,
        length-append pre (rec ++ rest),
        length-append rec rest,
        length-append (body ns es) (255 ∷ 255 ∷ post),
        length-encode_record n vs,
      ) in
    let hv = sort_versions-All EntryInRange (group_of n es) (group_of-All EntryInRange n es he) in
    let more = read_records-body ns es (pre ++ rec) post in
    rw block (
      read_records-encode_record fuel pre rest n vs acc _ hv hn long sizes.2 hf (λ f e.
        more f (acc ++ relabel n (record_limit vs) vs) he hns (ap length moved ∙ long)
          (omega (arith, length-append pre rec)))
      ∙ ap ok (append_assoc acc (relabel n (record_limit vs) vs) (listing ns es)))

-- What DecodeDirectoryBlock reads from a block that EncodeDirectoryBlock writes.
pub decode_directory_block-canonical :
    (es : List DirEntry) (block : List ℕ)
    → All EntryInRange es
    → encode_directory_block es ≡ ok block
    → decode_directory_block block ≡ ok (canonical es)
unfolding encode_directory_block decode_directory_block canonical
decode_directory_block-canonical es block h k =
    let names = sort_names (names_seen [] es) in
    let (b, kb, k') = >>=-eq-ok (encode_records names es []) _ k in
    let (same, short) = encode_records-body names es [] b kb in
    let fits : length b + 2 ≤ 512 = ground arith in
    let post : List ℕ = replicate (512 - (length b + 2)) 0 in
    let out : block ≡ b ++ (255 ∷ 255 ∷ post) = ground arith in
    let out' : block ≡ body names es ++ (255 ∷ 255 ∷ post) = rw (← same) out in
    let long : length (body names es ++ (255 ∷ 255 ∷ post)) ≡ 512 = rw (← same) (
      omega (
        arith,
        length-append b (255 ∷ 255 ∷ post),
        length-replicate {A = ℕ} (512 - (length b + 2)) 0,
      )) in
    rw out'
      (ground (arith, long, read_records-body names es [] post 86 [] h short long (omega arith)))

-- The blocks that EncodeDirectoryBlock writes are whole blocks.
pub length-encode_directory_block :
    (es : List DirEntry) (block : List ℕ)
    → encode_directory_block es ≡ ok block
    → length block ≡ 512
unfolding encode_directory_block
length-encode_directory_block es block k =
    let (b, kb, k') = >>=-eq-ok (encode_records (sort_names (names_seen [] es)) es []) _ k in
    let fits : length b + 2 ≤ 512 = ground arith in
    let out : block ≡ b ++ (255 ∷ 255 ∷ replicate (512 - (length b + 2)) 0) = ground arith in
    rw out (
      omega (
        arith,
        length-append b (255 ∷ 255 ∷ replicate (512 - (length b + 2)) 0),
        length-replicate {A = ℕ} (512 - (length b + 2)) 0,
      ))
