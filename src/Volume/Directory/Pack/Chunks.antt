-- ===== src/Volume/Directory/Pack/Chunks.antt =====
-- volume/directory.go: which entries packDirectoryBlocks puts in which block.
use ods.Base.{
  ℕ, zero, suc, ◌≡◌, refl, sym, ap, ◌∙◌, inl, inr, List, [], ◌∷◌, ◌++◌, append-nil, append_assoc,
  ok, >>=-eq-ok, take, drop, ◌==◌, ◌&&◌, arith, Bool-cases, true, take-drop, length,
}
use ods.Ondisk.DirEntry.{DirEntry, names_seen, group_of, sort_names, sort_versions}
use ods.Ondisk.DirEntry.Counts.{grouped}
use ods.Ondisk.DirBlock.{encode_directory_block}
use ods.Volume.Directory.Pack.{
  none_of, directory_entries_fitting, flush, pack_group, pack_names, one_at_least,
  pack_directory_blocks,
}

abbrev pub joined : List (List DirEntry) → List DirEntry
joined [] = []
joined (c ∷ cs) = c ++ joined cs

joined-append : (cs ds : List (List DirEntry)) → joined (cs ++ ds) ≡ joined cs ++ joined ds
joined-append [] ds = refl
joined-append (c ∷ cs) ds =
    ap (λ t. c ++ t) (joined-append cs ds) ∙ sym (append_assoc c (joined cs) (joined ds))

-- Each block is the encoding of the entries beside it.
pub data Encoded : List (List DirEntry) → List (List ℕ) → Type 0 where
  done : Encoded [] []
  also :
      {c : List DirEntry} {cs : List (List DirEntry)} {b : List ℕ} {bs : List (List ℕ)}
      → encode_directory_block c ≡ ok b
      → Encoded cs bs
      → Encoded (c ∷ cs) (b ∷ bs)

Encoded-append :
    {cs ds : List (List DirEntry)} {bs as' : List (List ℕ)}
    → Encoded cs bs
    → Encoded ds as'
    → Encoded (cs ++ ds) (bs ++ as')
Encoded-append done k = k
Encoded-append (also e h) k = also e (Encoded-append h k)

-- Blocks for a beginning of the entries, and the rest of them pending.
abbrev Packed : List DirEntry → List (List ℕ) → List DirEntry → Type 0
Packed es blocks pending =
    (cs : List (List DirEntry)) × Encoded cs blocks × (joined cs ++ pending ≡ es)

flush-Packed :
    (es : List DirEntry) (blocks out : List (List ℕ)) (pending : List DirEntry)
    → Packed es blocks pending
    → flush blocks pending ≡ ok out
    → Packed es out []
unfolding flush
flush-Packed es blocks out [] (cs, enc, e) h =
    let same : blocks ≡ out = ground arith in (cs, rw (← same) enc, e)
flush-Packed es blocks out (p ∷ ps) (cs, enc, e) h =
    let (b, kb, h') = >>=-eq-ok (encode_directory_block (p ∷ ps)) _ h in
    let same : blocks ++ b ∷ [] ≡ out = ground arith in
    (
      cs ++ (p ∷ ps) ∷ [],
      rw (← same) (Encoded-append enc (also kb done)),
      append-nil _ ∙ joined-append cs ((p ∷ ps) ∷ []) ∙ rw append-nil e,
    )

none_of→nil : {A : Type 0} (xs : List A) → none_of xs ≡ true → xs ≡ []
none_of→nil [] h = refl
none_of→nil (x ∷ xs) h = cc

Packed-more :
    (es vs : List DirEntry) (blocks : List (List ℕ)) (pending : List DirEntry)
    → Packed es blocks pending
    → Packed (es ++ vs) blocks (pending ++ vs)
Packed-more es vs blocks pending (cs, enc, e) =
    (cs, enc, sym (append_assoc (joined cs) pending vs) ∙ ap (λ t. t ++ vs) e)

pack_group-Packed :
    (fuel : ℕ) (es vs : List DirEntry) (blocks blocks' : List (List ℕ))
    (pending pending' : List DirEntry)
    → Packed es blocks pending
    → pack_group fuel blocks pending vs ≡ ok (blocks', pending')
    → Packed (es ++ vs) blocks' pending'
unfolding pack_group
pack_group-Packed fuel es [] blocks blocks' pending pending' p h =
    let b : blocks ≡ blocks' = ground arith in
    let q : pending ≡ pending' = ground arith in rw (append-nil, ← b, ← q) p
pack_group-Packed zero es (v ∷ vs) blocks blocks' pending pending' p h = cc
pack_group-Packed (suc fuel) es (v ∷ vs) blocks blocks' pending pending' p h =
    let n : ℕ = directory_entries_fitting pending (v ∷ vs) in
    let front : List DirEntry = take n (v ∷ vs) in
    let left : List DirEntry = drop n (v ∷ vs) in
    let whole : (es ++ front) ++ left ≡ es ++ v ∷ vs =
      append_assoc es front left ∙ ap (λ t. es ++ t) (take-drop n (v ∷ vs)) in
    let p' = Packed-more es front blocks pending p in
    elim (Bool-cases (n == 0 && none_of pending)) [
      | inl t ↦ cc (rw t at h)
      | inr t ↦ elim (Bool-cases (none_of left)) [
        | inl u ↦
            let h' = rw (t, u) at h in
            let b : blocks ≡ blocks' = ground arith in
            let q : pending ++ front ≡ pending' = ground arith in
            let all : es ++ front ≡ es ++ v ∷ vs =
              sym (append-nil (es ++ front))
              ∙ ap (λ t. (es ++ front) ++ t) (sym (none_of→nil left u))
              ∙ whole in
            rw (← b, ← q, ← all) p'
        | inr u ↦
            let (blocks'', kb, h'') =
              >>=-eq-ok (flush blocks (pending ++ front)) _ (rw (t, u) at h) in
            rw (← whole) (
              pack_group-Packed fuel (es ++ front) left blocks'' blocks' [] pending'
                (flush-Packed (es ++ front) blocks blocks'' (pending ++ front) p' kb) h'')
      ]
    ]

pack_names-Packed :
    (names : List (List ℕ)) (entries es : List DirEntry) (blocks blocks' : List (List ℕ))
    (pending pending' : List DirEntry)
    → Packed es blocks pending
    → pack_names names entries blocks pending ≡ ok (blocks', pending')
    → Packed (es ++ grouped names entries) blocks' pending'
unfolding pack_names grouped
pack_names-Packed [] entries es blocks blocks' pending pending' p h =
    let b : blocks ≡ blocks' = ground arith in
    let q : pending ≡ pending' = ground arith in rw (append-nil, ← b, ← q) p
pack_names-Packed (n ∷ ns) entries es blocks blocks' pending pending' p h =
    let vs : List DirEntry = sort_versions (group_of n entries) in
    let ((mid, left), k, h') =
      >>=-eq-ok (pack_group (suc (length (group_of n entries))) blocks pending vs) _ h in
    rw (← (append_assoc es vs (grouped ns entries))) (
      pack_names-Packed ns entries (es ++ vs) mid blocks' left pending'
        (pack_group-Packed (suc (length (group_of n entries))) es vs blocks mid pending left p k)
        h')

one_at_least-Encoded :
    (cs : List (List DirEntry)) (bs out : List (List ℕ))
    → Encoded cs bs
    → one_at_least bs ≡ ok out
    → (ds : List (List DirEntry)) × Encoded ds out × (joined ds ≡ joined cs)
unfolding one_at_least
one_at_least-Encoded [] [] out done h =
    let (b, k, h') = >>=-eq-ok (encode_directory_block []) _ h in
    let same : b ∷ [] ≡ out = ground arith in ([] ∷ [], rw (← same) (also k done), refl)
one_at_least-Encoded [] (b ∷ bs) out enc h = elim enc [ ]
one_at_least-Encoded (c ∷ cs) [] out enc h = elim enc [ ]
one_at_least-Encoded (c ∷ cs) (b ∷ bs) out enc h =
    let same : b ∷ bs ≡ out = ground arith in (c ∷ cs, rw (← same) enc, refl)

-- The blocks of a directory hold its entries one after another, by name and the highest version
-- first: each block is the encoding of the next of them.
pub pack_directory_blocks-Encoded :
    (entries : List DirEntry) (blocks : List (List ℕ))
    → pack_directory_blocks entries ≡ ok blocks
    → (cs : List (List DirEntry)) × Encoded cs blocks
      × (joined cs ≡ grouped (sort_names (names_seen [] entries)) entries)
unfolding pack_directory_blocks
pack_directory_blocks-Encoded entries blocks h =
    let names = sort_names (names_seen [] entries) in
    let ((mid, left), k, h') = >>=-eq-ok (pack_names names entries [] []) _ h in
    let (full, k', h'') = >>=-eq-ok (flush mid left) _ h' in
    let p = pack_names-Packed names entries [] [] mid [] left (([], done, refl)) k in
    let (cs, enc, e) = flush-Packed (grouped names entries) mid full left p k' in
    let (ds, enc', e') = one_at_least-Encoded cs full blocks enc h'' in
    (ds, enc', e' ∙ sym (append-nil (joined cs)) ∙ e)
