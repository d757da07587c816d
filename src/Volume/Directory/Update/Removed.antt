-- ===== src/Volume/Directory/Update/Removed.antt =====
-- volume/directory.go: what is left of a directory's entries without one of a name and version.
use ods.Base.{
  ℕ, suc, ◌≡◌, inl, inr, refl, ap, sym, ◌∙◌, List, [], ◌∷◌, Bool, true, false, ◌&&◌, ◌==◌, ==_iff,
  arith, Bool-cases, if◌then◌else◌, if_so, if_not,
}
use ods.Filespec.Text.{to_upper}
use ods.Ondisk.DirEntry.{DirEntry}
use ods.Ondisk.DirEntry.Counts.{Test, count}
use ods.Ondisk.DirBlock.Kept.{Among, name_eq→eq}
use ods.Volume.Directory.{equal_fold}
use ods.Volume.Directory.Update.{has_version, without}

-- The number of entries of a name, up to case, and version.
unfoldable pub times : List ℕ → ℕ → List DirEntry → ℕ
times name version [] = 0
times name version (e ∷ es) =
    let rest = times name version es in
    if e.version == version && equal_fold e.name name then suc rest else rest

times-none :
    (name : List ℕ) (version : ℕ) (es : List DirEntry)
    → times name version es ≡ 0
    → has_version name version es ≡ false
unfolding times has_version
times-none name version [] h = refl
times-none name version (e ∷ es) h =
    elim (Bool-cases (e.version == version && equal_fold e.name name)) [
      | inl t ↦ let more : suc (times name version es) ≡ 0 = rw t at h in absurd (omega arith)
      | inr t ↦ if_not _ _ t ∙ times-none name version es (rw t at h)
    ]

pub times-some :
    (name : List ℕ) (version : ℕ) (es : List DirEntry)
    → times name version es ≡ 1
    → has_version name version es ≡ true
unfolding times has_version
times-some name version [] h = absurd (omega arith)
times-some name version (e ∷ es) h =
    elim (Bool-cases (e.version == version && equal_fold e.name name)) [
      | inl t ↦ if_so _ _ t
      | inr t ↦ if_not _ _ t ∙ times-some name version es (rw t at h)
    ]

-- Where there is an entry of the name and the version, one such entry goes and the others stay.
pub without-one :
    (name : List ℕ) (version : ℕ) (es : List DirEntry)
    → has_version name version es ≡ true
    → (x : DirEntry) × Among x es
      × (equal_fold x.name name ≡ true)
      × (x.version ≡ version)
      × ((p : Test) → count p es ≡ count p (x ∷ without name version es))
unfolding has_version without count
without-one name version [] h = cc
without-one name version (e ∷ es) h =
    elim (Bool-cases (equal_fold e.name name && e.version == version)) [
      | inl t ↦ rw t (e, Among.here refl, ground (arith, t), ground (arith, t), λ p. refl)
      | inr t ↦
          let later : has_version name version es ≡ true = ground (arith, t) in
          let (x, a, n, v, same) = without-one name version es later in
          rw t (x, Among.there a, n, v, λ p. ground (arith, same p))
    ]

&&_swap : (a b : Bool) → (a && b) ≡ (b && a)
&&_swap true true = refl
&&_swap true false = refl
&&_swap false true = refl
&&_swap false false = refl

-- The only entry of a name and version is gone.
pub without-only :
    (name : List ℕ) (version : ℕ) (es : List DirEntry)
    → times name version es ≡ 1
    → has_version name version (without name version es) ≡ false
unfolding times has_version without
without-only name version [] h = refl
without-only name version (e ∷ es) h =
    let swap = &&_swap (equal_fold e.name name) (e.version == version) in
    elim (Bool-cases (e.version == version && equal_fold e.name name)) [
      | inl t ↦
          let one : suc (times name version es) ≡ 1 = rw t at h in
          ap (has_version name version) (if_so _ _ (swap ∙ t))
          ∙ times-none name version es (omega (arith, one))
      | inr t ↦
          ap (has_version name version) (if_not _ _ (swap ∙ t))
          ∙ if_not _ _ t
          ∙ without-only name version es (rw t at h)
    ]

-- An entry of a name, up to case, has none of the names that differ from it.
equal_fold-other :
    (a name n : List ℕ)
    → equal_fold a name ≡ true
    → equal_fold n name ≡ false
    → equal_fold a n ≡ false
unfolding equal_fold
equal_fold-other a name n h k = elim (Bool-cases (equal_fold a n)) [
  | inr t ↦ t
  | inl t ↦
      let same = name_eq→eq (to_upper a) (to_upper n) t in
      let both : equal_fold n name ≡ true = rw same at h in cc (both, k)
]

-- Of every other name and version there is an entry as before.
pub without-others :
    (name n : List ℕ) (version v : ℕ)
    → (v ≡ version → equal_fold n name ≡ false)
    → (es : List DirEntry) → has_version n v (without name version es) ≡ has_version n v es
unfolding has_version without
without-others name n version v other [] = refl
without-others name n version v other (e ∷ es) =
    elim (Bool-cases (equal_fold e.name name && e.version == version)) [
      | inl t ↦
          let named : equal_fold e.name name ≡ true = ground (arith, t) in
          let numbered : e.version ≡ version = ground (arith, t) in
          let apart : (e.version == v && equal_fold e.name n) ≡ false =
            elim (Bool-cases (e.version == v)) [
              | inr u ↦ rw u refl
              | inl u ↦
                  let same : e.version ≡ v = (==_iff e.version v).0 u in
                  rw (u, equal_fold-other e.name name n named (other (sym same ∙ numbered))) refl
            ] in
          ap (has_version n v) (if_so _ _ t) ∙ sym (if_not _ _ apart)
      | inr t ↦
          ap (has_version n v) (if_not _ _ t)
          ∙ ap (λ (b : Bool). if e.version == v && equal_fold e.name n then true else b)
              (without-others name n version v other es)
    ]

has_version-fold :
    (name n : List ℕ) (v : ℕ)
    → equal_fold n name ≡ true
    → (es : List DirEntry) → has_version n v es ≡ has_version name v es
unfolding has_version equal_fold
has_version-fold name n v h [] = refl
has_version-fold name n v h (e ∷ es) =
    let same = name_eq→eq (to_upper n) (to_upper name) h in
    let rest = has_version-fold name n v h es in rw (same, rest) refl

-- Where there is one entry of a name and version, the others of every name and version stay.
pub has_version-without :
    (name : List ℕ) (version : ℕ) (es : List DirEntry)
    → times name version es ≡ 1
    → (n : List ℕ) (v : ℕ)
    → has_version n v (without name version es)
      ≡ (if v == version && equal_fold n name then false else has_version n v es)
has_version-without name version es one n v =
    elim (Bool-cases (v == version && equal_fold n name)) [
      | inl t ↦
          let named : equal_fold n name ≡ true = ground (arith, t) in
          let numbered : v ≡ version = ground (arith, t) in
          ap (λ (k : ℕ). has_version n k (without name version es)) numbered
          ∙ has_version-fold name n version named (without name version es)
          ∙ without-only name version es one
          ∙ sym (if_so _ _ t)
      | inr t ↦
          without-others name n version v
            (λ same. elim (Bool-cases (equal_fold n name)) [
              | inl u ↦
                  let e : (v == version) ≡ true = (==_iff v version).1 same in cc (rw (e, u) at t)
              | inr u ↦ u
            ])
            es
          ∙ sym (if_not _ _ t)
    ]
