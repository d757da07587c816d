-- ===== src/Volume/Directory/Names.antt =====
-- volume/directory.go: the results of looking a name up and of numbering its next version.
use ods.Base.{
  ℕ, ◌+◌, ◌≡◌, ◌≢◌, ◌≤◌, ◌<◌, refl, ap, List, [], ◌∷◌, true, ◌&&◌, Option, none, some, ok,
  >>=-eq-ok, ltb, ◌==◌, if◌then◌else◌, All, arith, Bool-cases, inl, inr, ◌⊎◌,
}
use ods.Base.Word.{u16}
use ods.Ondisk.DirEntry.{DirEntry}
use ods.Volume.Device.{Device, File}
use ods.Volume.Directory.{
  equal_fold, list, better, result_of, find_entry, lookup, highest_version, next_version,
}

-- An entry stands in a listing.
pub data Entry (e : DirEntry) : List DirEntry → Type 0 where
  here : {es : List DirEntry} → Entry e (e ∷ es)
  there : {f : DirEntry} {es : List DirEntry} → Entry e es → Entry e (f ∷ es)

-- Entries of a name, up to case, have at most this version.
abbrev pub NoHigher : List ℕ → ℕ → DirEntry → Type 0
NoHigher name v e = equal_fold e.name name ≡ true → e.version ≤ v

find_entry_exact :
    (name : List ℕ) (version : ℕ) (es : List DirEntry) (best : Option DirEntry) (e : DirEntry)
    → version ≢ 0
    → best ≡ none
    → find_entry name version es best ≡ ok e
    → Entry e es × (equal_fold e.name name ≡ true) × (e.version ≡ version)
unfolding find_entry result_of
find_entry_exact name version [] best e v b h = cc
find_entry_exact name version (f ∷ fs) best e v b h = elim (Bool-cases (equal_fold f.name name)) [
  | inr t ↦
      let (i, n, w) = find_entry_exact name version fs best e v b (rw t at h) in (there i, n, w)
  | inl t ↦ elim (Bool-cases (f.version == version)) [
    | inl s ↦
        let same : f ≡ e = ground (arith, t, s) in
        let at : f.version ≡ version = ground arith in
        (rw (← same) here, rw same at t, rw same at at)
    | inr s ↦
        let skip : find_entry name version fs best ≡ ok e = ground (arith, t, s) in
        let (i, n, w) = find_entry_exact name version fs best e v b skip in (there i, n, w)
  ]
]

-- The best entry so far is one of the name.
Named : List ℕ → Option DirEntry → Type 0
Named name none = Unit
Named name (some b) = equal_fold b.name name ≡ true

AtMostBest : Option DirEntry → ℕ → Type 0
AtMostBest none v = Unit
AtMostBest (some b) v = b.version ≤ v

find_entry_highest :
    (name : List ℕ) (es : List DirEntry) (best : Option DirEntry) (e : DirEntry)
    → Named name best
    → find_entry name 0 es best ≡ ok e
    → (equal_fold e.name name ≡ true)
      × AtMostBest best e.version
      × All (NoHigher name e.version) es
      × (Entry e es ⊎ (best ≡ some e))
unfolding find_entry better result_of Named AtMostBest
find_entry_highest name [] none e n h = cc
find_entry_highest name [] (some b) e n h =
    let same : b ≡ e = ground arith in
    let version : b.version ≡ e.version = ap (λ (d : DirEntry). d.version) same in
    (rw same at n, omega (arith, version), tt, inr (cc same))
find_entry_highest name (f ∷ fs) none e n h = elim (Bool-cases (equal_fold f.name name)) [
  | inr t ↦
      let (m, a, all, i) = find_entry_highest name fs none e n (rw t at h) in
      (m, a, (λ k. absurd (cc (t, k)), all), elim i [ inl j ↦ inl (there j) | inr j ↦ inr j ])
  | inl t ↦
      let (m, a, all, i) = find_entry_highest name fs (some f) e t (rw t at h) in
      (
        m,
        tt,
        (λ k. a, all),
        elim i [ inl j ↦ inl (there j) | inr j ↦ let s : f ≡ e = ground arith in inl (rw s here) ],
      )
]
find_entry_highest name (f ∷ fs) (some b) e n h = elim (Bool-cases (equal_fold f.name name)) [
  | inr t ↦
      let (m, a, all, i) = find_entry_highest name fs (some b) e n (rw t at h) in
      (m, a, (λ k. absurd (cc (t, k)), all), elim i [ inl j ↦ inl (there j) | inr j ↦ inr j ])
  | inl t ↦ elim (Bool-cases (ltb b.version f.version)) [
    | inl s ↦
        let (m, a, all, i) = find_entry_highest name fs (some f) e t (rw (t, s) at h) in
        (
          m,
          ground (arith, a, s),
          (λ k. a, all),
          elim i [
            | inl j ↦ inl (there j)
            | inr j ↦ let q : f ≡ e = ground arith in inl (rw q here)
          ],
        )
    | inr s ↦
        let (m, a, all, i) = find_entry_highest name fs (some b) e n (rw (t, s) at h) in
        (m, a, (λ k. ground (arith, a, s), all), elim i [ inl j ↦ inl (there j) | inr j ↦ inr j ])
  ]
]

highest_version-NoHigher :
    (name : List ℕ) (es : List DirEntry) (start : ℕ)
    → (start ≤ highest_version name es start)
      × All (NoHigher name (highest_version name es start)) es
unfolding highest_version
highest_version-NoHigher name [] start = (omega arith, tt)
highest_version-NoHigher name (e ∷ es) start =
    let next : ℕ = if equal_fold e.name name && ltb start e.version then e.version else start in
    let (low, all) = highest_version-NoHigher name es next in
    (ground (arith, low), (λ k. ground (arith, low, k), all))

-- Looking a name up under a version other than 0 gives an entry of the directory with that version
-- and, up to case, that name; under version 0 it gives an entry of that name, and no entry of the
-- name has a higher version.
pub lookup-Entry :
    (dev : Device) (f : File) (name : List ℕ) (version : ℕ) (e : DirEntry)
    → lookup dev f name version ≡ ok e
    → (es : List DirEntry) × (list dev f ≡ ok es)
      × Entry e es
      × (equal_fold e.name name ≡ true)
      × (version ≢ 0 → e.version ≡ version)
      × (version ≡ 0 → All (NoHigher name e.version) es)
unfolding lookup
lookup-Entry dev f name version e h =
    let (es, listed, h') = >>=-eq-ok (list dev f) _ h in
    elim (Bool-cases (version == 0)) [
      | inl t ↦
          let z : version ≡ 0 = ground arith in
          let (m, _, all, i) =
            find_entry_highest name es none e (unfold Named in tt) (rw z at h') in
          (es, listed, elim i [ inl j ↦ j | inr j ↦ absurd cc ], m, λ v. absurd (v z), λ v. all)
      | inr t ↦
          let v : version ≢ 0 = ground arith in
          let (i, m, w) = find_entry_exact name version es none e v refl h' in
          (es, listed, i, m, λ k. w, λ z. absurd (v z))
    ]

-- Where the highest version of a name in a directory is below 65535, NextVersion gives a number
-- higher than every version of the name, up to case.
pub next_version-fresh :
    (dev : Device) (f : File) (name : List ℕ) (es : List DirEntry) (v : ℕ)
    → list dev f ≡ ok es
    → highest_version name es 0 < 65535
    → next_version dev f name ≡ ok v
    → All (λ (e : DirEntry). equal_fold e.name name ≡ true → e.version < v) es
unfolding next_version
next_version-fresh dev f name es v listed bound h =
    let made : u16 (highest_version name es 0 + 1) ≡ v = ground (arith, rw listed at h) in
    let top : v ≡ highest_version name es 0 + 1 = omega arith in
    below es (highest_version-NoHigher name es 0).1 top
  where
    below :
        (fs : List DirEntry)
        → All (NoHigher name (highest_version name es 0)) fs
        → v ≡ highest_version name es 0 + 1
        → All (λ (e : DirEntry). equal_fold e.name name ≡ true → e.version < v) fs
    below [] a t = tt
    below (g ∷ gs) (a, rest) t = (λ k. ground (arith, a k, t), below gs rest t)
