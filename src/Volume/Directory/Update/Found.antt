-- ===== src/Volume/Directory/Update/Found.antt =====
-- volume/directory.go: looking up what was put in or taken out.
use ods.Base.{
  ℕ, ◌≡◌, ◌≢◌, refl, sym, ap, ◌∙◌, List, [], ◌∷◌, ◌++◌, true, false, none, ok, err, ◌==◌, arith,
  ==_iff, ==_refl, Bool, Bool-cases, inl, inr, ◌&&◌, not_found,
}
use ods.Ondisk.Fid.{Fid}
use ods.Ondisk.DirEntry.{DirEntry, name_eq}
use ods.Ondisk.DirBlock.Kept.{Among, append-Among, name_eq_refl, name_eq→eq}
use ods.Ondisk.DirBlock.Preserved.{append-cases}
use ods.Volume.Device.{Device, File}
use ods.Volume.Directory.{list, lookup, find_entry, result_of, equal_fold, equal_fold_refl}
use ods.Ondisk.DirEntry.Counts.{Test, SameEntries, SameEntries-Among}
use ods.Volume.Directory.Update.{has_version}
use ods.Volume.Directory.Update.Entered.{entry_of}

has_version-Among :
    (name : List ℕ) (version : ℕ) (e : DirEntry) (es : List DirEntry)
    → Among e es
    → equal_fold e.name name ≡ true
    → e.version ≡ version
    → has_version name version es ≡ true
unfolding has_version
has_version-Among name version e [] m n v = elim m [ ]
has_version-Among name version e (f ∷ fs) (Among.here h) n v =
    let t : (f.version == version) ≡ true =
      (==_iff f.version version).1 (ap (λ (d : DirEntry). d.version) (sym h) ∙ v) in
    let u : equal_fold f.name name ≡ true =
      ap (λ (d : DirEntry). equal_fold d.name name) (sym h) ∙ n in
    rw (t, u) refl
has_version-Among name version e (f ∷ fs) (Among.there m) n v =
    ground (arith, has_version-Among name version e fs m n v)

-- An exact look-up gives an entry of the version and the name, if there is one.
find_entry_there :
    (name : List ℕ) (version : ℕ) (es : List DirEntry)
    → version ≢ 0
    → has_version name version es ≡ true
    → (e : DirEntry) × (find_entry name version es none ≡ ok e)
      × Among e es
      × (equal_fold e.name name ≡ true)
      × (e.version ≡ version)
unfolding find_entry has_version
find_entry_there name version [] z h = cc
find_entry_there name version (e ∷ es) z h =
    let given : (version == 0) ≡ false = ground arith in
    elim (Bool-cases (equal_fold e.name name)) [
      | inr t ↦
          let rest : has_version name version es ≡ true = ground (arith, t) in
          let (f, k, m, n, v) = find_entry_there name version es z rest in
          (f, rw (given, t) k, Among.there m, n, v)
      | inl t ↦ elim (Bool-cases (e.version == version)) [
        | inl u ↦ (e, rw (given, t, u) refl, Among.here refl, t, (==_iff e.version version).0 u)
        | inr u ↦
            let rest : has_version name version es ≡ true = ground (arith, t, u) in
            let (f, k, m, n, v) = find_entry_there name version es z rest in
            (f, rw (given, t, u) k, Among.there m, n, v)
      ]
    ]

find_entry_missing :
    (name : List ℕ) (version : ℕ) (es : List DirEntry)
    → version ≢ 0
    → has_version name version es ≡ false
    → find_entry name version es none ≡ err not_found
unfolding find_entry has_version result_of
find_entry_missing name version [] z h = refl
find_entry_missing name version (e ∷ es) z h = ground (arith, find_entry_missing name version es z)

has_version-true :
    (name : List ℕ) (version : ℕ) (es : List DirEntry)
    → has_version name version es ≡ true
    → (e : DirEntry) × Among e es × (equal_fold e.name name ≡ true) × (e.version ≡ version)
unfolding has_version
has_version-true name version [] h = cc
has_version-true name version (e ∷ es) h =
    elim (Bool-cases (e.version == version && equal_fold e.name name)) [
      | inl t ↦ (e, Among.here refl, ground (arith, t), ground (arith, t))
      | inr t ↦
          let (f, m, n, v) = has_version-true name version es (rw t at h) in
          (f, Among.there m, n, v)
    ]

has_version_too :
    (name : List ℕ) (version : ℕ) (es out : List DirEntry)
    → SameEntries es out
    → has_version name version es ≡ true
    → has_version name version out ≡ true
has_version_too name version es out same t =
    let (e, m, n, v) = has_version-true name version es t in
    let p : Test = λ nm ve fi. equal_fold nm name && ve == version in
    let passes : p e.name e.version e.fid ≡ true = ground (arith, n, v) in
    let (f, a, u) = SameEntries-Among p es out e same m passes in
    has_version-Among name version f out a (ground (arith, u)) (ground (arith, u))

is_file : Fid → Fid → Bool
is_file a b = a.num == b.num && a.seq == b.seq && a.rvn == b.rvn && a.nmx == b.nmx

is_file_refl : (a : Fid) → is_file a a ≡ true
unfolding is_file
is_file_refl a = rw (==_refl a.num, ==_refl a.seq, ==_refl a.rvn, ==_refl a.nmx) refl

is_file→eq : (a b : Fid) → is_file a b ≡ true → a ≡ b
unfolding is_file
is_file→eq a b h =
    let n : a.num ≡ b.num = ground (arith, h) in
    let s : a.seq ≡ b.seq = ground (arith, h) in
    let r : a.rvn ≡ b.rvn = ground (arith, h) in
    let x : a.nmx ≡ b.nmx = ground (arith, h) in cc (n, s, r, x)

-- Of the same entries each list has one of the name, the version and the file of each of the other.
same_entry :
    (es out : List DirEntry) (e : DirEntry)
    → SameEntries es out
    → Among e es
    → (f : DirEntry) × Among f out × (f.name ≡ e.name) × (f.version ≡ e.version) × (f.fid ≡ e.fid)
same_entry es out e same m =
    let p : Test = λ nm ve fi. name_eq nm e.name && ve == e.version && is_file fi e.fid in
    let passes : p e.name e.version e.fid ≡ true =
      rw (name_eq_refl e.name, ==_refl e.version, is_file_refl e.fid) refl in
    let (f, a, u) = SameEntries-Among p es out e same m passes in
    (
      f,
      a,
      name_eq→eq f.name e.name (ground (arith, u)),
      ground (arith, u),
      is_file→eq f.fid e.fid (ground (arith, u)),
    )

-- Lists of the same entries have the same names and versions.
pub has_version-SameEntries :
    (name : List ℕ) (version : ℕ) (es out : List DirEntry)
    → SameEntries es out
    → has_version name version out ≡ has_version name version es
has_version-SameEntries name version es out same = elim (Bool-cases (has_version name version es)) [
  | inl t ↦ has_version_too name version es out same t ∙ sym t
  | inr t ↦ elim (Bool-cases (has_version name version out)) [
    | inr u ↦ u ∙ sym t
    | inl u ↦
        let there = has_version_too name version out es (λ p. sym (same p)) u in
        absurd (cc (there, t))
  ]
]

-- What a directory finds that lists the entries before and a new one.
pub lookup_entered :
    (dev : Device) (f : File) (name : List ℕ) (version limit : ℕ) (fid : Fid)
    (entries out : List DirEntry)
    → version ≢ 0
    → has_version name version entries ≡ false
    → list dev f ≡ ok out
    → SameEntries (entries ++ entry_of name version fid limit ∷ []) out
    → (e : DirEntry) × (lookup dev f name version ≡ ok e)
      × (e.name ≡ name)
      × (e.version ≡ version)
      × (e.fid ≡ fid)
unfolding lookup
lookup_entered dev f name version limit fid entries out z fresh listed same =
    let new : DirEntry = entry_of name version fid limit in
    let all : List DirEntry = entries ++ new ∷ [] in
    let there : has_version name version all ≡ true =
      has_version-Among name version new all (append-Among entries (new ∷ []) (Among.here refl))
        (equal_fold_refl name) refl in
    let (e, k, m, n, v) =
      find_entry_there name version out z
        (has_version-SameEntries name version all out same ∙ there) in
    let (x, a, xn, xv, xi) = same_entry out all e (λ p. sym (same p)) m in
    elim (append-cases entries (new ∷ []) a) [
      | inl old ↦
          let had =
            has_version-Among name version x entries old (ap (λ t. equal_fold t name) xn ∙ n)
              (xv ∙ v) in
          cc (had, fresh)
      | inr own ↦
          let is_new : x ≡ new = only x new own in
          (
            e,
            rw listed k,
            sym xn ∙ ap (λ (d : DirEntry). d.name) is_new,
            v,
            sym xi ∙ ap (λ (d : DirEntry). d.fid) is_new,
          )
    ]
  where
    only : (x y : DirEntry) → Among x (y ∷ []) → x ≡ y
    only x y (Among.here h) = h
    only x y (Among.there m) = elim m [ ]

-- What it finds that lists entries without that name and version.
pub lookup_taken :
    (dev : Device) (f : File) (name : List ℕ) (version : ℕ) (es out : List DirEntry)
    → version ≢ 0
    → has_version name version es ≡ false
    → list dev f ≡ ok out
    → SameEntries es out
    → lookup dev f name version ≡ err not_found
unfolding lookup
lookup_taken dev f name version es out z missing listed same = rw listed (
    find_entry_missing name version out z
      (has_version-SameEntries name version es out same ∙ missing))
