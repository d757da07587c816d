-- ===== src/Filespec/Wildcard/Laws.antt =====
-- filespec/wildcard.go: the matcher beside a relation that says what the two wildcards mean.
use ods.Base.{
  ℕ, ◌≡◌, ◌≢◌, ◌↔◌, refl, List, [], ◌∷◌, Bool, true, ◌==◌, ==_iff, arith, Bool-cases, inl, inr, All,
}
use ods.Filespec.Text.{to_upper}
use ods.Filespec.Wildcard.{any_suffix, after_one, match_here, match_wildcard}

abbrev star : ℕ
star = b'*'

abbrev percent : ℕ
percent = b'%'

abbrev pub IsPlain : ℕ → Type 0
IsPlain c = (c ≢ star) × (c ≢ percent)

-- A character of a pattern stands for itself, for any one character, or for any run.
pub data Matches : List ℕ → List ℕ → Type 0 where
  empty : Matches [] []
  skip : {p : ℕ} {ps t : List ℕ} → p ≡ star → Matches ps t → Matches (p ∷ ps) t
  take : {p c : ℕ} {ps t : List ℕ} → p ≡ star → Matches (p ∷ ps) t → Matches (p ∷ ps) (c ∷ t)
  one : {p c : ℕ} {ps t : List ℕ} → p ≡ percent → Matches ps t → Matches (p ∷ ps) (c ∷ t)
  same : {p c : ℕ} {ps t : List ℕ} → IsPlain p → p ≡ c → Matches ps t → Matches (p ∷ ps) (c ∷ t)

module _ (ps : List ℕ) (f : List ℕ → Bool) (sound : (t : List ℕ) → f t ≡ true → Matches ps t) where
  any_suffix-Matches : (p : ℕ) (t : List ℕ) → p ≡ star → any_suffix f t ≡ true → Matches (p ∷ ps) t
  unfolding any_suffix
  any_suffix-Matches p [] e h = skip e (sound [] h)
  any_suffix-Matches p (c ∷ t) e h = elim (Bool-cases (f (c ∷ t))) [
    | inl k ↦ skip e (sound (c ∷ t) k)
    | inr k ↦ take e (any_suffix-Matches p t e (rw k at h))
  ]

-- The first character of a pattern, when it is no star, against a text.
module _ (p : ℕ) (ps : List ℕ) (f : List ℕ → Bool)
    (sound : (t : List ℕ) → f t ≡ true → Matches ps t) where
  percent-Matches :
      (t : List ℕ) → p ≡ percent → after_one (λ c. true) f t ≡ true → Matches (p ∷ ps) t
  unfolding after_one
  percent-Matches [] e h = cc
  percent-Matches (c ∷ t) e h = one e (sound t h)

  plain-Matches : (t : List ℕ) → IsPlain p → after_one (λ c. p == c) f t ≡ true → Matches (p ∷ ps) t
  unfolding after_one
  plain-Matches [] e h = cc
  plain-Matches (c ∷ t) e h = elim (Bool-cases (p == c)) [
    | inl k ↦ same e ((==_iff p c).0 k) (sound t (rw k at h))
    | inr k ↦ absurd (ground (arith, k))
  ]

match_here-Matches : (p t : List ℕ) → match_here p t ≡ true → Matches p t
unfolding match_here
match_here-Matches [] [] h = empty
match_here-Matches [] (c ∷ t) h = cc
match_here-Matches (p ∷ ps) t h = elim (Bool-cases (p == star)) [
  | inl e ↦
      any_suffix-Matches ps (match_here ps) (match_here-Matches ps) p t ((==_iff p star).0 e)
        (rw e at h)
  | inr e ↦ elim (Bool-cases (p == percent)) [
    | inl k ↦
        percent-Matches p ps (match_here ps) (match_here-Matches ps) t ((==_iff p percent).0 k)
          (rw (e, k) at h)
    | inr k ↦
        plain-Matches p ps (match_here ps) (match_here-Matches ps) t (ground arith, ground arith)
          (rw (e, k) at h)
  ]
]

any_suffix_now : (f : List ℕ → Bool) (t : List ℕ) → f t ≡ true → any_suffix f t ≡ true
unfolding any_suffix
any_suffix_now f [] h = h
any_suffix_now f (c ∷ t) h = rw h

Matches-match_here : {p t : List ℕ} → Matches p t → match_here p t ≡ true
unfolding match_here
Matches-match_here empty = refl
Matches-match_here (skip {p = p} {ps = ps} {t = t} e d) =
    let is_star : (p == star) ≡ true = (==_iff p star).1 e in
    rw is_star (any_suffix_now (match_here ps) t (Matches-match_here d))
Matches-match_here (take {p = p} {c = c} {ps = ps} {t = t} e d) =
    let is_star : (p == star) ≡ true = (==_iff p star).1 e in
    rw is_star (ground (arith, rw is_star at (Matches-match_here d)))
Matches-match_here (one {p = p} {c = c} {ps = ps} {t = t} e d) =
    ground (arith, Matches-match_here d)
Matches-match_here (same {p = p} {c = c} {ps = ps} {t = t} n e d) =
    ground (arith, Matches-match_here d, n.0, n.1)

-- matchWildcard answers true exactly when the upper-cased text matches the upper-cased pattern, in
-- which `*` stands for any run of characters, `%` for any one, and any other for itself.
pub match_wildcard_iff :
    (pattern text : List ℕ)
    → (match_wildcard pattern text ≡ true) ↔ Matches (to_upper pattern) (to_upper text)
unfolding match_wildcard
match_wildcard_iff pattern text =
    (match_here-Matches (to_upper pattern) (to_upper text), Matches-match_here)

Matches-plain : (p t : List ℕ) → All IsPlain p → Matches p t → t ≡ p
Matches-plain [] t h empty = refl
Matches-plain (p ∷ ps) t (h, hs) (skip e d) = absurd (h.0 e)
Matches-plain (p ∷ ps) t (h, hs) (take e d) = absurd (h.0 e)
Matches-plain (p ∷ ps) t (h, hs) (one e d) = absurd (h.1 e)
Matches-plain (p ∷ ps) t (h, hs) (same n e d) = cc (e, Matches-plain ps _ hs d)

Matches_self : (p : List ℕ) → All IsPlain p → Matches p p
Matches_self [] h = empty
Matches_self (p ∷ ps) (h, hs) = same h refl (Matches_self ps hs)

-- A pattern with neither wildcard matches exactly the texts that are equal to it up to case.
pub match_wildcard_plain :
    (pattern text : List ℕ)
    → All IsPlain (to_upper pattern)
    → (match_wildcard pattern text ≡ true) ↔ (to_upper text ≡ to_upper pattern)
match_wildcard_plain pattern text h =
    let (to, from) = match_wildcard_iff pattern text in
    (
      λ k. Matches-plain (to_upper pattern) (to_upper text) h (to k),
      λ e. from (rw e (Matches_self (to_upper pattern) h)),
    )
