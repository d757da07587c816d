-- ===== src/Base/Slices.antt =====
-- Parts of lists: cutting what is joined, and joining what is cut.
use ods.Base.Lists.{
  length, take, drop, slice, replicate, length-append, length-take, length-drop, take-append,
  drop-append,
}
use Prim.Native.Nat.{ℕ, zero, suc, ◌+◌, ◌-◌, ◌≤◌, min}
use mathlib.Core.Path.{◌≡◌, refl, ap, ◌∙◌, sym}
use mathlib.Core.List.{List, [], ◌∷◌, ◌++◌}
use native.Mathlib.Omega.{arith}

module _ {ℓ} {A : Type ℓ} where
  pub take_all : (n : ℕ) (xs : List A) → length xs ≤ n → take n xs ≡ xs
  take_all zero [] h = refl
  take_all zero (x ∷ xs) h = absurd (omega arith)
  take_all (suc n) [] h = refl
  take_all (suc n) (x ∷ xs) h = ap (λ t. x ∷ t) (take_all n xs (omega arith))

  pub drop_all : (n : ℕ) (xs : List A) → length xs ≤ n → drop n xs ≡ []
  drop_all zero [] h = refl
  drop_all zero (x ∷ xs) h = absurd (omega arith)
  drop_all (suc n) [] h = refl
  drop_all (suc n) (x ∷ xs) h = drop_all n xs (omega arith)

  pub drop-drop : (i j : ℕ) (xs : List A) → drop i (drop j xs) ≡ drop (j + i) xs
  drop-drop i zero xs = ap (λ k. drop k xs) (omega arith)
  drop-drop i (suc j) [] = drop_all i [] (omega arith) ∙ sym (drop_all (suc j + i) [] (omega arith))
  drop-drop i (suc j) (x ∷ xs) =
      let e : suc j + i ≡ suc (j + i) = omega arith in
      drop-drop i j xs ∙ ap (λ k. drop k (x ∷ xs)) (sym e)

  pub drop-append_left :
      (i : ℕ) (xs ys : List A) → i ≤ length xs → drop i (xs ++ ys) ≡ drop i xs ++ ys
  drop-append_left zero xs ys h = refl
  drop-append_left (suc i) [] ys h = absurd (omega arith)
  drop-append_left (suc i) (x ∷ xs) ys h = drop-append_left i xs ys (omega arith)

  pub take-append_left : (n : ℕ) (xs ys : List A) → n ≤ length xs → take n (xs ++ ys) ≡ take n xs
  take-append_left zero xs ys h = refl
  take-append_left (suc n) [] ys h = absurd (omega arith)
  take-append_left (suc n) (x ∷ xs) ys h = ap (λ t. x ∷ t) (take-append_left n xs ys (omega arith))

  pub take-drop : (n : ℕ) (xs : List A) → take n xs ++ drop n xs ≡ xs
  take-drop zero xs = refl
  take-drop (suc n) [] = refl
  take-drop (suc n) (x ∷ xs) = ap (λ t. x ∷ t) (take-drop n xs)

  -- Taking in two goes.
  pub take-add : (m n : ℕ) (xs : List A) → take (m + n) xs ≡ take m xs ++ take n (drop m xs)
  take-add zero n xs = ap (λ k. take k xs) (omega arith)
  take-add (suc m) n [] = take_all (suc m + n) [] (omega arith) ∙ sym (take_all n [] (omega arith))
  take-add (suc m) n (x ∷ xs) =
      let e : suc m + n ≡ suc (m + n) = omega arith in
      ap (λ k. take k (x ∷ xs)) e ∙ ap (λ t. x ∷ t) (take-add m n xs)

  pub take-take : (m n : ℕ) (xs : List A) → m ≤ n → take m (take n xs) ≡ take m xs
  take-take zero n xs h = refl
  take-take (suc m) zero xs h = absurd (omega arith)
  take-take (suc m) (suc n) [] h = refl
  take-take (suc m) (suc n) (x ∷ xs) h = ap (λ t. x ∷ t) (take-take m n xs (omega arith))

  pub take-min : (m n : ℕ) (xs : List A) → take m (take n xs) ≡ take (min m n) xs
  take-min zero n xs = let e : min 0 n ≡ 0 = omega arith in ap (λ k. take k xs) (sym e)
  take-min (suc m) zero xs = let e : min (suc m) 0 ≡ 0 = omega arith in ap (λ k. take k xs) (sym e)
  take-min (suc m) (suc n) [] = sym (take_all (min (suc m) (suc n)) [] (omega arith))
  take-min (suc m) (suc n) (x ∷ xs) =
      let e : min (suc m) (suc n) ≡ suc (min m n) = omega arith in
      ap (λ t. x ∷ t) (take-min m n xs) ∙ ap (λ k. take k (x ∷ xs)) (sym e)

  pub drop-take : (m n : ℕ) (xs : List A) → drop m (take (m + n) xs) ≡ take n (drop m xs)
  drop-take zero n xs = ap (λ k. take k xs) (omega arith)
  drop-take (suc m) n [] =
      ap (drop (suc m)) (take_all (suc m + n) [] (omega arith)) ∙ sym (take_all n [] (omega arith))
  drop-take (suc m) n (x ∷ xs) =
      let e : suc m + n ≡ suc (m + n) = omega arith in
      ap (λ k. drop (suc m) (take k (x ∷ xs))) e ∙ drop-take m n xs

  -- A part that lies in the first of two lists.
  pub slice-append_left :
      (xs ys : List A) (i n : ℕ) → i + n ≤ length xs → slice (xs ++ ys) i n ≡ slice xs i n
  slice-append_left xs ys i n h =
      ap (take n) (drop-append_left i xs ys (omega arith))
      ∙ take-append_left n (drop i xs) ys (omega (arith, length-drop i xs))

  pub length-slice : (xs : List A) (i n : ℕ) → i + n ≤ length xs → length (slice xs i n) ≡ n
  length-slice xs i n h = omega (arith, length-take n (drop i xs), length-drop i xs)

  -- A part behind a prefix.
  pub slice-middle :
      (pre xs post : List A) (i : ℕ)
      → i ≡ length pre
      → slice (pre ++ (xs ++ post)) i (length xs) ≡ xs
  slice-middle [] xs post i e =
      ap (λ k. slice (xs ++ post) k (length xs)) e
      ∙ take-append_left (length xs) xs post (omega arith)
      ∙ take_all (length xs) xs (omega arith)
  slice-middle (p ∷ pre) xs post i e =
      ap (λ k. slice ((p ∷ pre) ++ (xs ++ post)) k (length xs)) e
      ∙ slice-middle pre xs post (length pre) refl

  -- What stands at a place of a list, in two parts.
  pub slice-front :
      (b xs ys : List A) (o : ℕ)
      → slice b o (length (xs ++ ys)) ≡ xs ++ ys
      → slice b o (length xs) ≡ xs
  slice-front b xs ys o h =
      sym
        (take-take (length xs) (length (xs ++ ys)) (drop o b) (omega (arith, length-append xs ys)))
      ∙ ap (take (length xs)) h
      ∙ take-append xs ys

  pub slice-back :
      (b xs ys : List A) (o : ℕ)
      → slice b o (length (xs ++ ys)) ≡ xs ++ ys
      → slice b (o + length xs) (length ys) ≡ ys
  slice-back b xs ys o h =
      let there : drop (length xs) (drop o b) ≡ drop (o + length xs) b =
        drop-drop (length xs) o b in
      let size : length (xs ++ ys) ≡ length xs + length ys = length-append xs ys in
      ap (take (length ys)) (sym there)
      ∙ sym (drop-take (length xs) (length ys) (drop o b))
      ∙ ap (λ k. drop (length xs) (take k (drop o b))) (sym size)
      ∙ ap (drop (length xs)) h
      ∙ drop-append xs ys

  -- Taking from two lists.
  pub take-append_both :
      (n : ℕ) (xs ys : List A) → take n (xs ++ ys) ≡ take n xs ++ take (n - length xs) ys
  take-append_both zero xs ys =
      let e : 0 - length xs ≡ 0 = omega arith in ap (λ k. take k ys) (sym e)
  take-append_both (suc n) [] ys =
      let e : suc n - 0 ≡ suc n = omega arith in ap (λ k. take k ys) (sym e)
  take-append_both (suc n) (x ∷ xs) ys =
      let e : suc n - suc (length xs) ≡ n - length xs = omega arith in
      ap (λ t. x ∷ t) (take-append_both n xs ys) ∙ ap (λ k. x ∷ (take n xs ++ take k ys)) (sym e)

  pub take-replicate : (m n : ℕ) (a : A) → m ≤ n → take m (replicate n a) ≡ replicate m a
  take-replicate zero n a h = refl
  take-replicate (suc m) zero a h = absurd (omega arith)
  take-replicate (suc m) (suc n) a h = ap (λ t. a ∷ t) (take-replicate m n a (omega arith))
