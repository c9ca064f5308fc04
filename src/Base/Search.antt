-- ===== src/Base/Search.antt =====
-- Laws of `position`, `find`, `any` and indexing.
use Prim.Native.Nat.{ℕ, zero, suc, ◌-◌, ◌≤◌, ◌<◌}
use mathlib.Core.Path.{◌≡◌, refl, ap, subst}
use mathlib.Core.Logic.{◌⊎◌, inl, inr}
use mathlib.Core.Bool.{Bool, true, false}
use mathlib.Core.Option.{none, some}
use mathlib.Core.List.{List, [], ◌∷◌, ◌++◌, map}
use native.Mathlib.Omega.{arith}
use intmax.Base.Tests.{Bool-cases}
use intmax.Base.Lists.{length, get_elem?, take, replicate, resize, position, find, any, All}

module _ {ℓ} {A : Type ℓ} where
  -- The first index that passes the test: its element, and that the index is in range.
  pub position_lem :
      (p : A → Bool) (xs : List A) (i : ℕ)
      → position p xs ≡ some i
      → (x : A) × (get_elem? xs i ≡ some x) × (p x ≡ true) × (i < length xs)
  position_lem p [] i h = cc
  position_lem p (x ∷ xs) zero h = (x, refl, ground arith, omega arith)
  position_lem p (x ∷ xs) (suc i) h =
      let (y, e, t, l) = position_lem p xs i (ground arith) in (y, e, t, omega arith)

  pub position-any :
      (p : A → Bool) (xs : List A) → any p xs ≡ true → (i : ℕ) × (position p xs ≡ some i)
  position-any p [] h = cc
  position-any p (x ∷ xs) h = elim (Bool-cases (p x)) [
    | inl e ↦ (0, rw e)
    | inr e ↦ let (i, q) = position-any p xs (rw e at h) in (suc i, rw (e, q))
  ]

  pub position-append :
      (p : A → Bool) (xs ys : List A) (i : ℕ)
      → position p xs ≡ some i
      → position p (xs ++ ys) ≡ some i
  position-append p [] ys i h = cc
  position-append p (x ∷ xs) ys zero h = ground arith
  position-append p (x ∷ xs) ys (suc i) h = ground (arith, position-append p xs ys i)

  pub any-append_left : (p : A → Bool) (xs ys : List A) → any p xs ≡ true → any p (xs ++ ys) ≡ true
  any-append_left p [] ys h = cc
  any-append_left p (x ∷ xs) ys h = ground (arith, any-append_left p xs ys)

  pub get_elem?-append_left :
      (xs ys : List A) (i : ℕ) → i < length xs → get_elem? (xs ++ ys) i ≡ get_elem? xs i
  get_elem?-append_left [] ys i h = elim h [ ]
  get_elem?-append_left (x ∷ xs) ys zero h = refl
  get_elem?-append_left (x ∷ xs) ys (suc i) h = get_elem?-append_left xs ys i (omega arith)

  pub All-get_elem? {κ} :
      (P : A → Type κ) (xs : List A) (i : ℕ) (x : A) → All P xs → get_elem? xs i ≡ some x → P x
  All-get_elem? P [] i x h e = absurd (cc)
  All-get_elem? P (y ∷ xs) zero x h e = let same : y ≡ x = cc in subst P same h.0
  All-get_elem? P (y ∷ xs) (suc i) x h e = All-get_elem? P xs i x h.1 e

  pub take_all : (n : ℕ) (xs : List A) → length xs ≤ n → take n xs ≡ xs
  take_all zero [] h = refl
  take_all zero (x ∷ xs) h = elim h [ ]
  take_all (suc n) [] h = refl
  take_all (suc n) (x ∷ xs) h = ap (◌∷◌ x) (take_all n xs (omega arith))

  pub resize_pads :
      (xs : List A) (n : ℕ) (a : A)
      → length xs ≤ n
      → resize xs n a ≡ xs ++ replicate (n - length xs) a
  resize_pads xs n a h = rw (take_all n xs h)

  pub get_elem?-map {κ} :
      {B : Type κ} (f : A → B) (xs : List A) (i : ℕ) (x : A)
      → get_elem? xs i ≡ some x
      → get_elem? (map f xs) i ≡ some (f x)
  get_elem?-map f [] i x h = absurd (cc)
  get_elem?-map f (y ∷ xs) zero x h = ground arith
  get_elem?-map f (y ∷ xs) (suc i) x h = get_elem?-map f xs i x h

  -- An element that passes the test shows that there is one.
  pub any_of_get_elem? :
      (p : A → Bool) (xs : List A) (i : ℕ) (x : A)
      → get_elem? xs i ≡ some x
      → p x ≡ true
      → any p xs ≡ true
  any_of_get_elem? p [] i x h e = absurd (cc)
  any_of_get_elem? p (y ∷ xs) zero x h e = ground arith
  any_of_get_elem? p (y ∷ xs) (suc i) x h e = ground (arith, any_of_get_elem? p xs i x h e)

module _ {ℓ} {A : Type ℓ} where
  pub find-any :
      (P : A → Type 0) (p : A → Bool) (xs : List A)
      → any p xs ≡ true
      → All P xs
      → (x : A) × (find p xs ≡ some x) × P x
  find-any P p [] h a = absurd (cc)
  find-any P p (x ∷ xs) h a = elim (Bool-cases (p x)) [
    | inl e ↦ (x, rw e, a.0)
    | inr e ↦ let (y, q, r) = find-any P p xs (rw e at h) a.1 in (y, rw e q, r)
  ]

  pub find_cases :
      (p : A → Bool) (xs : List A)
      → ((find p xs ≡ none) × (any p xs ≡ false))
        ⊎ ((x : A) × (find p xs ≡ some x) × (any p xs ≡ true))
  find_cases p [] = inl (refl, refl)
  find_cases p (x ∷ xs) = elim (Bool-cases (p x)) [
    | inl e ↦ inr (x, rw e, rw e)
    | inr e ↦ rw e (find_cases p xs)
  ]

  -- Every element of a list passes a test that it passes itself.
  pub All-any :
      (test : A → A → Bool) (xs ys : List A)
      → ((a : A) → test a a ≡ true)
      → ((a : A) → any (test a) ys ≡ true → any (test a) xs ≡ true)
      → All (λ a. any (test a) xs ≡ true) ys
  All-any test xs [] self inside = tt
  All-any test xs (y ∷ ys) self inside =
      (inside y (rw (self y)), All-any test xs ys self (λ a h. inside a (any_tail a h)))
    where
      any_tail : (a : A) → any (test a) ys ≡ true → any (test a) (y ∷ ys) ≡ true
      any_tail a h = ground arith

  pub All-zip : (P Q : A → Type 0) (xs : List A) → All P xs → All Q xs → All (λ x. P x × Q x) xs
  All-zip P Q [] h k = tt
  All-zip P Q (x ∷ xs) h k = ((h.0, k.0), All-zip P Q xs h.1 k.1)

module _ {ℓ κ} {A : Type ℓ} {B : Type κ} where
  -- Two lists of one length, related element by element.
  abbrev pub All₂ : (A → B → Type 0) → List A → List B → Type 0
  All₂ R [] [] = Unit
  All₂ R [] (y ∷ ys) = ⊥
  All₂ R (x ∷ xs) [] = ⊥
  All₂ R (x ∷ xs) (y ∷ ys) = R x y × All₂ R xs ys

  pub All₂-length :
      (R : A → B → Type 0) (xs : List A) (ys : List B) → All₂ R xs ys → length ys ≡ length xs
  All₂-length R [] [] h = refl
  All₂-length R [] (y ∷ ys) h = absurd h
  All₂-length R (x ∷ xs) [] h = absurd h
  All₂-length R (x ∷ xs) (y ∷ ys) h = ap suc (All₂-length R xs ys h.1)

  -- The partner of an element at its index.
  pub All₂-get_elem? :
      (R : A → B → Type 0) (xs : List A) (ys : List B) (i : ℕ) (x : A)
      → All₂ R xs ys
      → get_elem? xs i ≡ some x
      → (y : B) × (get_elem? ys i ≡ some y) × R x y
  All₂-get_elem? R [] ys i x h e = absurd (cc)
  All₂-get_elem? R (z ∷ xs) [] i x h e = absurd h
  All₂-get_elem? R (z ∷ xs) (y ∷ ys) zero x h e =
      let same : z ≡ x = cc in (y, refl, subst (λ a. R a y) same h.0)
  All₂-get_elem? R (z ∷ xs) (y ∷ ys) (suc i) x h e = All₂-get_elem? R xs ys i x h.1 e
