-- ===== src/Base/Sort.antt =====
-- `slice::sort_by`, a stable sort, over a test that says whether the first argument may stay first.
use Prim.Native.Nat.{ℕ, zero, suc, ◌+◌}
use mathlib.Core.Path.{◌≡◌, refl, ap, ◌∙◌}
use mathlib.Core.Logic.{inl, inr}
use mathlib.Core.Bool.{Bool, true, false}
use mathlib.Core.List.{List, [], ◌∷◌, ◌++◌, map, Perm}
use mathlib.Core.List.Perm
use native.Mathlib.Omega.{arith}
use intmax.Base.Tests.{if◌then◌else◌, Bool-cases}
use intmax.Base.Lists.{retain, length, replicate, All-replicate, All, All-map, All-append, any}

module _ {ℓ} {A : Type ℓ} (before : A → A → Bool) where
  insert_by : A → List A → List A
  insert_by x [] = x ∷ []
  insert_by x (y ∷ ys) = if before x y then x ∷ y ∷ ys else y ∷ insert_by x ys

  unfoldable pub sort_by : List A → List A
  unfolding insert_by
  sort_by [] = []
  sort_by (x ∷ xs) = insert_by x (sort_by xs)

  abbrev pub IsSorted : List A → Type 0
  IsSorted [] = Unit
  IsSorted (x ∷ xs) = All (λ y. before x y ≡ true) xs × IsSorted xs

  insert_by-perm : (x : A) (ys : List A) → Perm (insert_by x ys) (x ∷ ys)
  unfolding insert_by
  insert_by-perm x [] = Perm.refl _
  insert_by-perm x (y ∷ ys) = elim (Bool-cases (before x y)) [
    | inl e ↦ rw e (Perm.refl _)
    | inr e ↦ rw e (Perm.trans (Perm.cons y (insert_by-perm x ys)) (Perm.swap x y ys))
  ]

  pub sort_by-perm : (xs : List A) → Perm (sort_by xs) xs
  unfolding sort_by
  sort_by-perm [] = Perm.refl _
  sort_by-perm (x ∷ xs) = Perm.trans (insert_by-perm x (sort_by xs)) (Perm.cons x (sort_by-perm xs))

  All-insert_by {κ} :
      (P : A → Type κ) (x : A) (ys : List A) → P x → All P ys → All P (insert_by x ys)
  unfolding insert_by
  All-insert_by P x [] p h = (p, tt)
  All-insert_by P x (y ∷ ys) p h = elim (Bool-cases (before x y)) [
    | inl e ↦ rw e (p, h)
    | inr e ↦ rw e (h.0, All-insert_by P x ys p h.1)
  ]

  pub All-sort_by {κ} : (P : A → Type κ) (xs : List A) → All P xs → All P (sort_by xs)
  unfolding sort_by
  All-sort_by P [] h = tt
  All-sort_by P (x ∷ xs) h = All-insert_by P x (sort_by xs) h.0 (All-sort_by P xs h.1)

  length-insert_by : (x : A) (ys : List A) → length (insert_by x ys) ≡ suc (length ys)
  unfolding insert_by
  length-insert_by x [] = refl
  length-insert_by x (y ∷ ys) = elim (Bool-cases (before x y)) [
    | inl e ↦ rw e
    | inr e ↦ rw e (ap suc (length-insert_by x ys))
  ]

  pub length-sort_by : (xs : List A) → length (sort_by xs) ≡ length xs
  unfolding sort_by
  length-sort_by [] = refl
  length-sort_by (x ∷ xs) = omega (arith, length-insert_by x (sort_by xs), length-sort_by xs)

  -- For a total and transitive test the result is in order.
  module _ (total : (x y : A) → before x y ≡ false → before y x ≡ true)
      (trans : (x y z : A) → before x y ≡ true → before y z ≡ true → before x z ≡ true) where
    insert_by-IsSorted : (x : A) (ys : List A) → IsSorted ys → IsSorted (insert_by x ys)
    unfolding insert_by
    insert_by-IsSorted x [] h = (tt, tt)
    insert_by-IsSorted x (y ∷ ys) h = elim (Bool-cases (before x y)) [
      | inl e ↦ rw e ((e, All-map {P = λ z. before y z ≡ true} (λ z q. trans x y z e q) ys h.0), h)
      | inr e ↦ rw e (
        All-insert_by (λ z. before y z ≡ true) x ys (total x y e) h.0,
        insert_by-IsSorted x ys h.1,
      )
    ]

    pub sort_by-IsSorted : (xs : List A) → IsSorted (sort_by xs)
    unfolding sort_by
    sort_by-IsSorted [] = tt
    sort_by-IsSorted (x ∷ xs) = insert_by-IsSorted x (sort_by xs) (sort_by-IsSorted xs)

  any-insert_by : (p : A → Bool) (x : A) (ys : List A) → any p (insert_by x ys) ≡ any p (x ∷ ys)
  unfolding insert_by
  any-insert_by p x [] = refl
  any-insert_by p x (y ∷ ys) = ground (arith, any-insert_by p x ys)

  pub any-sort_by : (p : A → Bool) (xs : List A) → any p (sort_by xs) ≡ any p xs
  unfolding sort_by
  any-sort_by p [] = refl
  any-sort_by p (x ∷ xs) = any-insert_by p x (sort_by xs) ∙ ground (arith, any-sort_by p xs)

  pub IsSorted-append :
      (xs ys : List A)
      → IsSorted xs
      → IsSorted ys
      → All (λ x. All (λ y. before x y ≡ true) ys) xs
      → IsSorted (xs ++ ys)
  IsSorted-append [] ys h k c = k
  IsSorted-append (x ∷ xs) ys h k c =
      (All-append (λ y. before x y ≡ true) xs ys h.0 c.0, IsSorted-append xs ys h.1 k c.1)

  pub IsSorted-replicate : (n : ℕ) (a : A) → before a a ≡ true → IsSorted (replicate n a)
  IsSorted-replicate zero a h = tt
  IsSorted-replicate (suc n) a h =
      (All-replicate (λ y. before a y ≡ true) n a h, IsSorted-replicate n a h)

-- A test that reads a key, on the keys.
module _ {ℓ κ} {A : Type ℓ} {B : Type κ} (f : A → B) (before : B → B → Bool) where
  All-of_map :
      (y : B) (xs : List A)
      → All (λ x. before y (f x) ≡ true) xs
      → All (λ b. before y b ≡ true) (map f xs)
  All-of_map y [] h = tt
  All-of_map y (x ∷ xs) h = (h.0, All-of_map y xs h.1)

  pub IsSorted-map :
      (xs : List A) → IsSorted (λ a b. before (f a) (f b)) xs → IsSorted before (map f xs)
  IsSorted-map [] h = tt
  IsSorted-map (x ∷ xs) h = (All-of_map (f x) xs h.0, IsSorted-map xs h.1)

-- How many elements pass a test.
module _ {ℓ} {A : Type ℓ} (p : A → Bool) where
  abbrev pub count : List A → ℕ
  count [] = 0
  count (x ∷ xs) = if p x then suc (count xs) else count xs

  pub count-append : (xs ys : List A) → count (xs ++ ys) ≡ count xs + count ys
  count-append [] ys = omega arith
  count-append (x ∷ xs) ys = ground (arith, count-append xs ys)

  count-insert_by :
      (before : A → A → Bool) (x : A) (ys : List A) → count (insert_by before x ys) ≡ count (x ∷ ys)
  unfolding insert_by
  count-insert_by before x [] = refl
  count-insert_by before x (y ∷ ys) = ground (arith, count-insert_by before x ys)

  pub count-sort_by : (before : A → A → Bool) (xs : List A) → count (sort_by before xs) ≡ count xs
  unfolding sort_by
  count-sort_by before [] = refl
  count-sort_by before (x ∷ xs) =
      ground (arith, count-insert_by before x (sort_by before xs), count-sort_by before xs)

  -- A test and its negation split a list.
  pub count-retain :
      (q r : A → Bool) (xs : List A)
      → ((x : A) → r x ≡ (if q x then false else true))
      → count (retain q xs) + count (retain r xs) ≡ count xs
  count-retain q r [] h = omega arith
  count-retain q r (x ∷ xs) h = let e = h x in ground (arith, count-retain q r xs h)
