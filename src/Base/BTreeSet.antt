-- ===== src/Base/BTreeSet.antt =====
-- `BTreeSet` of numbers: a strictly ascending list, which is the order of its iterator.
use Prim.Native.Nat.{ℕ, ◌<◌, ◌≤◌}
use mathlib.Core.Path.{◌≡◌, refl, subst}
use mathlib.Core.Logic.{inl, inr}
use mathlib.Core.Bool.{Bool, true, false}
use mathlib.Core.Option.{Option, none, some}
use mathlib.Core.List.{List, [], ◌∷◌}
use native.Mathlib.Omega.{arith}
use intmax.Base.Tests.{ltb, ◌==◌, ==_iff, if◌then◌else◌, Bool-cases}
use intmax.Base.Lists.{All, All-map, All-retain, retain, any}

abbrev pub BTreeSet : Type 0
BTreeSet = List ℕ

unfoldable pub insert : ℕ → BTreeSet → BTreeSet
insert n [] = n ∷ []
insert n (x ∷ xs) = if n == x then x ∷ xs else if ltb n x then n ∷ x ∷ xs else x ∷ insert n xs

unfoldable pub remove : ℕ → BTreeSet → BTreeSet
remove n [] = []
remove n (x ∷ xs) = if x == n then xs else x ∷ remove n xs

-- `iter().next().cloned()`.
unfoldable pub first : BTreeSet → Option ℕ
first [] = none
first (x ∷ xs) = some x

abbrev pub contains : ℕ → BTreeSet → Bool
contains n = any (λ x. x == n)

abbrev pub IsAscending : List ℕ → Type 0
IsAscending [] = Unit
IsAscending (x ∷ xs) = All (λ y. x < y) xs × IsAscending xs

pub All-insert : (P : ℕ → Type 0) (n : ℕ) (s : BTreeSet) → P n → All P s → All P (insert n s)
unfolding insert
All-insert P n [] p h = (p, tt)
All-insert P n (x ∷ xs) p h = ground (arith, All-insert P n xs p h.1)

All-kept : (p : ℕ → Bool) (P : ℕ → Type 0) (xs : List ℕ) → All P xs → All P (retain p xs)
All-kept p P xs h =
    All-map {P = λ x. (p x ≡ true) × P x} (λ y q. q.1) (retain p xs) (All-retain P p xs h)

All-above : (n x : ℕ) (s : BTreeSet) → n < x → All (λ y. x < y) s → All (λ y. n < y) s
All-above n x s p h = All-map {P = λ y. x < y} (λ y q. omega arith) s h

pub insert-IsAscending : (n : ℕ) (s : BTreeSet) → IsAscending s → IsAscending (insert n s)
unfolding insert
insert-IsAscending n [] h = (tt, tt)
insert-IsAscending n (x ∷ xs) h =
    ground (arith, All-insert (λ y. x < y) n xs, insert-IsAscending n xs h.1, All-above n x xs)

pub contains-insert :
    (n k : ℕ) (s : BTreeSet) → contains k (insert n s) ≡ (if n == k then true else contains k s)
unfolding insert
contains-insert n k [] = ground arith
contains-insert n k (x ∷ xs) = ground (arith, contains-insert n k xs)

pub retain-IsAscending : (p : ℕ → Bool) (s : BTreeSet) → IsAscending s → IsAscending (retain p s)
retain-IsAscending p [] h = tt
retain-IsAscending p (x ∷ xs) h = elim (Bool-cases (p x)) [
  | inl e ↦ rw e (All-kept p (λ y. x < y) xs h.0, retain-IsAscending p xs h.1)
  | inr e ↦ rw e (retain-IsAscending p xs h.1)
]

pub All-remove : (P : ℕ → Type 0) (n : ℕ) (s : BTreeSet) → All P s → All P (remove n s)
unfolding remove
All-remove P n [] h = tt
All-remove P n (x ∷ xs) h = ground (arith, All-remove P n xs h.1)

pub remove-IsAscending : (n : ℕ) (s : BTreeSet) → IsAscending s → IsAscending (remove n s)
unfolding remove
remove-IsAscending n [] h = tt
remove-IsAscending n (x ∷ xs) h =
    ground (arith, All-remove (λ y. x < y) n xs h.0, remove-IsAscending n xs h.1)

not-contains : (k : ℕ) (s : BTreeSet) → All (λ y. k < y) s → contains k s ≡ false
not-contains k [] h = refl
not-contains k (x ∷ xs) h = ground (arith, not-contains k xs h.1)

not-contains_below : (n x : ℕ) (s : BTreeSet) → All (λ y. x < y) s → n ≤ x → contains n s ≡ false
not-contains_below n x [] h l = refl
not-contains_below n x (y ∷ s) h l = ground (arith, not-contains_below n x s h.1)

pub not-contains_above : (k : ℕ) (s : BTreeSet) → All (λ y. y < k) s → contains k s ≡ false
not-contains_above k [] h = refl
not-contains_above k (x ∷ xs) h = ground (arith, not-contains_above k xs h.1)

-- A member that is at most every member comes first.
pub first_of_least :
    (s : BTreeSet) (n : ℕ)
    → IsAscending s
    → contains n s ≡ true
    → All (λ y. n ≤ y) s
    → first s ≡ some n
unfolding first
first_of_least [] n h c l = cc
first_of_least (x ∷ xs) n h c l = ground (arith, not-contains_below n x xs h.0)

pub contains-remove :
    (n k : ℕ) (s : BTreeSet)
    → IsAscending s
    → contains k (remove n s) ≡ (if n == k then false else contains k s)
unfolding remove
contains-remove n k [] h = ground arith
contains-remove n k (x ∷ xs) h = ground (arith, contains-remove n k xs h.1, not-contains n xs)

pub All-contains : (P : ℕ → Type 0) (n : ℕ) (s : BTreeSet) → All P s → contains n s ≡ true → P n
All-contains P n [] h c = absurd (cc)
All-contains P n (x ∷ xs) h c = elim (Bool-cases (x == n)) [
  | inl e ↦ subst P ((==_iff x n).0 e) h.0
  | inr e ↦ All-contains P n xs h.1 (ground arith)
]

pub contains-retain :
    (p : ℕ → Bool) (k : ℕ) (s : BTreeSet)
    → contains k (retain p s) ≡ (if p k then contains k s else false)
contains-retain p k [] = ground arith
contains-retain p k (x ∷ xs) = ground (arith, contains-retain p k xs)

-- The first element is the least one.
pub first_least :
    (s : BTreeSet) (n : ℕ)
    → IsAscending s
    → first s ≡ some n
    → (contains n s ≡ true) × All (λ y. n ≤ y) s
unfolding first
first_least [] n h e = absurd (cc)
first_least (x ∷ xs) n h e =
    let same : x ≡ n = ground arith in
    (ground arith, (omega arith, All-map {P = λ y. x < y} (λ y q. omega arith) xs h.0))

pub first-none : (s : BTreeSet) → first s ≡ none → s ≡ []
unfolding first
first-none [] e = refl
first-none (x ∷ xs) e = cc
