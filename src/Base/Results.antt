-- ===== src/Base/Results.antt =====
-- `Result<A, E>` and the question mark operator. A panic is an error value of the component's
-- error type, so that every function is total.
use mathlib.Core.Path.{◌≡◌, refl}
use mathlib.Core.Logic.{◌⊎◌, inl, inr}
use mathlib.Core.Bool.{Bool, true, false}
use mathlib.Core.Option.{Option, none, some}

pub data Result {ℓ} (E : Type ℓ) (A : Type ℓ) : Type ℓ where
  ok : A → Result E A
  err : E → Result E A

infixl 5 ◌>>=◌ ◌>>◌
abbrev pub ◌>>=◌ {ℓ} : {E A B : Type ℓ} → Result E A → (A → Result E B) → Result E B
ok value >>= k = k value
err failure >>= k = err failure

abbrev pub ◌>>◌ {ℓ} : {E B : Type ℓ} → Result E (Unit {ℓ}) → Result E B → Result E B
first >> second = first >>= λ _. second

-- `ok_or(..)?`.
abbrev pub ok_or {ℓ} : {E A : Type ℓ} → Option A → E → Result E A
ok_or none e = err e
ok_or (some a) e = ok a

-- `map_err(..)`.
abbrev pub map_err {ℓ} : {E F A : Type ℓ} → (F → E) → Result F A → Result E A
map_err f (ok a) = ok a
map_err f (err e) = err (f e)

-- An early `return Err(..)` behind a test.
abbrev pub guard {ℓ} : {E : Type ℓ} → Bool → E → Result E (Unit {ℓ})
guard true failure = ok tt
guard false failure = err failure

-- Inversion of a successful bind.
pub >>=-eq-ok {ℓ} :
    {E A B : Type ℓ} (r : Result E A) (k : A → Result E B) {result : B}
    → (r >>= k) ≡ ok result
    → (value : A) × (r ≡ ok value) × (k value ≡ ok result)
>>=-eq-ok (ok value) k e = (value, refl, e)
>>=-eq-ok (err failure) k e = cc

pub Result-cases {ℓ} :
    {E A : Type ℓ} (r : Result E A) → ((a : A) × (r ≡ ok a)) ⊎ ((e : E) × (r ≡ err e))
Result-cases (ok a) = inl (a, refl)
Result-cases (err e) = inr (e, refl)

pub ok-injective {ℓ} : {E A : Type ℓ} {a b : A} → ◌≡◌ {A = Result E A} (ok a) (ok b) → a ≡ b
ok-injective h = cc

pub some-injective {ℓ} : {A : Type ℓ} {a b : A} → ◌≡◌ {A = Option A} (some a) (some b) → a ≡ b
some-injective h = cc

-- The ways in which the modelled code can panic.
pub data Panic : Type 0 where
  assertion unwrap_none index_out_of_bounds : Panic
