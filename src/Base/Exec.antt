-- ===== src/Base/Exec.antt =====
-- Python's exceptions as values, and methods that change an object and may raise: what was written
-- before a raise stays written, so the state comes back beside the error too.
use mathlib.Core.Path.{◌≡◌, refl}
use mathlib.Core.Option.{Option, none, some}
use mathlib.Core.Bool.{Bool, true, false}
use bitcoin_node_tests.Base.{◌⊎◌, inl, inr, ap}

-- The exception classes that the modelled code raises or lets through.
pub data Error : Type 0 where
  type_error value_error lookup_error runtime_error rpc_error zero_division index_error : Error
  timeout_error connection_error blocking_io_error assertion_error os_error timeout_expired : Error
  -- no exception: a loop of the model ran out of rounds
  unfinished : Error

pub data Result {ℓ} (A : Type ℓ) : Type ℓ where
  ok : A → Result A
  err : Error → Result A

-- the value, or the exception where there is none
abbrev pub or_raise {ℓ} : {A : Type ℓ} → Option A → Error → Result A
or_raise (some a) e = ok a
or_raise none e = err e

abbrev pub Exec {ℓ} : Type ℓ → Type ℓ → Type ℓ
Exec S A = S → Result A × S

module _ {ℓ} {S A : Type ℓ} where
  abbrev pub pure : A → Exec S A
  pure a s = (ok a, s)

  abbrev pub raise : Error → Exec S A
  raise e s = (err e, s)

  abbrev pub lift : Result A → Exec S A
  lift r s = (r, s)

  abbrev pub gets : (S → A) → Exec S A
  gets f s = (ok (f s), s)

module _ {ℓ} {S A B : Type ℓ} where
  -- what follows a call, given the call's outcome
  abbrev pub and_then : Result A × S → (A → Exec S B) → Result B × S
  and_then (ok a, s) f = f a s
  and_then (err e, s) f = (err e, s)

  infixl 10 ◌>>=◌ ◌>>◌
  abbrev pub ◌>>=◌ : Exec S A → (A → Exec S B) → Exec S B
  ◌>>=◌ m f s = and_then (m s) f

  abbrev pub ◌>>◌ : Exec S A → Exec S B → Exec S B
  ◌>>◌ m n s = and_then (m s) (λ _. n)

  -- A block that returned had each of its parts return.
  pub and_then-eq-ok :
      (r : Result A × S) (f : A → Exec S B) {b : B} {t : S}
      → and_then r f ≡ (ok b, t)
      → (a : A) × (u : S) × (r ≡ (ok a, u)) × (f a u ≡ (ok b, t))
  and_then-eq-ok (ok a, u) f h = (a, u, refl, h)
  and_then-eq-ok (err e, u) f h = cc

module _ {ℓ} {S A B : Type ℓ} where
  -- the same for a step that leaves the state
  pub and_then_lift-eq-ok :
      (r : Result A) (s : S) (f : A → Exec S B) {b : B} {t : S}
      → and_then (r, s) f ≡ (ok b, t)
      → (a : A) × (r ≡ ok a) × (f a s ≡ (ok b, t))
  and_then_lift-eq-ok (ok a) s f h = (a, refl, h)
  and_then_lift-eq-ok (err e) s f h = cc

abbrev pub modify {ℓ} : {S : Type ℓ} → (S → S) → Exec S (Unit {ℓ})
modify f s = (ok tt, f s)

-- `if not test: raise e`
abbrev pub require {ℓ} : {S : Type ℓ} → Bool → Error → Exec S (Unit {ℓ})
require true e s = (ok tt, s)
require false e s = (err e, s)

-- an action returned or raised
pub outcome_cases {ℓ} :
    {S A : Type ℓ} (r : Result A × S)
    → ((a : A) × (s : S) × (r ≡ (ok a, s))) ⊎ ((e : Error) × (s : S) × (r ≡ (err e, s)))
outcome_cases (ok a, s) = inl (a, s, refl)
outcome_cases (err e, s) = inr (e, s, refl)

-- The parts of an outcome.
pub result-parts {ℓ} :
    {S A : Type ℓ} {r r' : Result A} {s s' : S}
    → ◌≡◌ {A = Result A × S} (r, s) (r', s')
    → (r ≡ r') × (s ≡ s')
result-parts h = (ap (λ p. p.0) h, ap (λ p. p.1) h)

pub ok-parts {ℓ} :
    {S A : Type ℓ} {a b : A} {s t : S}
    → ◌≡◌ {A = Result A × S} (ok a, s) (ok b, t)
    → (a ≡ b) × (s ≡ t)
ok-parts h = (cc (ap (λ p. p.0) h), ap (λ p. p.1) h)

pub err-parts {ℓ} :
    {S A : Type ℓ} {a b : Error} {s t : S}
    → ◌≡◌ {A = Result A × S} (err a, s) (err b, t)
    → (a ≡ b) × (s ≡ t)
err-parts h = (cc (ap (λ p. p.0) h), ap (λ p. p.1) h)

-- a pure step returned or raised
pub Result-cases {ℓ} :
    {A : Type ℓ} (r : Result A) → ((a : A) × (r ≡ ok a)) ⊎ ((e : Error) × (r ≡ err e))
Result-cases (ok a) = inl (a, refl)
Result-cases (err e) = inr (e, refl)
