-- ===== src/Base/Raise.antt =====
-- Chains of pure steps that may raise.
use mathlib.Core.Path.{◌≡◌, refl}
use bitcoin_node_tests.Base.Exec.{Result, ok, err}

module _ {ℓ κ} {A : Type ℓ} {B : Type κ} where
  infixl 10 ◌>>=◌
  -- the next step, where the one before returned
  abbrev pub ◌>>=◌ : Result A → (A → Result B) → Result B
  err e >>= next = err e
  ok a >>= next = next a

  -- A chain that returned had its first step return.
  pub >>=-eq-ok :
      (first : Result A) (next : A → Result B) {last : B}
      → (first >>= next) ≡ ok last
      → (a : A) × (first ≡ ok a) × (next a ≡ ok last)
  >>=-eq-ok (err e) next done = cc
  >>=-eq-ok (ok a) next done = (a, refl, done)

pub ok-injective {ℓ} : {A : Type ℓ} {a b : A} → ok a ≡ ok b → a ≡ b
ok-injective h = cc h

-- A chain whose first step returns goes on from its value.
pub >>=-ok {ℓ κ} :
    {A : Type ℓ} {B : Type κ} {first : Result A} {a : A} (next : A → Result B)
    → first ≡ ok a
    → (first >>= next) ≡ next a
>>=-ok next h = rw h refl
