-- ===== src/Base/Lists.antt =====
-- Lists measured by native numbers, predicates over lists, and Python's list operations.
use Prim.Native.Nat.{ℕ, zero, suc, ◌+◌, ◌*◌}
use mathlib.Core.Path.{◌≡◌, refl, sym, ap, subst, ◌∙◌}
use mathlib.Core.Logic.{inl, inr, ∥∥₁_elim}
use mathlib.Core.Bool.{Bool, true, false, ◌||◌}
use mathlib.Core.List.Memᴰ
use mathlib.Core.List.{List, [], ◌∷◌, ◌++◌, map, Memᴰ, Perm, Permᴰ}
use mathlib.Core.Option.{Option, none, some}
use native.Mathlib.Omega.{arith}
use native.Mathlib.Nat.{ℕ_set}
use bitcoin_node_tests.Base.Tests.{if◌then◌else◌, Bool-cases}

module _ {ℓ} {A : Type ℓ} where
  abbrev pub length : List A → ℕ
  length [] = 0
  length (x ∷ xs) = suc (length xs)

  abbrev pub get_elem? : List A → ℕ → Option A
  get_elem? [] i = none
  get_elem? (x ∷ xs) zero = some x
  get_elem? (x ∷ xs) (suc i) = get_elem? xs i

  abbrev pub head? : List A → Option A
  head? [] = none
  head? (x ∷ xs) = some x

  abbrev pub take : ℕ → List A → List A
  take zero xs = []
  take (suc n) [] = []
  take (suc n) (x ∷ xs) = x ∷ take n xs

  abbrev pub drop : ℕ → List A → List A
  drop zero xs = xs
  drop (suc n) [] = []
  drop (suc n) (x ∷ xs) = drop n xs

  abbrev pub replicate : ℕ → A → List A
  replicate zero a = []
  replicate (suc n) a = a ∷ replicate n a

  -- `[x for x in xs if keep(x)]`
  abbrev pub keep_if : (A → Bool) → List A → List A
  keep_if keep [] = []
  keep_if keep (x ∷ xs) = if keep x then x ∷ keep_if keep xs else keep_if keep xs

  -- whether some element passes the test
  abbrev pub any : (A → Bool) → List A → Bool
  any test [] = false
  any test (x ∷ xs) = test x || any test xs

  -- how many elements pass the test
  abbrev pub count_if : (A → Bool) → List A → ℕ
  count_if test [] = 0
  count_if test (x ∷ xs) = if test x then suc (count_if test xs) else count_if test xs

  abbrev pub sum_by : (A → ℕ) → List A → ℕ
  sum_by f [] = 0
  sum_by f (x ∷ xs) = f x + sum_by f xs

  abbrev pub All {κ} : (A → Type κ) → List A → Type κ
  All P [] = Unit {κ}
  All P (x ∷ xs) = P x × All P xs

module _ {ℓ} {A : Type ℓ} where
  pub length-append : (xs ys : List A) → length (xs ++ ys) ≡ length xs + length ys
  length-append [] ys = omega arith
  length-append (x ∷ xs) ys = omega (arith, length-append xs ys)

  pub length-map {κ} : {B : Type κ} (f : A → B) (xs : List A) → length (map f xs) ≡ length xs
  length-map f [] = refl
  length-map f (x ∷ xs) = ap suc (length-map f xs)

  pub length-replicate : (n : ℕ) (a : A) → length (replicate n a) ≡ n
  length-replicate zero a = refl
  length-replicate (suc n) a = ap suc (length-replicate n a)

  pub sum_by-append : (f : A → ℕ) (xs ys : List A) → sum_by f (xs ++ ys) ≡ sum_by f xs + sum_by f ys
  sum_by-append f [] ys = omega arith
  sum_by-append f (x ∷ xs) ys = omega (arith, sum_by-append f xs ys)

  pub sum_by-replicate : (f : A → ℕ) (n : ℕ) (a : A) → sum_by f (replicate n a) ≡ f a * n
  sum_by-replicate f zero a = omega arith
  sum_by-replicate f (suc n) a = grind (arith, sum_by-replicate f n a)

  pub All-append {κ} : (P : A → Type κ) (xs ys : List A) → All P xs → All P ys → All P (xs ++ ys)
  All-append P [] ys h k = k
  All-append P (x ∷ xs) ys h k = (h.0, All-append P xs ys h.1 k)

  pub All-map {κ μ} :
      (P : A → Type κ) (Q : A → Type μ)
      → ((a : A) → P a → Q a)
      → (xs : List A) → All P xs
      → All Q xs
  All-map P Q f [] h = tt
  All-map P Q f (x ∷ xs) h = (f x h.0, All-map P Q f xs h.1)

  pub All-of {κ} : (P : A → Type κ) (xs : List A) → ((a : A) → Memᴰ a xs → P a) → All P xs
  All-of P [] f = tt
  All-of P (x ∷ xs) f = (f x (Memᴰ.head refl), All-of P xs (λ a m. f a (Memᴰ.tail m)))

  pub All-at {κ} : (P : A → Type κ) {a : A} (xs : List A) → All P xs → Memᴰ a xs → P a
  All-at P [] h m = elim m [ ]
  All-at P (x ∷ xs) h (Memᴰ.head e) = subst P (sym e) h.0
  All-at P (x ∷ xs) h (Memᴰ.tail m) = All-at P xs h.1 m

  pub mem-keep_if :
      (keep : A → Bool) {a : A} (xs : List A) → Memᴰ a xs → keep a ≡ true → Memᴰ a (keep_if keep xs)
  mem-keep_if keep [] m k = elim m [ ]
  mem-keep_if keep (x ∷ xs) (Memᴰ.head e) k = rw (sym (ap keep e) ∙ k) (Memᴰ.head e)
  mem-keep_if keep {a} (x ∷ xs) (Memᴰ.tail m) k = elim (Bool-cases (keep x)) [
    | inl p ↦ rw p (Memᴰ.tail (mem-keep_if keep xs m k))
    | inr p ↦ rw p (mem-keep_if keep xs m k)
  ]

  pub mem_of_mem-keep_if :
      (keep : A → Bool) {a : A} (xs : List A)
      → Memᴰ a (keep_if keep xs)
      → Memᴰ a xs × (keep a ≡ true)
  mem_of_mem-keep_if keep [] m = elim m [ ]
  mem_of_mem-keep_if keep (x ∷ xs) m = elim (Bool-cases (keep x)) [
    | inl p ↦ elim (Memᴰ.cases_cons (rw p at m)) [
      | inl e ↦ (Memᴰ.head e, ap keep e ∙ p)
      | inr n ↦ let (n', k) = mem_of_mem-keep_if keep xs n in (Memᴰ.tail n', k)
    ]
    | inr p ↦ let (n, k) = mem_of_mem-keep_if keep xs (rw p at m) in (Memᴰ.tail n, k)
  ]

  -- `any` holds exactly where a member passes
  pub any-Memᴰ :
      (test : A → Bool) (xs : List A) → any test xs ≡ true → (a : A) × Memᴰ a xs × (test a ≡ true)
  any-Memᴰ test [] h = cc h
  any-Memᴰ test (x ∷ xs) h = elim (Bool-cases (test x)) [
    | inl e ↦ (x, Memᴰ.head refl, e)
    | inr e ↦ let (a, m, p) = any-Memᴰ test xs (rw e at h) in (a, Memᴰ.tail m, p)
  ]

  pub Memᴰ-any :
      (test : A → Bool) (xs : List A) {a : A} → Memᴰ a xs → test a ≡ true → any test xs ≡ true
  Memᴰ-any test [] m p = elim m [ ]
  Memᴰ-any test (x ∷ xs) (Memᴰ.head e) p = rw (sym (ap test e) ∙ p) refl
  Memᴰ-any test (x ∷ xs) (Memᴰ.tail m) p = elim (Bool-cases (test x)) [
    | inl e ↦ rw e refl
    | inr e ↦ rw e (Memᴰ-any test xs m p)
  ]

  pub sum_by-perm : (f : A → ℕ) {xs ys : List A} → Perm xs ys → sum_by f xs ≡ sum_by f ys
  sum_by-perm f p = ∥∥₁_elim p (ℕ_set _ _) ordered
    where
      ordered : {xs ys : List A} → Permᴰ xs ys → sum_by f xs ≡ sum_by f ys
      ordered Permᴰ.nil = refl
      ordered (Permᴰ.cons e q) = cc (ap f e, ordered q)
      ordered (Permᴰ.swap e d) = omega (arith, ap f e, ap f d)
      ordered (Permᴰ.trans q r) = ordered q ∙ ordered r
