-- ===== src/Base/Slices.antt =====
-- Python's slices of a list, `xs[:n]` and `xs[n:]`, against appending.
use Prim.Native.Nat.{ℕ, zero, suc, ◌-◌, ◌≤◌}
use mathlib.Core.Path.{◌≡◌, refl, sym, ap, ◌∙◌}
use mathlib.Core.List.{List, [], ◌∷◌, ◌++◌}
use native.Mathlib.Omega.{arith}
use bitcoin_node_tests.Base.Lists.{length, take, drop}

module _ {ℓ} {A : Type ℓ} where
  pub drop-append : (n : ℕ) (xs ys : List A) → n ≤ length xs → drop n xs ++ ys ≡ drop n (xs ++ ys)
  drop-append zero xs ys h = refl
  drop-append (suc n) [] ys h = absurd (omega arith)
  drop-append (suc n) (x ∷ xs) ys h = drop-append n xs ys (omega arith)

  pub take-append : (n : ℕ) (xs ys : List A) → n ≤ length xs → take n (xs ++ ys) ≡ take n xs
  take-append zero xs ys h = refl
  take-append (suc n) [] ys h = absurd (omega arith)
  take-append (suc n) (x ∷ xs) ys h = ap (λ t. x ∷ t) (take-append n xs ys (omega arith))

  pub length-take_le :
      (n : ℕ) (b : List A) → (length (take n b) ≤ n) × (length (take n b) ≤ length b)
  length-take_le zero b = (omega arith, omega arith)
  length-take_le (suc n) [] = (omega arith, omega arith)
  length-take_le (suc n) (x ∷ xs) =
      (omega (arith, (length-take_le n xs).0), omega (arith, (length-take_le n xs).1))

  pub le_length-take : (i n : ℕ) (b : List A) → i ≤ n → i ≤ length b → i ≤ length (take n b)
  le_length-take i zero b h k = h
  le_length-take i (suc n) [] h k = k
  le_length-take zero (suc n) (x ∷ xs) h k = omega arith
  le_length-take (suc i) (suc n) (x ∷ xs) h k =
      omega (arith, le_length-take i n xs (omega arith) (omega arith))

  pub take_all : (n : ℕ) (b : List A) → length b ≤ n → take n b ≡ b
  take_all zero [] h = refl
  take_all zero (x ∷ xs) h = absurd (omega arith)
  take_all (suc n) [] h = refl
  take_all (suc n) (x ∷ xs) h = ap (λ t. x ∷ t) (take_all n xs (omega arith))

  pub take-over :
      (n : ℕ) (xs ys : List A) → length xs ≤ n → (k : ℕ) × (take n (xs ++ ys) ≡ xs ++ take k ys)
  take-over n [] ys h = (n, refl)
  take-over zero (x ∷ xs) ys h = absurd (omega arith)
  take-over (suc n) (x ∷ xs) ys h =
      let (k, e) = take-over n xs ys (omega arith) in (k, ap (λ t. x ∷ t) e)

  take_nil : (n : ℕ) → take {A = A} n [] ≡ []
  take_nil zero = refl
  take_nil (suc n) = refl

  pub drop-take : (i k : ℕ) (b : List A) → i ≤ k → drop i (take k b) ≡ take (k - i) (drop i b)
  drop-take zero k b h = ap (λ n. take n b) (omega arith)
  drop-take (suc i) zero b h = absurd (omega arith)
  drop-take (suc i) (suc k) [] h = sym (take_nil (suc k - suc i))
  drop-take (suc i) (suc k) (x ∷ xs) h =
      drop-take i k xs (omega arith) ∙ ap (λ n. take n (drop i xs)) (omega arith)

  pub drop-length : (xs ys : List A) → drop (length xs) (xs ++ ys) ≡ ys
  drop-length [] ys = refl
  drop-length (x ∷ xs) ys = drop-length xs ys

  pub length-take : (n : ℕ) (b : List A) → n ≤ length b → length (take n b) ≡ n
  length-take zero b h = refl
  length-take (suc n) [] h = absurd (omega arith)
  length-take (suc n) (x ∷ xs) h = ap suc (length-take n xs (omega arith))
