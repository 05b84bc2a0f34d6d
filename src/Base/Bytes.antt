-- ===== src/Base/Bytes.antt =====
-- Byte strings and texts as lists of numbers, their equality, and Python's `bytes.hex` and
-- `bytes.fromhex`.
use Prim.Native.Char.{code}
use Prim.Native.String.{String}
use bitcoin_node_tests.Base.{
  ℕ, ◌+◌, ◌-◌, ◌*◌, ◌/◌, ◌%◌, ◌<◌, ◌≡◌, refl, ap, ◌∙◌, ◌↔◌, Bool, true, false, ◌&&◌, ◌||◌, Option,
  none, some, List, [], ◌∷◌, All, arith, ltb, leb, ◌==◌, if◌then◌else◌,
}

abbrev pub Bytes : Type 0
Bytes = List ℕ

-- A `str`, by its code points.
abbrev pub Text : Type 0
Text = List ℕ

unfoldable pub bytes_eq : Bytes → Bytes → Bool
bytes_eq [] [] = true
bytes_eq (x ∷ xs) (y ∷ ys) = x == y && bytes_eq xs ys
bytes_eq _ _ = false

pub bytes_eq→eq : (a b : Bytes) → bytes_eq a b ≡ true → a ≡ b
unfolding bytes_eq
bytes_eq→eq [] [] h = refl
bytes_eq→eq (x ∷ xs) (y ∷ ys) h = ground (arith, bytes_eq→eq xs ys)
bytes_eq→eq [] (y ∷ ys) h = cc
bytes_eq→eq (x ∷ xs) [] h = cc

pub bytes_eq_refl : (a : Bytes) → bytes_eq a a ≡ true
unfolding bytes_eq
bytes_eq_refl [] = refl
bytes_eq_refl (x ∷ xs) = ground (arith, bytes_eq_refl xs)

pub bytes_eq_iff : (a b : Bytes) → (bytes_eq a b ≡ true) ↔ (a ≡ b)
bytes_eq_iff a b = (bytes_eq→eq a b, λ e. cc (ap (bytes_eq a) e, bytes_eq_refl a))

-- The lower-case digit of a number below sixteen.
unfoldable pub hex_digit : ℕ → ℕ
hex_digit n = if ltb n 10 then 48 + n else 87 + n

-- `b.hex()`
unfoldable pub to_hex : Bytes → Text
to_hex [] = []
to_hex (b ∷ rest) = hex_digit (b / 16) ∷ hex_digit (b % 16) ∷ to_hex rest

unfoldable pub digit_value : ℕ → Option ℕ
digit_value c =
    if leb 48 c && leb c 57
    then some (c - 48)
    else if leb 97 c && leb c 102
    then some (c - 87)
    else if leb 65 c && leb c 70
    then some (c - 55)
    else none

-- the ASCII white space that `bytes.fromhex` skips between two bytes
unfoldable pub is_space : ℕ → Bool
is_space c = c == 32 || leb 9 c && leb c 13

abbrev pair_value : Option ℕ → Option ℕ → Option (List ℕ) → Option (List ℕ)
pair_value (some hi) (some lo) (some rest) = some ((hi * 16 + lo) ∷ rest)
pair_value _ _ _ = none

-- `bytes.fromhex(t)`; `none` is its `ValueError`
unfoldable pub from_hex : Text → Option Bytes
from_hex [] = some []
from_hex (c ∷ []) = if is_space c then some [] else none
from_hex (c ∷ d ∷ rest) = elim (is_space c) [
  | true ↦ from_hex (d ∷ rest)
  | false ↦ pair_value (digit_value c) (digit_value d) (from_hex rest)
]

digit_value-hex_digit : (n : ℕ) → n < 16 → digit_value (hex_digit n) ≡ some n
unfolding digit_value hex_digit
digit_value-hex_digit n h = ground arith

not_space-hex_digit : (n : ℕ) → n < 16 → is_space (hex_digit n) ≡ false
unfolding is_space hex_digit
not_space-hex_digit n h = ground arith

from_hex_pair :
    (c d : ℕ) (rest : Text)
    → is_space c ≡ false
    → from_hex (c ∷ d ∷ rest) ≡ pair_value (digit_value c) (digit_value d) (from_hex rest)
unfolding from_hex
from_hex_pair c d rest e = rw (e, from_hex)

-- What `hex` writes, `fromhex` reads back.
pub from_hex-to_hex : (b : Bytes) → All (λ x. x < 256) b → from_hex (to_hex b) ≡ some b
unfolding to_hex
from_hex-to_hex [] h = unfold from_hex in refl
from_hex-to_hex (x ∷ xs) (hx, hxs) =
    from_hex_pair _ _ (to_hex xs) (not_space-hex_digit (x / 16) (omega arith))
    ∙ rw
        (
          digit_value-hex_digit (x / 16) (omega arith),
          digit_value-hex_digit (x % 16) (omega arith),
          from_hex-to_hex xs hxs,
        )
        (ap (λ y. some (y ∷ xs)) (omega arith))

-- The code points of a text that is written out: `String` has its own `[]` and `∷`.
abbrev pub codes : String → Text
codes String.[] = []
codes (String.◌∷◌ c s) = code c ∷ codes s
