-- ===== src/Adapter/Options/Names.antt =====
-- What an option is, apart from the code of src/bitcoin_node_tests/node.py that reads it.
use bitcoin_node_tests.Base.{
  ℕ, zero, suc, ◌≡◌, refl, sym, ap, ◌∙◌, inl, inr, true, false, some, [], ◌∷◌, ◌++◌, All,
  Bool-cases, replicate, ◌==◌, ==_iff,
}
use bitcoin_node_tests.Adapter.Options.{before_equals, drop_dashes, option_name, or_none}
use bitcoin_node_tests.Base.Bytes.{Text}
use mathlib.Core.List.{head-eq_of_cons-eq}

-- no `=` in a text
abbrev pub NoEquals : Text → Type 0
NoEquals name = All (λ c. (c == 61) ≡ false) name

-- the end of a token: nothing, or `=` and a value
abbrev pub IsValue : Text → Type 0
IsValue [] = Unit
IsValue (c ∷ cs) = c ≡ 61

-- the first letter of a name is no dash and no `=`, and there is one
abbrev pub IsName : Text → Type 0
IsName [] = ⊥
IsName (c ∷ cs) = ((c == 45) ≡ false) × NoEquals (c ∷ cs)

-- `token` is one dash or more, the name, and perhaps `=` and a value
abbrev pub Spells : Text → Text → Type 0
Spells token name =
    (n : ℕ) × (value : Text) × (token ≡ replicate (suc n) 45 ++ (name ++ value))
    × IsName name
    × IsValue value

before_equals-append :
    (name value : Text) → NoEquals name → IsValue value → before_equals (name ++ value) ≡ name
unfolding before_equals
before_equals-append [] [] h v = refl
before_equals-append [] (c ∷ cs) h v = rw v refl
before_equals-append (c ∷ cs) value (p, h) v =
    rw p (ap (λ t. c ∷ t) (before_equals-append cs value h v))

drop_dashes-replicate :
    (n : ℕ) (c : ℕ) (cs : Text)
    → (c == 45) ≡ false
    → drop_dashes (replicate n 45 ++ c ∷ cs) ≡ c ∷ cs
unfolding drop_dashes
drop_dashes-replicate zero c cs h = rw h refl
drop_dashes-replicate (suc n) c cs h = drop_dashes-replicate n c cs h

name-read :
    (n c : ℕ) (cs value : Text)
    → IsName (c ∷ cs)
    → IsValue value
    → before_equals (drop_dashes (replicate (suc n) 45 ++ ((c ∷ cs) ++ value))) ≡ c ∷ cs
name-read n c cs value (p, h) v =
    ap before_equals (drop_dashes-replicate (suc n) c (cs ++ value) p)
    ∙ before_equals-append (c ∷ cs) value h v

pub Spells-option_name : (token name : Text) → Spells token name → option_name token ≡ some name
unfolding option_name
Spells-option_name token [] (n, value, e, h, v) = absurd h
Spells-option_name token (c ∷ cs) (n, value, e, h, v) =
    ap option_name e ∙ ap or_none (name-read n c cs value h v)

-- what the two steps take off a text
drop_dashes-split :
    (t : Text)
    → (n : ℕ) × (t ≡ replicate n 45 ++ drop_dashes t)
      × ((c : ℕ) (cs : Text) → drop_dashes t ≡ c ∷ cs → (c == 45) ≡ false)
unfolding drop_dashes
drop_dashes-split [] = (0, refl, λ c cs h. cc h)
drop_dashes-split (c ∷ cs) = elim (Bool-cases (c == 45)) [
  | inl h ↦ let (n, e, f) = drop_dashes-split cs in rw h (suc n, cc (e, (==_iff c 45).0 h), f)
  | inr h ↦ rw h (0, refl, λ d ds e. rw (← (head-eq_of_cons-eq e)) h)
]

before_equals-split :
    (t : Text)
    → (value : Text) × (t ≡ before_equals t ++ value) × NoEquals (before_equals t) × IsValue value
unfolding before_equals
before_equals-split [] = ([], refl, tt, tt)
before_equals-split (c ∷ cs) = elim (Bool-cases (c == 61)) [
  | inl h ↦ rw h (c ∷ cs, refl, tt, (==_iff c 61).0 h)
  | inr h ↦
      let (value, e, p, v) = before_equals-split cs in rw h (value, ap (λ t. c ∷ t) e, (h, p), v)
]

-- A token that is `n` dashes, a name and a value, where the name is what both steps leave.
Spells-from :
    (token d : Text) (x : ℕ) (xs : Text) (n : ℕ) (value : Text)
    → token ≡ replicate n 45 ++ d
    → d ≡ (x ∷ xs) ++ value
    → ((c : ℕ) (cs : Text) → d ≡ c ∷ cs → (c == 45) ≡ false)
    → ((c : ℕ) (cs : Text) → token ≡ c ∷ cs → (c == 45) ≡ true)
    → NoEquals (x ∷ xs)
    → IsValue value
    → Spells token (x ∷ xs)
Spells-from token d x xs zero value e f first dash names v =
    cc (dash x (xs ++ value) (e ∙ f), first x (xs ++ value) f)
Spells-from token d x xs (suc n) value e f first dash names v =
    (n, value, e ∙ ap (λ t. replicate (suc n) 45 ++ t) f, (first x (xs ++ value) f, names), v)

name-Spells :
    (token read name : Text)
    → read ≡ before_equals (drop_dashes token)
    → or_none read ≡ some name
    → ((c : ℕ) (cs : Text) → token ≡ c ∷ cs → (c == 45) ≡ true)
    → Spells token name
name-Spells token [] name e h dash = cc h
name-Spells token (x ∷ xs) name e h dash =
    let (n, split, first) = drop_dashes-split token in
    let (value, rest, names, v) = before_equals-split (drop_dashes token) in
    let p : x ∷ xs ≡ name = cc h in
    rw (← p) (
      Spells-from token (drop_dashes token) x xs n value split (rest ∙ ap (λ t. t ++ value) (sym e))
        first dash (rw (← e) at names) v)

pub option_name-Spells : (token name : Text) → option_name token ≡ some name → Spells token name
unfolding option_name
option_name-Spells [] name h = cc h
option_name-Spells (c ∷ cs) name h = elim (Bool-cases (c == 45)) [
  | inl e ↦
      name-Spells (c ∷ cs) (before_equals (drop_dashes (c ∷ cs))) name refl (rw e at h)
        (λ d ds q. rw (← (head-eq_of_cons-eq q)) e)
  | inr e ↦ cc (rw e at h)
]
