-- ===== src/Adapter/Options/Reserved.antt =====
-- The options that `_check_extra_args` of src/bitcoin_node_tests/node.py refuses.
use bitcoin_node_tests.Base.{
  ◌≡◌, refl, sym, ap, ◌∙◌, ◌↔◌, ◌⊎◌, inl, inr, true, Option, none, some, List, [], ◌∷◌, All,
  Bool-cases, any-Memᴰ, any, Memᴰ-any, Option-cases,
}
use bitcoin_node_tests.Adapter.Options.{
  option_name, canonical_option_name, chain_selectors, canonical_names, has_name, add_canonical,
  check_each, check_extra_args, check_name, reserved_option_names,
}
use bitcoin_node_tests.Base.Bytes.{Text, bytes_eq, bytes_eq→eq, bytes_eq_refl}
use mathlib.Core.List.{Memᴰ}
use mathlib.Core.List.Memᴰ
use bitcoin_node_tests.Base.Exec.{ok, err, value_error}
use bitcoin_node_tests.Adapter.Options.Names.{Spells, option_name-Spells, Spells-option_name}

-- The option that a token sets: the name it spells, without a `no` before it.
abbrev pub Sets : Text → Text → Type 0
Sets token k = (name : Text) × Spells token name × (canonical_option_name name ≡ k)

-- what an adapter sets itself: the options of its command, and all the chain selectors where one of
-- them is among these
abbrev pub IsTaken : List Text → Text → Type 0
IsTaken command k =
    ((token : Text) × Memᴰ token command × Sets token k)
    ⊎ (Memᴰ k chain_selectors
        × ((token : Text) × (other : Text) × Memᴰ token command
            × Sets token other
            × Memᴰ other chain_selectors))

has_name_iff : (k : Text) (names : List Text) → (has_name k names ≡ true) ↔ Memᴰ k names
has_name_iff k names = (
  λ h. let (a, m, e) = any-Memᴰ (bytes_eq k) names h in rw (bytes_eq→eq k a e) m,
  λ m. Memᴰ-any (bytes_eq k) names m (bytes_eq_refl k),
)

-- A name among those of a list whose first is optional.
add_canonical-Memᴰ :
    (k : Text) (o : Option Text) (names : List Text)
    → Memᴰ k (add_canonical o names)
    → ((name : Text) × (o ≡ some name) × (canonical_option_name name ≡ k)) ⊎ Memᴰ k names
add_canonical-Memᴰ k none names m = inr m
add_canonical-Memᴰ k (some name) names (Memᴰ.head e) = inl (name, refl, sym e)
add_canonical-Memᴰ k (some name) names (Memᴰ.tail m) = inr m

Memᴰ-add_canonical :
    (k : Text) (o : Option Text) (names : List Text) → Memᴰ k names → Memᴰ k (add_canonical o names)
Memᴰ-add_canonical k none names m = m
Memᴰ-add_canonical k (some name) names m = Memᴰ.tail m

set_of_canonical :
    (k : Text) (tokens : List Text)
    → Memᴰ k (canonical_names tokens)
    → (token : Text) × Memᴰ token tokens × Sets token k
unfolding canonical_names
set_of_canonical k [] m = elim m [ ]
set_of_canonical k (t ∷ ts) m = elim (add_canonical-Memᴰ k (option_name t) (canonical_names ts) m) [
  | inl (name, e, p) ↦ (t, Memᴰ.head refl, (name, option_name-Spells t name e, p))
  | inr m ↦ let (token, n, sets) = set_of_canonical k ts m in (token, Memᴰ.tail n, sets)
]

canonical_of_set :
    (k token : Text) (tokens : List Text)
    → Memᴰ token tokens
    → Sets token k
    → Memᴰ k (canonical_names tokens)
unfolding canonical_names
canonical_of_set k token [] m sets = elim m [ ]
canonical_of_set k token (t ∷ ts) (Memᴰ.head e) (name, spells, p) =
    rw (ap option_name (sym e) ∙ Spells-option_name token name spells) (Memᴰ.head (sym p))
canonical_of_set k token (t ∷ ts) (Memᴰ.tail m) sets =
    Memᴰ-add_canonical k (option_name t) (canonical_names ts) (canonical_of_set k token ts m sets)

chain_option_iff :
    (names : List Text)
    → (any (λ name. has_name name chain_selectors) names ≡ true)
      ↔ ((other : Text) × Memᴰ other names × Memᴰ other chain_selectors)
chain_option_iff names = (
  λ h.
      let (other, m, e) = any-Memᴰ (λ name. has_name name chain_selectors) names h in
      (other, m, (has_name_iff other chain_selectors).0 e),
  λ (other, m, c).
      Memᴰ-any (λ name. has_name name chain_selectors) names m
        ((has_name_iff other chain_selectors).1 c),
)

names-IsTaken :
    (k : Text) (command : List Text) → Memᴰ k (reserved_option_names command) → IsTaken command k
unfolding reserved_option_names
names-IsTaken k command m =
    elim (Bool-cases (any (λ name. has_name name chain_selectors) (canonical_names command))) [
      | inl e ↦ elim (Memᴰ.append_cases (canonical_names command) (rw e at m)) [
        | inl n ↦ inl (set_of_canonical k command n)
        | inr c ↦
            let (other, n, chain) = (chain_option_iff (canonical_names command)).0 e in
            let (token, t, sets) = set_of_canonical other command n in
            inr (c, (token, other, t, sets, chain))
      ]
      | inr e ↦ inl (set_of_canonical k command (rw e at m))
    ]

IsTaken-names :
    (k : Text) (command : List Text) → IsTaken command k → Memᴰ k (reserved_option_names command)
unfolding reserved_option_names
IsTaken-names k command (inr (c, (token, other, t, sets, chain))) =
    rw
      ((chain_option_iff (canonical_names command)).1
        (other, canonical_of_set other token command t sets, chain))
      (Memᴰ.append_right (canonical_names command) c)
IsTaken-names k command (inl (token, t, sets)) =
    elim (Bool-cases (any (λ name. has_name name chain_selectors) (canonical_names command))) [
      | inl e ↦ rw e (Memᴰ.append_left chain_selectors (canonical_of_set k token command t sets))
      | inr e ↦ rw e (canonical_of_set k token command t sets)
    ]

-- no argument sets an option that the command reserves
abbrev pub IsAllowed : List Text → Text → Type 0
IsAllowed command arg = (k : Text) → Sets arg k → ¬ IsTaken command k

check_name-cases :
    (command : List Text) (arg : Text)
    → ((check_name (reserved_option_names command) (option_name arg) ≡ ok tt)
        × IsAllowed command arg)
      ⊎ ((check_name (reserved_option_names command) (option_name arg) ≡ err value_error)
          × ¬ IsAllowed command arg)
check_name-cases command arg = elim (Option-cases (option_name arg)) [
  | inl e ↦ inl (rw e refl, λ k (name, spells, p) r. cc (e, Spells-option_name arg name spells))
  | inr (name, e) ↦
      elim (Bool-cases (has_name (canonical_option_name name) (reserved_option_names command))) [
        | inl h ↦ inr (
          rw (e, h) refl,
          λ allowed.
              allowed (canonical_option_name name) (name, option_name-Spells arg name e, refl)
                (names-IsTaken (canonical_option_name name) command ((has_name_iff _ _).0 h)),
        )
        | inr h ↦ inl (
          rw (e, h) refl,
          λ k (other, spells, p) r.
              let same : name ≡ other = cc (e, Spells-option_name arg other spells) in
              cc (
                h,
                (has_name_iff (canonical_option_name name) (reserved_option_names command)).1
                    (IsTaken-names (canonical_option_name name) command (rw (same, p) r)),
              ),
        )
      ]
]

check_each_lem :
    (command extra_args : List Text)
    → ((check_each (reserved_option_names command) extra_args ≡ ok tt)
        × All (IsAllowed command) extra_args)
      ⊎ ((check_each (reserved_option_names command) extra_args ≡ err value_error)
          × ¬ All (IsAllowed command) extra_args)
unfolding check_each
check_each_lem command [] = inl (refl, tt)
check_each_lem command (arg ∷ args) = elim (check_name-cases command arg) [
  | inr (e, h) ↦ inr (rw e refl, λ (p, q). h p)
  | inl (e, h) ↦ elim (check_each_lem command args) [
    | inl (f, k) ↦ inl (rw (e, f) refl, (h, k))
    | inr (f, k) ↦ inr (rw (e, f) refl, λ (p, q). k q)
  ]
]

-- _check_extra_args returns where no extra argument sets a reserved option, and raises ValueError
-- otherwise. A token sets the option that it spells with one dash or more before the name and
-- perhaps = and a value behind it, a no before the name left out; reserved are the options that the
-- command sets, and all the chain selectors where it sets one of them.
pub check_extra_args_lem :
    (command extra_args : List Text)
    → ((check_extra_args command extra_args ≡ ok tt) × All (IsAllowed command) extra_args)
      ⊎ ((check_extra_args command extra_args ≡ err value_error)
          × ¬ All (IsAllowed command) extra_args)
unfolding check_extra_args
check_extra_args_lem command extra_args = check_each_lem command extra_args
