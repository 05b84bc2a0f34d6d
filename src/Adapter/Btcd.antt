-- ===== src/Adapter/Btcd.antt =====
-- src/bitcoin_node_tests/btcd.py: `_check_short_aliases`.
use bitcoin_node_tests.Base.{
  ℕ, ◌≡◌, refl, ap, ◌∙◌, ◌⊎◌, inl, inr, Bool, true, false, Option, none, some, List, [], ◌∷◌, ◌++◌,
  map, arith, All, Bool-cases, ◌==◌, if◌then◌else◌, All-map, Option-cases,
}
use mathlib.Core.List.{Memᴰ}
use bitcoin_node_tests.Adapter.Options.{drop_dashes, before_equals, has_name}
use bitcoin_node_tests.Base.Bytes.{Text, bytes_eq, codes, bytes_eq_refl, bytes_eq→eq}
use bitcoin_node_tests.Base.Exec.{Result, ok, err, value_error}

-- `_SHORT_OPTIONS`, by the letters a, C, b, d, P, u, V and s
unfoldable pub short_option : ℕ → Option Text
short_option c =
    if c == 97
    then some (codes "addpeer")
    else if c == 67
    then some (codes "configfile")
    else if c == 98
    then some (codes "datadir")
    else if c == 100
    then some (codes "debuglevel")
    else if c == 80
    then some (codes "rpcpass")
    else if c == 117
    then some (codes "rpcuser")
    else if c == 86
    then some (codes "version")
    else if c == 115
    then some (codes "service")
    else none

-- one letter of a run: whether it sets a name of the command, or the letters behind it do, where it is
-- the one that takes no value
abbrev letter_reuses : List Text → Option Text → Bool → Bool
letter_reuses names none rest = false
letter_reuses names (some name) rest =
    if has_name name names then true else if bytes_eq name (codes "version") then rest else false

unfoldable pub letters_reuse : List Text → List ℕ → Bool
unfolding short_option bytes_eq
letters_reuse names [] = false
letters_reuse names (c ∷ cs) = letter_reuses names (short_option c) (letters_reuse names cs)

-- the letters of an entry with one dash ahead
abbrev letters_behind : Text → List ℕ
letters_behind [] = []
letters_behind (c ∷ cs) = if c == 45 then [] else c ∷ cs

unfoldable pub short_letters : Text → List ℕ
short_letters [] = []
short_letters (c ∷ cs) = if c == 45 then letters_behind cs else []

unfoldable pub name_set_by : Text → Text
unfolding drop_dashes before_equals
name_set_by token = before_equals (drop_dashes token)

unfoldable pub check_short_each : List Text → List Text → Result (Unit {0})
unfolding letters_reuse short_letters
check_short_each names [] = ok tt
check_short_each names (arg ∷ extra_args) =
    if letters_reuse names (short_letters arg)
    then err value_error
    else check_short_each names extra_args

-- `_check_short_aliases`
unfoldable pub check_short_aliases : List Text → List Text → Result (Unit {0})
unfolding check_short_each name_set_by
check_short_aliases command extra_args = check_short_each (map name_set_by command) extra_args

-- The letters set a name: behind letters V alone stands the letter of that name.
pub record SetsShort (name : Text) (letters : List ℕ) : Type 0 where
  pub run : List ℕ
  pub letter : ℕ
  pub value : List ℕ
  pub shape : letters ≡ run ++ letter ∷ value
  pub flags : All (λ c. c ≡ 86) run
  pub name_of_letter : short_option letter ≡ some name

-- An entry sets, by its short alias, a name of the command.
abbrev pub Reuses : List Text → Text → Type 0
Reuses command arg =
    (name : Text) × SetsShort name (short_letters arg)
    × (has_name name (map name_set_by command) ≡ true)

-- A letter of another option is passed over.
passed_over :
    (b : Bool) (name : Text) (rest : Option Text) (wanted : Text)
    → bytes_eq name wanted ≡ false
    → (if b then some name else rest) ≡ some wanted
    → rest ≡ some wanted
passed_over true name rest wanted d h =
    let same : name ≡ wanted = cc h in
    cc (d, ap (λ x. bytes_eq x wanted) same, bytes_eq_refl wanted)
passed_over false name rest wanted d h = h

version_letter : (c : ℕ) → short_option c ≡ some (codes "version") → c ≡ 86
unfolding short_option bytes_eq
version_letter c h =
    let h₁ = passed_over (c == 97) (codes "addpeer") _ (codes "version") refl h in
    let h₂ = passed_over (c == 67) (codes "configfile") _ (codes "version") refl h₁ in
    let h₃ = passed_over (c == 98) (codes "datadir") _ (codes "version") refl h₂ in
    let h₄ = passed_over (c == 100) (codes "debuglevel") _ (codes "version") refl h₃ in
    let h₅ = passed_over (c == 80) (codes "rpcpass") _ (codes "version") refl h₄ in
    let h₆ = passed_over (c == 117) (codes "rpcuser") _ (codes "version") refl h₅ in
    elim (Bool-cases (c == 86)) [
      | inl e ↦ ground (arith, e)
      | inr e ↦
          let h₇ =
            passed_over (c == 115) (codes "service") none (codes "version") refl (rw e at h₆) in
          cc h₇
    ]

module _ (names : List Text) where
  letters_reuse-some :
      (letters : List ℕ)
      → letters_reuse names letters ≡ true
      → (name : Text) × SetsShort name letters × (has_name name names ≡ true)
  unfolding letters_reuse
  letters_reuse-some [] h = cc h
  letters_reuse-some (c ∷ cs) h = elim (Option-cases (short_option c)) [
    | inl e ↦ cc (rw e at h)
    | inr (name, e) ↦ elim (Bool-cases (has_name name names)) [
      | inl k ↦ (
        name,
        record { run = []; letter = c; value = cs; shape = refl; flags = tt; name_of_letter = e },
        k,
      )
      | inr k ↦ elim (Bool-cases (bytes_eq name (codes "version"))) [
        | inr l ↦ cc (rw (e, k, l) at h)
        | inl l ↦
            let (later, sets, m) = letters_reuse-some cs (rw (e, k, l) at h) in
            let is_flag = version_letter c (e ∙ ap some (bytes_eq→eq name (codes "version") l)) in
            (
              later,
              record {
                run = c ∷ sets.run;
                letter = sets.letter;
                value = sets.value;
                shape = ap (λ x. c ∷ x) sets.shape;
                flags = (is_flag, sets.flags);
                name_of_letter = sets.name_of_letter;
              },
              m,
            )
      ]
    ]
  ]

  run_reuses :
      (name : Text) (run : List ℕ) (letter : ℕ) (value : List ℕ)
      → All (λ c. c ≡ 86) run
      → short_option letter ≡ some name
      → has_name name names ≡ true
      → letters_reuse names (run ++ letter ∷ value) ≡ true
  unfolding letters_reuse
  run_reuses name [] letter value flags e h = rw (e, h) refl
  run_reuses name (c ∷ run) letter value (is_flag, flags) e h =
      let behind = run_reuses name run letter value flags e h in
      rw (ap short_option is_flag ∙ flag_name) (flag_reuses behind)
    where
      flag_name : short_option 86 ≡ some (codes "version")
      flag_name = unfold short_option in refl

      flag_reuses :
          {rest : Bool} → rest ≡ true → letter_reuses names (some (codes "version")) rest ≡ true
      flag_reuses k = elim (Bool-cases (has_name (codes "version") names)) [
        | inl l ↦ rw l refl
        | inr l ↦ rw (l, bytes_eq_refl (codes "version")) k
      ]

check_short_each-cases :
    (names extra_args : List Text)
    → ((check_short_each names extra_args ≡ ok tt)
        × All (λ arg. letters_reuse names (short_letters arg) ≡ false) extra_args)
      ⊎ ((check_short_each names extra_args ≡ err value_error)
          × (arg : Text) × Memᴰ arg extra_args
          × (letters_reuse names (short_letters arg) ≡ true))
unfolding check_short_each name_set_by
check_short_each-cases names [] = inl (refl, tt)
check_short_each-cases names (arg ∷ extra_args) =
    elim (Bool-cases (letters_reuse names (short_letters arg))) [
      | inl e ↦ inr (rw e refl, arg, Memᴰ.head refl, e)
      | inr e ↦ elim (check_short_each-cases names extra_args) [
        | inl (q, all) ↦ inl (rw e q, (e, all))
        | inr (q, later, m, k) ↦ inr (rw e q, later, Memᴰ.tail m, k)
      ]
    ]

-- _check_short_aliases returns where no extra argument sets, by a short alias, an option that the
-- command names, and raises ValueError where one does. An argument with one dash sets the option of
-- a letter where only letters V, which take no value, stand before it.
pub check_short_aliases_lem :
    (command extra_args : List Text)
    → ((check_short_aliases command extra_args ≡ ok tt)
        × All (λ arg. ¬ Reuses command arg) extra_args)
      ⊎ ((check_short_aliases command extra_args ≡ err value_error)
          × (arg : Text) × Memᴰ arg extra_args
          × Reuses command arg)
unfolding check_short_aliases
check_short_aliases_lem command extra_args =
    let names = map name_set_by command in
    elim (check_short_each-cases names extra_args) [
      | inl (q, all) ↦ inl (
        q,
        All-map (λ arg. letters_reuse names (short_letters arg) ≡ false)
            (λ arg. ¬ Reuses command arg)
            (λ arg e (name, sets, m). cc (
              e,
              ap (letters_reuse names) sets.shape,
              run_reuses names name sets.run sets.letter sets.value sets.flags sets.name_of_letter
                  m,
            ))
            extra_args all,
      )
      | inr (q, arg, m, k) ↦ inr (q, arg, m, letters_reuse-some names (short_letters arg) k)
    ]
