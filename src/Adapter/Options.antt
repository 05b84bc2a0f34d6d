-- ===== src/Adapter/Options.antt =====
-- src/bitcoin_node_tests/node.py: `_option_name` to `_check_extra_args`.
pub mod Names
pub mod Reserved
use bitcoin_node_tests.Base.{
  ℕ, zero, suc, ◌+◌, ◌-◌, ◌*◌, ◌≤◌, ◌<◌, ◌≡◌, ◌≢◌, refl, sym, ap, ◌∙◌, ◌↔◌, ◌⊎◌, inl, inr, Bool,
  true, false, not, ◌&&◌, ◌||◌, Option, none, some, List, [], ◌∷◌, ◌++◌, map, arith, All,
  Bool-cases, any, if◌then◌else◌, ◌==◌,
}
use bitcoin_node_tests.Base.Bytes.{Text, bytes_eq}
use bitcoin_node_tests.Base.Raise.{◌>>=◌}
use bitcoin_node_tests.Base.Exec.{Result, ok, err, value_error}

-- `name.lstrip("-")`
unfoldable pub drop_dashes : Text → Text
drop_dashes [] = []
drop_dashes (c ∷ cs) = let rest = drop_dashes cs in if c == 45 then rest else c ∷ cs

-- `name.split("=", 1)[0]`
unfoldable pub before_equals : Text → Text
before_equals [] = []
before_equals (c ∷ cs) = let rest = before_equals cs in if c == 61 then [] else c ∷ rest

-- `name or None`
abbrev pub or_none : Text → Option Text
or_none [] = none
or_none (c ∷ cs) = some (c ∷ cs)

-- `_option_name`
unfoldable pub option_name : Text → Option Text
option_name [] = none
option_name (c ∷ cs) = if c == 45 then or_none (before_equals (drop_dashes (c ∷ cs))) else none

-- `_canonical_option_name`: `no` and at least one more letter lose the `no`
unfoldable pub canonical_option_name : Text → Text
canonical_option_name (a ∷ b ∷ c ∷ cs) = if a == 110 && b == 111 then c ∷ cs else a ∷ b ∷ c ∷ cs
canonical_option_name name = name

-- `_CHAIN_SELECTORS`: chain, regtest, testnet, testnet4, signet
abbrev pub chain_selectors : List Text
chain_selectors =
    (99 ∷ 104 ∷ 97 ∷ 105 ∷ 110 ∷ [])
    ∷ (114 ∷ 101 ∷ 103 ∷ 116 ∷ 101 ∷ 115 ∷ 116 ∷ [])
    ∷ (116 ∷ 101 ∷ 115 ∷ 116 ∷ 110 ∷ 101 ∷ 116 ∷ [])
    ∷ (116 ∷ 101 ∷ 115 ∷ 116 ∷ 110 ∷ 101 ∷ 116 ∷ 52 ∷ [])
    ∷ (115 ∷ 105 ∷ 103 ∷ 110 ∷ 101 ∷ 116 ∷ [])
    ∷ []

-- `name in names`
abbrev pub has_name : Text → List Text → Bool
has_name name names = any (bytes_eq name) names

abbrev pub add_canonical : Option Text → List Text → List Text
add_canonical none names = names
add_canonical (some name) names = canonical_option_name name ∷ names

-- the names that the tokens set
unfoldable pub canonical_names : List Text → List Text
canonical_names [] = []
canonical_names (token ∷ tokens) = add_canonical (option_name token) (canonical_names tokens)

-- `_reserved_option_names`
unfoldable pub reserved_option_names : List Text → List Text
unfolding canonical_names
reserved_option_names command =
    let reserved = canonical_names command in
    if any (λ name. has_name name chain_selectors) reserved
    then reserved ++ chain_selectors
    else reserved

abbrev pub check_name : List Text → Option Text → Result (Unit {0})
check_name reserved none = ok tt
check_name reserved (some name) =
    if has_name (canonical_option_name name) reserved then err value_error else ok tt

-- The loop of `_check_extra_args`.
unfoldable pub check_each : List Text → List Text → Result (Unit {0})
check_each reserved [] = ok tt
check_each reserved (arg ∷ args) =
    check_name reserved (option_name arg) >>= λ _. check_each reserved args

-- `_check_extra_args`
unfoldable pub check_extra_args : List Text → List Text → Result (Unit {0})
unfolding reserved_option_names check_each
check_extra_args command extra_args = check_each (reserved_option_names command) extra_args
