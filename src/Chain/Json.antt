-- ===== src/Chain/Json.antt =====
-- What an RPC call answers: a JSON value, as Python holds it.
use Prim.Native.String.{String}
use text.Mathlib.Text.{◌==◌}
use bitcoin_node_tests.Base.Exec.{Result, ok, err, type_error, lookup_error}
use bitcoin_node_tests.Base.{
  Bool, true, false, Option, none, some, List, [], ◌∷◌, if◌then◌else◌, any, not, ◌&&◌, leb,
}
use bitcoin_node_tests.Base.Bytes.{Text, bytes_eq}
use bitcoin_node_tests.Base.Int.{ℤ, pos, ◌==ℤ◌}

mutual
  pub data Answer : Type 0 where
    null : Answer
    bool : Bool → Answer
    int : ℤ → Answer
    -- a number that is no `int`
    float : Text → Answer
    str : Text → Answer
    list : Answers → Answer
    dict : Fields → Answer

  pub data Answers : Type 0 where
    nil : Answers
    cons : Answer → Answers → Answers

  pub data Fields : Type 0 where
    end : Fields
    field : String → Answer → Fields → Fields

-- `answer is None`
abbrev pub is_null : Answer → Bool
is_null null = true
is_null _ = false

-- `isinstance(answer, str)`, with the string
abbrev pub as_str : Answer → Option Text
as_str (str t) = some t
as_str _ = none

-- `isinstance(answer, int)`, with the number: a `bool` is an `int` too
abbrev pub as_int : Answer → Option ℤ
as_int (int n) = some n
as_int (bool true) = some (pos 1)
as_int (bool false) = some (pos 0)
as_int _ = none

-- `isinstance(answer, list)`, with its items
abbrev pub items : Answers → List Answer
items nil = []
items (cons a rest) = a ∷ items rest

abbrev pub as_list : Answer → Option (List Answer)
as_list (list xs) = some (items xs)
as_list _ = none

unfoldable pub get_field : String → Fields → Option Answer
get_field key end = none
get_field key (field k a rest) = if k == key then some a else get_field key rest

-- `answer.get(key) if isinstance(answer, dict) else None`, tested with `isinstance(_, int)`
abbrev then_int : Option Answer → Option ℤ
then_int none = none
then_int (some a) = as_int a

unfoldable pub int_at : String → Answer → Option ℤ
unfolding get_field
int_at key (dict fields) = then_int (get_field key fields)
int_at key _ = none

-- `isinstance(answer, dict)`
abbrev pub is_dict : Answer → Bool
is_dict (dict fields) = true
is_dict _ = false

-- `answer.get(key)` of a dict, `None` where it has no such key
abbrev or_null : Option Answer → Answer
or_null none = null
or_null (some a) = a

unfoldable pub get : String → Answer → Answer
unfolding get_field
get key (dict fields) = or_null (get_field key fields)
get key _ = null

-- `answer[key]`: `KeyError` for a key that a dict lacks, `TypeError` where there is no dict
abbrev or_key_error : Option Answer → Result Answer
or_key_error none = err lookup_error
or_key_error (some a) = ok a

unfoldable pub at_key : String → Answer → Result Answer
unfolding get_field
at_key key (dict fields) = or_key_error (get_field key fields)
at_key key _ = err type_error

-- `bool(answer)`: a float is zero where it is written with no digit but 0
unfoldable pub truthy : Answer → Bool
truthy null = false
truthy (bool b) = b
truthy (int n) = not (n ==ℤ pos 0)
truthy (float t) = any (λ c. leb 49 c && leb c 57) t
truthy (str []) = false
truthy (str (c ∷ cs)) = true
truthy (list nil) = false
truthy (list (cons a rest)) = true
truthy (dict end) = false
truthy (dict (field k a rest)) = true

-- Whether an answer can stand in a `set`: a list and a dict are not hashable.
abbrev pub hashable : Answer → Bool
hashable (list xs) = false
hashable (dict fields) = false
hashable _ = true

abbrev both_ints : Option ℤ → Option ℤ → Bool
both_ints (some m) (some n) = m ==ℤ n
both_ints _ _ = false

-- `==` on two hashable answers: a `bool` equals its number; two floats are compared as written
unfoldable pub answer_eq : Answer → Answer → Bool
answer_eq null null = true
answer_eq (str s) (str t) = bytes_eq s t
answer_eq (float s) (float t) = bytes_eq s t
answer_eq a b = both_ints (as_int a) (as_int b)

-- `a in set`, and the set of some answers, which wants them hashable
abbrev pub is_in : Answer → List Answer → Bool
is_in a xs = any (answer_eq a) xs

unfoldable pub all_hashable : List Answer → Bool
all_hashable [] = true
all_hashable (a ∷ xs) = hashable a && all_hashable xs

abbrev pub as_set : List Answer → Result (List Answer)
as_set xs = if all_hashable xs then ok xs else err type_error
