-- ===== src/Adapter/PortExamples.antt =====
-- The theorems on ports and on waits at concrete inputs.
use bitcoin_node_tests.Base.{
  ℕ, ◌+◌, ◌≡◌, refl, Bool, Option, some, [], ◌∷◌, arith, ◌%◌, not, ◌==◌, ◌<◌, ◌/◌, if◌then◌else◌,
  leb, ◌&&◌, ◌-◌, ◌*◌, false, true, List, All, ◌⊎◌,
}
use bitcoin_node_tests.Base.Bytes.{Text, bytes_eq, codes}
use bitcoin_node_tests.Base.Exec.{ok, err, value_error, Result}
use bitcoin_node_tests.Adapter.Ports.{
  Numerals, PortCursor, Ports, without_gw, take_ports, worker_block, all_ports,
}
use bitcoin_node_tests.Adapter.Ports.Draw.{IsDraw, InBlock, take_ports-IsDraw}
use bitcoin_node_tests.Adapter.Ports.Blocks.{IsWorker, worker_block-disjoint}
use bitcoin_node_tests.Adapter.Polling.{
  Clock, IsEnd, PollLaws, wait_until, wait_until-IsEnd, asks, poll_until, poll_until-finds,
}
use bitcoin_node_tests.Adapter.Sessions.{
  Reached, ThreadSessions, call_from, close_sessions, end_thread, stepped, begun, calls,
  no_sessions, ends,
}
use bitcoin_node_tests.Adapter.Sessions.Owned.{Owned, Reached-Owned}
use bitcoin_node_tests.Adapter.Btcd.{check_short_aliases, Reuses, check_short_aliases_lem}
use mathlib.Core.List.{Memᴰ}

-- Every second port is free.
even_free : ℕ → Unit {0} → Bool × Unit {0}
even_free p w = (p % 2 == 0, w)

abbrev cursor : PortCursor
cursor = record { block = record { first = 26000; size = 5 }; next = 3 }

take_ports-IsDraw_example :
    IsDraw even_free cursor.block 2 (take_ports even_free 2 cursor tt).0
    × ((take_ports even_free 2 cursor tt).1.block ≡ cursor.block)
    × ((take_ports even_free 2 cursor tt).1.next < 5)
take_ports-IsDraw_example = take_ports-IsDraw even_free 2 cursor tt (omega arith)

-- `gw0` and `gw1` of two workers; numerals of one digit are read
abbrev digit_of : Text → Result ℕ
digit_of (c ∷ []) = if leb 48 c && leb c 57 then ok (c - 48) else err value_error
digit_of _ = err value_error

abbrev py : Numerals
py = record { is_decimal = λ t. not (bytes_eq t []); int = digit_of }

abbrev gw : ℕ → Option Text
gw n = some (103 ∷ 119 ∷ n ∷ [])

numbered_0 : IsWorker py (gw 48) (some (50 ∷ [])) 1 0
unfolding without_gw bytes_eq
numbered_0 = record { decimal = refl; number = refl; total = refl }

numbered_1 : IsWorker py (gw 49) (some (50 ∷ [])) 1 1
unfolding without_gw bytes_eq
numbered_1 = record { decimal = refl; number = refl; total = refl }

worker_block-disjoint_example :
    (b : Ports) × (b' : Ports) × (worker_block py (gw 48) (some (50 ∷ [])) ≡ ok b)
    × (worker_block py (gw 49) (some (50 ∷ [])) ≡ ok b')
    × ((p : ℕ) → InBlock b p → InBlock all_ports p × ¬ InBlock b' p)
    × (b.size ≡ 6768 / 2)
    × (b'.size ≡ 6768 / 2)
worker_block-disjoint_example =
    worker_block-disjoint py (gw 48) (gw 49) (some (50 ∷ [])) 1 0 1 numbered_0 numbered_1
      (omega arith) (omega arith)

-- A clock whose state is its time, and a condition that holds from 250 on.
abbrev plain_clock : Clock ℕ
plain_clock = record { monotonic = λ w. w; sleep = λ n w. w + n; factor = 1 }

late_enough : ℕ → Result Bool × ℕ
late_enough w = (ok (leb 250 w), w)

poll_laws : PollLaws plain_clock (asks plain_clock late_enough)
unfolding late_enough
poll_laws = record { asked = λ w. grind arith; slept = λ n w. omega arith }

wait_until-IsEnd_example :
    IsEnd plain_clock late_enough (7 + 1000 * 1) (wait_until plain_clock late_enough 1000 7)
wait_until-IsEnd_example = wait_until-IsEnd plain_clock late_enough poll_laws 1000 7

poll_until-finds_example :
    poll_until plain_clock (asks plain_clock late_enough) 1007 7 ≡ (ok tt, 307)
unfolding late_enough
poll_until-finds_example =
    poll_until-finds plain_clock (asks plain_clock late_enough) poll_laws 3 1007 7 307 307 tt
      (omega arith, refl, (omega arith, refl, (omega arith, refl, refl))) (omega arith) refl

-- Two threads call, and the first ends.
abbrev one_left : ThreadSessions
one_left = end_thread 1 (call_from 2 true (call_from 1 true no_sessions))

one_left-Reached : Reached one_left
one_left-Reached =
    stepped
      (stepped (stepped begun (calls 1 true no_sessions))
        (calls 2 true (call_from 1 true no_sessions)))
      (ends 1 (call_from 2 true (call_from 1 true no_sessions)))

Reached-Owned_example : Owned one_left × ((s : ℕ) → (close_sessions one_left).connected s ≡ false)
Reached-Owned_example = Reached-Owned one_left one_left-Reached

second_listed : one_left.sessions ≡ 1 ∷ []
unfolding call_from end_thread
second_listed = refl

-- The entry sets the version, and the user that the command sets.
abbrev btcd_command : List Text
btcd_command = codes "btcd" ∷ codes "--rpcuser=x" ∷ codes "--regtest" ∷ []

abbrev short_entries : List Text
short_entries = codes "--rpcpass=y" ∷ codes "-Vufoo" ∷ []

check_short_aliases_example :
    ((check_short_aliases btcd_command short_entries ≡ ok tt)
      × All (λ arg. ¬ Reuses btcd_command arg) short_entries)
    ⊎ ((check_short_aliases btcd_command short_entries ≡ err value_error)
        × (arg : Text) × Memᴰ arg short_entries
        × Reuses btcd_command arg)
check_short_aliases_example = check_short_aliases_lem btcd_command short_entries

alias_refused : check_short_aliases btcd_command short_entries ≡ err value_error
unfolding check_short_aliases
alias_refused = refl
