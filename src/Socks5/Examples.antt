-- ===== src/Socks5/Examples.antt =====
-- The theorems on the SOCKS5 negotiation, at concrete inputs.
use bitcoin_node_tests.Base.{◌≡◌, refl, true, false, some, [], ◌∷◌, ℕ, inl, arith, inr}
use bitcoin_node_tests.Socks5.{choose, negotiate, domainname, success_reply}
use bitcoin_node_tests.Socks5.Session.{at, negotiate_refused, negotiate-encode, Accepts}
use bitcoin_node_tests.Base.Exec.{err, ok, value_error}
use mathlib.Core.List.{Memᴰ}

-- A client that offers both methods and asks for port 8333 of a host of one letter.
negotiate-encode_example :
    negotiate true
      (at (5 ∷ 2 ∷ 0 ∷ 2 ∷ 1 ∷ 1 ∷ 117 ∷ 1 ∷ 112 ∷ 5 ∷ 1 ∷ 0 ∷ 3 ∷ 1 ∷ 97 ∷ 32 ∷ 141 ∷ 99 ∷ []) [])
    ≡ (
      ok (record {
        address_type = domainname;
        host = 97 ∷ [];
        port = 8333;
        username = some (117 ∷ []);
        password = some (112 ∷ []);
      }),
      at (99 ∷ []) (5 ∷ 2 ∷ 1 ∷ 0 ∷ success_reply),
    )
unfolding choose
negotiate-encode_example =
    negotiate-encode true (0 ∷ 2 ∷ []) 2 domainname (97 ∷ []) 8333 (117 ∷ []) (112 ∷ []) (99 ∷ [])
      [] refl tt

two_refused : (method : ℕ) → Memᴰ method (2 ∷ []) → ¬ Accepts false method
two_refused method (Memᴰ.head e) (inl z) = omega (arith, e, z)
two_refused method (Memᴰ.head e) (inr (f, t)) = cc f
two_refused method (Memᴰ.tail m) a = elim m [ ]

negotiate_refused_example :
    negotiate false (at (5 ∷ 1 ∷ 2 ∷ []) []) ≡ (err value_error, at [] (5 ∷ 0xff ∷ []))
negotiate_refused_example = negotiate_refused false (2 ∷ []) [] [] two_refused
