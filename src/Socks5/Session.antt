-- ===== src/Socks5/Session.antt =====
-- A client that keeps to RFC 1928 and RFC 1929, as the octets that it sends, and what the proxy makes
-- of them.
use bitcoin_node_tests.Base.{
  ℕ, ◌≡◌, refl, ap, Bool, true, false, Option, none, some, [], ◌∷◌, ◌++◌, arith, ◌⊎◌, inl, inr,
  ◌&&◌, Bool-cases, drop, leb, length, take, ◌/◌, length-append, ◌%◌, ◌==◌,
}
use bitcoin_node_tests.Base.Bytes.{Bytes}
use bitcoin_node_tests.Socks5.{
  AddressType, address_type_of, from_big, receive, receive_counted, receive_host, receive_octet,
  Connection, ipv4, domainname, ipv6, Socks5Request, credentials, negotiate, receive_request,
  sendall, check_version, choose, success_reply, offers,
}
use bitcoin_node_tests.Base.Exec.{ok, err, value_error}
use native.Mathlib.Nat.{div-add-mod'}
use mathlib.Core.List.{append_assoc, append-nil, Memᴰ}

offered : (method : ℕ) (methods : Bytes) → offers method methods ≡ true → Memᴰ method methods
offered method [] h = cc h
offered method (m ∷ methods) h = elim (Bool-cases (m == method)) [
  | inl e ↦ Memᴰ.head (ground (arith, e))
  | inr e ↦ Memᴰ.tail (offered method methods (ground (arith, e, h)))
]

-- the octets of a count and what it counts
abbrev pub counted : Bytes → Bytes
counted octets = length octets ∷ octets

-- What a client asks, once a method is agreed.
abbrev pub code : AddressType → ℕ
code ipv4 = 1
code domainname = 3
code ipv6 = 4

abbrev pub encode_host : AddressType → Bytes → Bytes
encode_host ipv4 host = host
encode_host ipv6 host = host
encode_host domainname host = counted host

-- the hosts of a fixed length
abbrev pub IsHost : AddressType → Bytes → Type 0
IsHost ipv4 host = length host ≡ 4
IsHost ipv6 host = length host ≡ 16
IsHost domainname host = Unit

abbrev pub encode_port : ℕ → Bytes
encode_port port = port / 256 ∷ port % 256 ∷ []

abbrev pub at : Bytes → Bytes → Connection
at incoming sent = record { incoming = incoming; sent = sent }

leb_refl-append : (xs rest : Bytes) → leb (length xs) (length (xs ++ rest)) ≡ true
leb_refl-append xs rest = ground (arith, length-append xs rest)

take-append : (xs rest : Bytes) → take (length xs) (xs ++ rest) ≡ xs
take-append [] rest = refl
take-append (x ∷ xs) rest = ap (λ t. x ∷ t) (take-append xs rest)

drop-append : (xs rest : Bytes) → drop (length xs) (xs ++ rest) ≡ rest
drop-append [] rest = refl
drop-append (x ∷ xs) rest = drop-append xs rest

receive-append :
    (xs rest sent : Bytes) → receive (length xs) (at (xs ++ rest) sent) ≡ (ok xs, at rest sent)
unfolding receive
receive-append xs rest sent =
    rw (leb_refl-append xs rest, take-append xs rest, drop-append xs rest) refl

receive_octet-cons :
    (b : ℕ) (rest sent : Bytes) → receive_octet (at (b ∷ rest) sent) ≡ (ok b, at rest sent)
unfolding receive_octet
receive_octet-cons b rest sent = rw (receive-append (b ∷ []) rest sent) refl

receive_counted-append :
    (xs rest sent : Bytes)
    → receive_counted (at (length xs ∷ (xs ++ rest)) sent) ≡ (ok xs, at rest sent)
unfolding receive_counted
receive_counted-append xs rest sent =
    rw (receive_octet-cons (length xs) (xs ++ rest) sent, receive-append xs rest sent) refl

receive_host-append :
    (kind : AddressType) (host rest sent : Bytes)
    → IsHost kind host
    → receive_host kind (at (encode_host kind host ++ rest) sent) ≡ (ok host, at rest sent)
unfolding receive_host
receive_host-append ipv4 host rest sent h = rw h at (receive-append host rest sent)
receive_host-append ipv6 host rest sent h = rw h at (receive-append host rest sent)
receive_host-append domainname host rest sent h = receive_counted-append host rest sent

address_type_of-code : (kind : AddressType) → address_type_of (code kind) ≡ ok kind
unfolding address_type_of
address_type_of-code ipv4 = refl
address_type_of-code ipv6 = refl
address_type_of-code domainname = refl

from_big-encode_port : (port : ℕ) → from_big 0 (encode_port port) ≡ port
unfolding from_big
from_big-encode_port port = omega (arith, div-add-mod' port 256)

-- the octets of a `CONNECT`
abbrev pub encode_request : AddressType → Bytes → ℕ → Bytes
encode_request kind host port = 5 ∷ 1 ∷ 0 ∷ code kind ∷ (encode_host kind host ++ encode_port port)

-- the octets of a username and a password, where they are asked for, and the answer to them
abbrev pub encode_keys : Bool → Bytes → Bytes → Bytes
encode_keys false user word = []
encode_keys true user word = 1 ∷ (counted user ++ counted word)

abbrev pub keys_reply : Bool → Bytes
keys_reply false = []
keys_reply true = 1 ∷ 0 ∷ []

abbrev pub keys_of : Bool → Bytes → Bytes → Option Bytes × Option Bytes
keys_of false user word = (none, none)
keys_of true user word = (some user, some word)

abbrev pub request_of : AddressType → Bytes → ℕ → Option Bytes × Option Bytes → Socks5Request
request_of kind host port (user, word) = record {
  address_type = kind;
  host = host;
  port = port;
  username = user;
  password = word;
}

credentials-encode :
    (asked : Bool) (user word rest sent : Bytes)
    → credentials asked (at (encode_keys asked user word ++ rest) sent)
      ≡ (ok (keys_of asked user word), at rest (sent ++ keys_reply asked))
unfolding credentials sendall check_version
credentials-encode false user word rest sent = rw (append-nil sent) refl
credentials-encode true user word rest sent =
    rw
      (
        append_assoc user (counted word) rest,
        receive_octet-cons 1 (length user ∷ (user ++ (counted word ++ rest))) sent,
        receive_counted-append user (counted word ++ rest) sent,
        receive_counted-append word rest sent,
      )
      refl

receive_request-encode :
    (kind : AddressType) (host : Bytes) (port : ℕ) (keys : Option Bytes × Option Bytes)
    (rest sent : Bytes)
    → IsHost kind host
    → receive_request keys (at (encode_request kind host port ++ rest) sent)
      ≡ (ok (request_of kind host port keys), at rest (sent ++ success_reply))
unfolding receive_request sendall check_version
receive_request-encode kind host port keys rest sent h =
    rw
      (
        append_assoc (encode_host kind host) (encode_port port) rest,
        receive_octet-cons 5
            (1 ∷ 0 ∷ code kind ∷ (encode_host kind host ++ (encode_port port ++ rest))) sent,
        receive_octet-cons 1 (0 ∷ code kind ∷ (encode_host kind host ++ (encode_port port ++ rest)))
            sent,
        receive_octet-cons 0 (code kind ∷ (encode_host kind host ++ (encode_port port ++ rest)))
            sent,
        receive_octet-cons (code kind) (encode_host kind host ++ (encode_port port ++ rest)) sent,
        address_type_of-code kind,
        receive_host-append kind host (encode_port port ++ rest) sent h,
        receive-append (encode_port port) rest sent,
        from_big-encode_port port,
      )
      refl

-- the octets of a client's greeting
abbrev pub encode_greeting : Bytes → Bytes
encode_greeting methods = 5 ∷ counted methods

-- The proxy reads back what a client of RFC 1928 asks: a greeting with its methods, the username
-- and the password where the method chosen asks for them, and a CONNECT with a host of any of the
-- three types and a port give exactly that request; the proxy has answered each step, and the
-- octets behind the request are unread. The method is the one chosen from those offered, and a host
-- of a fixed length has that length.
pub negotiate-encode :
    (authentication : Bool) (methods : Bytes) (method : ℕ) (kind : AddressType) (host : Bytes)
    (port : ℕ) (user word rest sent : Bytes)
    → choose authentication methods ≡ some method
    → IsHost kind host
    → negotiate authentication (
        at
          (encode_greeting methods
            ++ (encode_keys (method == 2) user word ++ (encode_request kind host port ++ rest)))
          sent)
      ≡ (
        ok (request_of kind host port (keys_of (method == 2) user word)),
        at rest (sent ++ 5 ∷ method ∷ [] ++ keys_reply (method == 2) ++ success_reply),
      )
unfolding negotiate sendall check_version
negotiate-encode authentication methods method kind host port user word rest sent chosen h =
    let request = encode_request kind host port ++ rest in
    let keys = encode_keys (method == 2) user word ++ request in
    rw
      (
        receive_octet-cons 5 (length methods ∷ (methods ++ keys)) sent,
        receive_octet-cons (length methods) (methods ++ keys) sent,
        receive-append methods keys sent,
        chosen,
        credentials-encode (method == 2) user word request (sent ++ 5 ∷ method ∷ []),
        receive_request-encode kind host port (keys_of (method == 2) user word) rest
            (sent ++ 5 ∷ method ∷ [] ++ keys_reply (method == 2)) h,
      )
      refl

-- Whether a method is one that the proxy accepts: none at all (0), or a username and a password (2)
-- where it asks for these.
abbrev pub Accepts : Bool → ℕ → Type 0
Accepts authentication method = (method ≡ 0) ⊎ ((authentication ≡ true) × (method ≡ 2))

any_accepted :
    (authentication : Bool) (methods : Bytes)
    → (choose authentication methods ≡ none)
      ⊎ ((method : ℕ) × Memᴰ method methods × Accepts authentication method)
unfolding choose
any_accepted authentication methods = elim (Bool-cases (authentication && offers 2 methods)) [
  | inl e ↦ inr (2, offered 2 methods (ground (arith, e)), inr (ground (arith, e), refl))
  | inr e ↦ elim (Bool-cases (offers 0 methods)) [
    | inl z ↦ inr (0, offered 0 methods z, inl refl)
    | inr z ↦ inl (rw (e, z) refl)
  ]
]

-- A client whose methods hold none that the proxy accepts, which are method 0, and method 2 where
-- the proxy asks for a username and a password, is answered with 0xFF and refused with ValueError,
-- and nothing past its greeting is read.
pub negotiate_refused :
    (authentication : Bool) (methods rest sent : Bytes)
    → ((method : ℕ) → Memᴰ method methods → ¬ Accepts authentication method)
    → negotiate authentication (at (encode_greeting methods ++ rest) sent)
      ≡ (err value_error, at rest (sent ++ 5 ∷ 0xff ∷ []))
unfolding negotiate sendall check_version
negotiate_refused authentication methods rest sent refused =
    elim (any_accepted authentication methods) [
      | inr (method, m, a) ↦ absurd (refused method m a)
      | inl chosen ↦
          rw
            (
              receive_octet-cons 5 (length methods ∷ (methods ++ rest)) sent,
              receive_octet-cons (length methods) (methods ++ rest) sent,
              receive-append methods rest sent,
              chosen,
            )
            refl
    ]
