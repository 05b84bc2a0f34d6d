-- ===== src/Socks5.antt =====
-- src/bitcoin_node_tests/socks5.py: `_receive`, `_check_version` and `Socks5Proxy._negotiate`. A client
-- is the octets that it sends before it closes the connection.
pub mod Session
mod Examples
use bitcoin_node_tests.Base.{
  ℕ, zero, suc, ◌+◌, ◌-◌, ◌*◌, ◌≤◌, ◌<◌, ◌≡◌, ◌≢◌, refl, sym, ap, ◌∙◌, ◌↔◌, ◌⊎◌, inl, inr, Bool,
  true, false, not, ◌&&◌, ◌||◌, Option, none, some, List, [], ◌∷◌, ◌++◌, map, arith, All,
  Bool-cases, any, if◌then◌else◌, leb, ◌==◌, length, take, drop,
}
use bitcoin_node_tests.Base.Bytes.{Bytes}
use bitcoin_node_tests.Base.Exec.{
  ◌>>=◌, ◌>>◌, Exec, Result, ok, pure, require, err, value_error, connection_error, lift, raise,
}

-- `AddressType`, and the `ValueError` of a number that names none
pub data AddressType : Type 0 where
  ipv4 domainname ipv6 : AddressType

unfoldable pub address_type_of : ℕ → Result AddressType
address_type_of n =
    if n == 1
    then ok ipv4
    else if n == 3
    then ok domainname
    else if n == 4
    then ok ipv6
    else err value_error

-- `Socks5Request`
pub record Socks5Request : Type 0 where
  pub address_type : AddressType
  pub host : Bytes
  pub port : ℕ
  pub username : Option Bytes
  pub password : Option Bytes

-- A connection: the octets that the client still sends, before it closes, and those sent to it.
pub record Connection : Type 0 where
  pub incoming : Bytes
  pub sent : Bytes

-- `_receive`: that many octets, or `ConnectionError` where the client closes first. What it read
-- before is gone.
unfoldable pub receive : ℕ → Exec Connection Bytes
receive count c =
    if leb count (length c.incoming)
    then (ok (take count c.incoming), record c { incoming = drop count c.incoming })
    else (err connection_error, record c { incoming = [] })

-- `connection.sendall`
unfoldable pub sendall : Bytes → Exec Connection (Unit {0})
sendall octets c = (ok tt, record c { sent = c.sent ++ octets })

-- `_check_version`
unfoldable pub check_version : ℕ → ℕ → Exec Connection (Unit {0})
check_version received expected = require (received == expected) value_error

-- `_receive(connection, 1)[0]`
abbrev pub octet : Bytes → ℕ
octet [] = 0
octet (b ∷ bs) = b

unfoldable pub receive_octet : Exec Connection ℕ
unfolding receive
receive_octet = do b ← receive 1; pure (octet b)

-- `method in methods`
abbrev pub offers : ℕ → Bytes → Bool
offers method methods = any (λ m. m == method) methods

-- The method of `_negotiate`, if it accepts any.
unfoldable pub choose : Bool → Bytes → Option ℕ
choose authentication methods =
    if authentication && offers 2 methods then some 2 else if offers 0 methods then some 0 else none

abbrev pub settle_method : Option ℕ → Exec Connection ℕ
settle_method none = do sendall (5 ∷ 0xff ∷ []); raise value_error
settle_method (some method) = do sendall (5 ∷ method ∷ []); pure method

-- `_receive(connection, _receive(connection, 1)[0])`
unfoldable pub receive_counted : Exec Connection Bytes
unfolding receive
receive_counted = do count ← receive_octet; receive count

-- The username and the password, where the method asks for them.
unfoldable pub credentials : Bool → Exec Connection (Option Bytes × Option Bytes)
unfolding check_version receive_octet receive_counted sendall
credentials false = pure (none, none)
credentials true = do
  auth_version ← receive_octet
  check_version auth_version 1
  username ← receive_counted
  password ← receive_counted
  sendall (1 ∷ 0 ∷ [])
  pure (some username, some password)

-- The octets of a host: four, sixteen, or as many as the octet before them says.
unfoldable pub receive_host : AddressType → Exec Connection Bytes
unfolding receive receive_counted
receive_host ipv4 = receive 4
receive_host ipv6 = receive 16
receive_host domainname = receive_counted

-- `int.from_bytes(octets, "big")`
unfoldable pub from_big : ℕ → Bytes → ℕ
from_big n [] = n
from_big n (b ∷ bs) = from_big (n * 256 + b) bs

-- `_SUCCESS_REPLY`
abbrev pub success_reply : Bytes
success_reply = 5 ∷ 0 ∷ 0 ∷ 1 ∷ 0 ∷ 0 ∷ 0 ∷ 0 ∷ 0 ∷ 0 ∷ []

-- The `CONNECT`, from its version octet on.
unfoldable pub receive_request : Option Bytes × Option Bytes → Exec Connection Socks5Request
unfolding check_version receive_octet address_type_of receive_host receive from_big sendall
receive_request (username, password) = do
  version ← receive_octet
  command ← receive_octet
  _reserved ← receive_octet
  address_type ← receive_octet
  check_version version 5
  require (command == 1) value_error
  kind ← lift (address_type_of address_type)
  host ← receive_host kind
  port ← receive 2
  sendall success_reply
  pure (record {
    address_type = kind;
    host = host;
    port = from_big 0 port;
    username = username;
    password = password;
  })

-- `Socks5Proxy._negotiate`
unfoldable pub negotiate : Bool → Exec Connection Socks5Request
unfolding receive_octet check_version receive choose credentials receive_request
negotiate authentication = do
  version ← receive_octet
  method_count ← receive_octet
  check_version version 5
  methods ← receive method_count
  method ← settle_method (choose authentication methods)
  keys ← credentials (method == 2)
  receive_request keys
