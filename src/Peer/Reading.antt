-- ===== src/Peer/Reading.antt =====
-- src/bitcoin_node_tests/peer.py: `_recv_more`, `_take`, `_opens_with_v1_version` and `_take_garbage`,
-- which read a connection through the peer's buffer.
use bitcoin_node_tests.Base.{
  ℕ, zero, suc, ◌+◌, Bool, true, false, not, Option, some, none, [], ◌∷◌, ◌++◌, length, take, drop,
  ltb, leb, if◌then◌else◌,
}
use bitcoin_node_tests.Base.Exec.{
  ◌>>=◌, ◌>>◌, Exec, Result, err, ok, require, connection_error, raise, value_error, unfinished,
}
use bitcoin_node_tests.Base.Bytes.{Bytes, bytes_eq, codes}
use bitcoin_node_tests.Peer.{
  Socket, Session, on_world, of_peer, set_buffer, Message, max_garbage_len,
}
use bitcoin_node_tests.Base.Search.{find, starts_with}

-- What `_take`, `_opens_with_v1_version` for a prefix and `_take_garbage` look for: a value and how many
-- octets to take off, an error, or nothing yet.
abbrev pub take_look : ℕ → Bytes → Result (Option (Bytes × ℕ))
take_look size b = ok (if ltb (length b) size then none else some (take size b, size))

unfoldable pub opens_look : Bytes → Bytes → Result (Option (Bool × ℕ))
unfolding starts_with bytes_eq
opens_look prefix b =
    let head = take (length prefix) b in
    ok (
      if not (starts_with prefix head)
      then some (false, 0)
      else if bytes_eq head prefix
      then some (true, 0)
      else none)

abbrev garbage_at : Bytes → ℕ → Bytes → Option ℕ → Result (Option (Bytes × ℕ))
garbage_at terminator limit b (some end) = ok (some (take end b, end + length terminator))
garbage_at terminator limit b none = if leb limit (length b) then err value_error else ok none

unfoldable pub garbage_look : Bytes → Bytes → Result (Option (Bytes × ℕ))
unfolding find
garbage_look terminator b =
    let limit = max_garbage_len + length terminator in
    garbage_at terminator limit b (find terminator (take limit b))

-- `bool(chunk)`
abbrev pub not_empty : Bytes → Bool
not_empty [] = false
not_empty (x ∷ xs) = true

module _ {W C : Type 0} where
  -- What a look at the buffer has decided, with how many octets it takes off.
  abbrev pub decided :
      {A : Type 0} → Bytes → Result (Option (A × ℕ)) → Exec (Session W C) A → Exec (Session W C) A
  decided buffer (err e) go_on s = (err e, s)
  decided buffer (ok (some (a, n))) go_on s =
      (ok a, record s { peer = record s.peer { buffer = drop n buffer } })
  decided buffer (ok none) go_on s = go_on s

module _ {W C : Type 0} (sock : Socket W) where
  -- `_recv_more`
  unfoldable pub recv_more : Exec (Session W C) (Unit {0})
  recv_more = do
    chunk ← on_world sock.recv
    require (not_empty chunk) connection_error
    buffer ← of_peer (λ p. p.buffer)
    set_buffer (buffer ++ chunk)

  -- The loop that reading methods share: look at the buffer, and receive more while that decides nothing,
  -- at most so many times.
  unfoldable pub read_until :
      {A : Type 0} → (Bytes → Result (Option (A × ℕ))) → ℕ → Exec (Session W C) A
  unfolding recv_more
  read_until look zero s = decided s.peer.buffer (look s.peer.buffer) (raise unfinished) s
  read_until look (suc more) s =
      decided s.peer.buffer (look s.peer.buffer) (recv_more >> read_until look more) s

  -- `_take`
  unfoldable pub take_octets : ℕ → Exec (Session W C) Bytes
  unfolding read_until
  take_octets size = read_until (take_look size) size

  -- `_opens_with_v1_version`
  unfoldable pub opens_with_v1_version : (Bytes → Message → Bytes) → Exec (Session W C) Bool
  unfolding opens_look read_until
  opens_with_v1_version serialize = do
    magic ← of_peer (λ p. p.magic)
    let prefix =
        take (length magic + 12)
          (serialize magic (record { command = codes "version"; payload = [] }))
    read_until (opens_look prefix) (length prefix)

  -- `_take_garbage`
  unfoldable pub take_garbage : Bytes → Exec (Session W C) Bytes
  unfolding garbage_look read_until
  take_garbage terminator =
      read_until (garbage_look terminator) (max_garbage_len + length terminator)
