-- ===== src/Peer/Quiet.antt =====
-- `receive` of src/bitcoin_node_tests/peer.py over the v1 transport sends nothing.
use bitcoin_node_tests.Base.{
  ℕ, zero, suc, ◌≡◌, refl, sym, ◌∙◌, Bool, true, false, Option, none, some, List, [], ◌∷◌, ◌++◌,
}
use bitcoin_node_tests.Base.Exec.{
  ◌>>◌, ◌>>=◌, Error, Exec, ok, Result, require, and_then, raise, connection_error, err, unfinished,
}
use bitcoin_node_tests.Base.Bytes.{Bytes}
use bitcoin_node_tests.Peer.{P2p, Socket, Session, on_world}
use bitcoin_node_tests.Peer.Packets.{receive_by, receive_message, receive_now, receive_v1, v1_look}
use bitcoin_node_tests.Peer.Reading.{read_until, recv_more, decided, not_empty}
use mathlib.Core.Path.{subst}

-- `sent` is what went out, in order: a `sendall` that returned adds its octets, and nothing else does.
pub record SendLaws {W : Type 0} (sock : Socket W) (sent : W → List Bytes) : Type 0 where
  pub added : (b : Bytes) (w w' : W) → sock.sendall b w ≡ (ok tt, w') → sent w' ≡ sent w ++ b ∷ []
  pub received : (w : W) → sent (sock.recv w).1 ≡ sent w
  pub waited : (n : ℕ) (w : W) → sent (sock.settimeout n w) ≡ sent w
  pub drawn : (n : ℕ) (w : W) → sent (sock.randbelow n w).1 ≡ sent w

module _ {W C : Type 0} (sent : W → List Bytes) where
  -- A v1 connection stays one, with its magic and its side, and what went out is the same.
  abbrev pub Quiet : Session W C → Session W C → Type 0
  Quiet s t =
      (t.peer.cipher ≡ none)
      × (t.peer.magic ≡ s.peer.magic)
      × (t.peer.dialled ≡ s.peer.dialled)
      × (sent t.world ≡ sent s.world)

  abbrev pub IsQuiet : {A : Type 0} → Exec (Session W C) A → Type 0
  IsQuiet m = (s : Session W C) → s.peer.cipher ≡ none → Quiet s (m s).1

  pub Quiet-trans : (s t u : Session W C) → Quiet s t → Quiet t u → Quiet s u
  Quiet-trans s t u (a, b, c, d) (a', b', c', d') = (a', b' ∙ b, c' ∙ c, d' ∙ d)

  and_then-Quiet :
      {A B : Type 0} (s : Session W C) (r : Result A × Session W C) (f : A → Exec (Session W C) B)
      → Quiet s r.1
      → ((a : A) → IsQuiet (f a))
      → Quiet s (and_then r f).1
  and_then-Quiet s (ok a, t) f h k = Quiet-trans s t (f a t).1 h (k a t h.0)
  and_then-Quiet s (err e, t) f h k = h

  pub >>=-IsQuiet :
      {A B : Type 0} (m : Exec (Session W C) A) (f : A → Exec (Session W C) B)
      → IsQuiet m
      → ((a : A) → IsQuiet (f a))
      → IsQuiet (m >>= f)
  >>=-IsQuiet m f h k s v1 = and_then-Quiet s (m s) f (h s v1) k

  silent : (s : Session W C) → s.peer.cipher ≡ none → Quiet s s
  silent s v1 = (v1, refl, refl, refl)

  require-IsQuiet : (b : Bool) (e : Error) → IsQuiet (require b e)
  require-IsQuiet true e = silent
  require-IsQuiet false e = silent

  decided-Quiet :
      {A : Type 0} (s : Session W C) (b : Bytes) (r : Result (Option (A × ℕ)))
      (go_on : Exec (Session W C) A)
      → s.peer.cipher ≡ none
      → Quiet s (go_on s).1
      → Quiet s (decided b r go_on s).1
  decided-Quiet s b (err e) go_on v1 h = silent s v1
  decided-Quiet s b (ok none) go_on v1 h = h
  decided-Quiet s b (ok (some (a, n))) go_on v1 h = (v1, refl, refl, refl)

module _ {W C : Type 0} (lib : P2p C) (sock : Socket W) (reads : ℕ) (sent : W → List Bytes)
    (laws : SendLaws sock sent) where
  recv_more-IsQuiet : IsQuiet {C = C} sent (recv_more sock)
  unfolding recv_more
  recv_more-IsQuiet =
      >>=-IsQuiet sent (on_world sock.recv) _ (λ s v1. (v1, refl, refl, laws.received s.world))
        (λ chunk.
          >>=-IsQuiet sent (require (not_empty chunk) connection_error) _
            (require-IsQuiet sent (not_empty chunk) connection_error)
            (λ u s v1. (v1, refl, refl, refl)))

  read_until-IsQuiet :
      {A : Type 0} (look : Bytes → Result (Option (A × ℕ))) (rounds : ℕ)
      → IsQuiet {C = C} sent (read_until sock look rounds)
  unfolding read_until
  read_until-IsQuiet look zero s v1 =
      decided-Quiet sent s s.peer.buffer (look s.peer.buffer) (raise unfinished) v1
        (silent sent s v1)
  read_until-IsQuiet look (suc more) s v1 =
      decided-Quiet sent s s.peer.buffer (look s.peer.buffer)
        (recv_more sock >> read_until sock look more) v1
        (>>=-IsQuiet sent (recv_more sock) (λ u. read_until sock look more) recv_more-IsQuiet
          (λ u. read_until-IsQuiet look more) s v1)

  receive_by-Quiet :
      (s : Session W C)
      → s.peer.cipher ≡ none
      → Quiet sent s (receive_by lib sock reads s.peer.cipher s).1
  unfolding receive_by receive_v1
  receive_by-Quiet s v1 =
      subst (λ o. Quiet sent s (receive_by lib sock reads o s).1) (sym v1)
        (read_until-IsQuiet (v1_look s.peer.magic lib.parse) reads s v1)

  receive_now-IsQuiet : IsQuiet sent (receive_now lib sock reads)
  unfolding receive_now
  receive_now-IsQuiet s v1 =
      and_then-Quiet sent s (receive_by lib sock reads s.peer.cipher s) _ (receive_by-Quiet s v1)
        (λ m t w1. (w1, refl, refl, refl))

  pub receive_message-Quiet :
      (n : ℕ) (s : Session W C)
      → s.peer.cipher ≡ none
      → Quiet sent s (receive_message lib sock reads (some n) s).1
  unfolding receive_message
  receive_message-Quiet n s v1 =
      let started : Session W C = record s { world = sock.settimeout n s.world } in
      let r = receive_now lib sock reads started in
      let (a, b, c, d) = receive_now-IsQuiet started v1 in
      (a, b, c, laws.waited r.1.peer.timeout r.1.world ∙ d ∙ laws.waited n s.world)
