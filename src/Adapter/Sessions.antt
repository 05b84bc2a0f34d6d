-- ===== src/Adapter/Sessions.antt =====
-- src/bitcoin_node_tests/node.py: `_ThreadSessions`, one session of the RPC transport for each thread. A
-- thread is a number, and so is a session; whether a session holds a connection after a request is up to
-- the session.
pub mod Owned
use bitcoin_node_tests.Base.{
  ℕ, zero, suc, ◌+◌, ◌-◌, ◌*◌, ◌≤◌, ◌<◌, ◌≡◌, ◌≢◌, refl, sym, ap, ◌∙◌, ◌↔◌, ◌⊎◌, inl, inr, Bool,
  true, false, not, ◌&&◌, ◌||◌, Option, none, some, List, [], ◌∷◌, ◌++◌, map, arith, All,
  Bool-cases,
}
use bitcoin_node_tests.Base.{◌==◌, if◌then◌else◌, any}

pub record ThreadSessions : Type 0 where
  -- `_local.session` of each running thread that has called
  pub local : List (ℕ × ℕ)
  -- `_sessions`
  pub sessions : List ℕ
  -- the session that `_factory` builds next
  pub next : ℕ
  -- whether a session holds an open connection
  pub connected : ℕ → Bool

-- `getattr(self._local, "session", None)`
unfoldable pub session_of : ℕ → List (ℕ × ℕ) → Option ℕ
session_of thread [] = none
session_of thread ((t, s) ∷ local) = if t == thread then some s else session_of thread local

abbrev pub mark : ℕ → Bool → (ℕ → Bool) → ℕ → Bool
mark session held connected s = if s == session then held else connected s

-- `__call__`, by a thread; `held` says whether the session keeps its connection
abbrev pub called : Option ℕ → ℕ → Bool → ThreadSessions → ThreadSessions
called (some session) thread held w = record w { connected = mark session held w.connected }
called none thread held w = record w {
  local = w.local ++ (thread, w.next) ∷ [];
  sessions = w.sessions ++ w.next ∷ [];
  next = suc w.next;
  connected = mark w.next held w.connected;
}

unfoldable pub call_from : ℕ → Bool → ThreadSessions → ThreadSessions
unfolding session_of
call_from thread held w = called (session_of thread w.local) thread held w

-- `self._sessions.remove(session)`
unfoldable pub remove : ℕ → List ℕ → List ℕ
remove session [] = []
remove session (s ∷ sessions) = if s == session then sessions else s ∷ remove session sessions

-- what a thread held is gone with it
unfoldable pub without_thread : ℕ → List (ℕ × ℕ) → List (ℕ × ℕ)
without_thread thread [] = []
without_thread thread ((t, s) ∷ local) =
    if t == thread then local else (t, s) ∷ without_thread thread local

-- `_retire`, as a thread ends: nothing where it never called
unfoldable pub retired : Option ℕ → ℕ → ThreadSessions → ThreadSessions
unfolding without_thread remove
retired none thread w = w
retired (some session) thread w = record w {
  local = without_thread thread w.local;
  sessions = remove session w.sessions;
  connected = mark session false w.connected;
}

unfoldable pub end_thread : ℕ → ThreadSessions → ThreadSessions
unfolding session_of retired without_thread remove
end_thread thread w = retired (session_of thread w.local) thread w

-- `close`
unfoldable pub close_sessions : ThreadSessions → ThreadSessions
close_sessions w = record w { connected = λ s. w.connected s && not (any (λ x. x == s) w.sessions) }

-- `__init__`
abbrev pub no_sessions : ThreadSessions
no_sessions = record { local = []; sessions = []; next = 0; connected = λ s. false }

-- What happens to the sessions of an adapter, one after the other.
pub data Step : ThreadSessions → ThreadSessions → Type 0 where
  calls : (thread : ℕ) (held : Bool) (w : ThreadSessions) → Step w (call_from thread held w)
  ends : (thread : ℕ) (w : ThreadSessions) → Step w (end_thread thread w)
  closes : (w : ThreadSessions) → Step w (close_sessions w)

pub data Reached : ThreadSessions → Type 0 where
  begun : Reached no_sessions
  stepped : {w v : ThreadSessions} → Reached w → Step w v → Reached v
