-- ===== src/Peer/Waits.antt =====
-- `wait_for` of src/bitcoin_node_tests/peer.py as turns of its loop.
use bitcoin_node_tests.Base.{
  ℕ, zero, suc, ◌+◌, ◌-◌, ◌≤◌, ◌<◌, ◌≡◌, refl, inl, inr, Bool, true, false, Option, some, arith,
  Bool-cases, ltb, ◌≢◌, ◌⊎◌, none, sym,
}
use bitcoin_node_tests.Base.Exec.{
  Result, Error, Exec, ok, timeout_error, err, outcome_cases, Result-cases, unfinished,
}
use bitcoin_node_tests.Peer.{P2p, Socket, Message, Session, pong}
use bitcoin_node_tests.Base.Bytes.{Text, bytes_eq, bytes_eq_refl, bytes_eq→eq, codes}
use bitcoin_node_tests.Peer.Exchange.{
  is_wanted, wait_rounds_for, answer_ping, turn, wait_for, wait_time, passes,
}
use bitcoin_node_tests.Peer.Packets.{receive_message, send_payload}
use bitcoin_node_tests.Base.Raise.{ok-injective}
use mathlib.Core.Path.{subst}

module _ {W C : Type 0} (lib : P2p C) (sock : Socket W) where
  -- A message was answered: a `ping` by a `pong` with its nonce, another one by nothing.
  abbrev pub IsAnswered : Message → Session W C → Session W C → Type 0
  IsAnswered m s t =
      ((m.command ≢ codes "ping") × (s ≡ t))
      ⊎ ((nonce : ℕ) × (m.command ≡ codes "ping")
          × (lib.ping_nonce m.payload ≡ ok nonce)
          × (send_payload lib sock (pong nonce) true false s ≡ (ok tt, t)))

  -- The answer to a `ping` raised: its nonce could not be read, or the `pong` not be sent.
  abbrev pub IsUnanswered : Message → Error → Session W C → Session W C → Type 0
  IsUnanswered m e s t =
      (m.command ≡ codes "ping")
      × (((lib.ping_nonce m.payload ≡ err e) × (s ≡ t))
          ⊎ ((nonce : ℕ) × (lib.ping_nonce m.payload ≡ ok nonce)
              × (send_payload lib sock (pong nonce) true false s ≡ (err e, t))))

  AnswerEnd : Message → Session W C → Result (Unit {0}) × Session W C → Type 0
  AnswerEnd m s (ok u, t) = IsAnswered m s t
  AnswerEnd m s (err e, t) = IsUnanswered m e s t

  unit_of : (u : Unit {0}) → u ≡ tt
  unit_of u = refl

  pong-AnswerEnd :
      (m : Message) (s : Session W C) (nonce : ℕ) (r : Result (Unit {0}) × Session W C)
      → m.command ≡ codes "ping"
      → lib.ping_nonce m.payload ≡ ok nonce
      → send_payload lib sock (pong nonce) true false s ≡ r
      → AnswerEnd m s r
  unfolding AnswerEnd
  pong-AnswerEnd m s nonce (ok u, t) e q h = inr (nonce, e, q, h)
  pong-AnswerEnd m s nonce (err x, t) e q h = (e, inr (nonce, q, h))

  answer_ping-AnswerEnd : (m : Message) (s : Session W C) → AnswerEnd m s (answer_ping lib sock m s)
  unfolding answer_ping AnswerEnd
  answer_ping-AnswerEnd m s = elim (Bool-cases (bytes_eq m.command (codes "ping"))) [
    | inr e ↦ rw e (inl ((λ k. cc (rw k at e, bytes_eq_refl (codes "ping"))), refl))
    | inl e ↦
        let is_ping = bytes_eq→eq m.command (codes "ping") e in
        elim (Result-cases (lib.ping_nonce m.payload)) [
          | inr (x, q) ↦ rw (e, q) (is_ping, inl (q, refl))
          | inl (nonce, q) ↦ rw (e, q) (pong-AnswerEnd m s nonce _ is_ping q refl)
        ]
  ]

  answer_ping-IsAnswered :
      (m : Message) (s t : Session W C) → answer_ping lib sock m s ≡ (ok tt, t) → IsAnswered m s t
  unfolding AnswerEnd
  answer_ping-IsAnswered m s t h = subst (AnswerEnd m s) h (answer_ping-AnswerEnd m s)

  answer_ping-IsUnanswered :
      (m : Message) (e : Error) (s t : Session W C)
      → answer_ping lib sock m s ≡ (err e, t)
      → IsUnanswered m e s t
  unfolding AnswerEnd
  answer_ping-IsUnanswered m e s t h = subst (AnswerEnd m s) h (answer_ping-AnswerEnd m s)

module _ {W C : Type 0} (lib : P2p C) (sock : Socket W) (reads : ℕ) (command : Text)
    (predicate : Option (Message → Result Bool)) (deadline : ℕ) where
  -- A message that is waited for, and one that is not.
  abbrev pub IsWanted : Message → Type 0
  IsWanted m =
      (m.command ≡ command)
      × ((test : Message → Result Bool) → predicate ≡ some test → test m ≡ ok true)

  abbrev pub IsUnwanted : Message → Type 0
  IsUnwanted m =
      (m.command ≢ command)
      ⊎ ((test : Message → Result Bool) × (predicate ≡ some test) × (test m ≡ ok false))

  -- The predicate, asked of a message of the command, raised.
  abbrev pub IsUntested : Message → Error → Type 0
  IsUntested m e =
      (m.command ≡ command)
      × (test : Message → Result Bool) × (predicate ≡ some test)
      × (test m ≡ err e)

  -- what a turn receives, with the time that is left
  abbrev pub received : Session W C → Result Message × Session W C
  received s = receive_message lib sock reads (some (deadline - sock.monotonic s.world)) s

  -- A turn before the deadline: a message came, and was answered where it is a `ping`.
  pub record Turn (m : Message) (s t : Session W C) : Type 0 where
    pub soon : sock.monotonic s.world < deadline
    pub came : Session W C
    pub message : received s ≡ (ok m, came)
    pub answered : IsAnswered lib sock m came t

  -- So many turns, whose messages are none of those waited for.
  pub data Passed : ℕ → Session W C → Session W C → Type 0 where
    none_yet : {s : Session W C} → Passed zero s s
    passed :
        {n : ℕ} {s t u : Session W C} {m : Message}
        → Turn m s t
        → IsUnwanted m
        → Passed n t u
        → Passed (suc n) s u

  -- Why a wait raised, in its last turn.
  pub data Failed (e : Error) (s t : Session W C) : Type 0 where
    late : e ≡ timeout_error → s ≡ t → deadline ≤ sock.monotonic s.world → Failed e s t
    no_message : received s ≡ (err e, t) → Failed e s t
    no_answer :
        (m : Message) (came : Session W C)
        → received s ≡ (ok m, came)
        → IsUnanswered lib sock m e came t
        → Failed e s t
    no_verdict : (m : Message) → Turn m s t → IsUntested m e → Failed e s t

  -- What an end of `wait_for` stands for.
  abbrev pub WaitEnd : Session W C → Result Message × Session W C → Type 0
  WaitEnd s (ok m, t) = (n : ℕ) × (u : Session W C) × Passed n s u × Turn m u t × IsWanted m
  WaitEnd s (err e, t) = (n : ℕ) × (u : Session W C) × Passed n s u × Failed e u t

  -- A wait of so many turns ended, or each of them received an unwanted message.
  abbrev pub WaitWithin : ℕ → Session W C → Result Message × Session W C → Type 0
  WaitWithin turns s r =
      WaitEnd s r ⊎ ((t : Session W C) × (r ≡ (err unfinished, t)) × Passed turns s t)

  passes-cases :
      (o : Option (Message → Result Bool)) (m : Message) (b : Bool)
      → predicate ≡ o
      → passes o m ≡ ok b
      → ((b ≡ true) × ((test : Message → Result Bool) → predicate ≡ some test → test m ≡ ok true))
        ⊎ ((b ≡ false)
            × (test : Message → Result Bool) × (predicate ≡ some test)
            × (test m ≡ ok false))
  passes-cases none m b e h = inl (sym (ok-injective h), λ test k. cc (k, e))
  passes-cases (some test) m true e h = inl (
    refl,
    λ other k.
        let same : test ≡ other = cc (e, k) in
        subst (λ (f : Message → Result Bool). f m ≡ ok true) same h,
  )
  passes-cases (some test) m false e h = inr (refl, test, e, h)

  passes-err :
      (o : Option (Message → Result Bool)) (m : Message) (x : Error)
      → predicate ≡ o
      → passes o m ≡ err x
      → (test : Message → Result Bool) × (predicate ≡ some test) × (test m ≡ err x)
  passes-err none m x e h = cc h
  passes-err (some test) m x e h = (test, e, h)

  -- What the test of a message stands for.
  abbrev Verdict : Message → Result Bool → Type 0
  Verdict m (ok true) = IsWanted m
  Verdict m (ok false) = IsUnwanted m
  Verdict m (err e) = IsUntested m e

  passes-Verdict :
      (m : Message) (r : Result Bool) → m.command ≡ command → passes predicate m ≡ r → Verdict m r
  passes-Verdict m (err e) c h =
      let (test, k, j) = passes-err predicate m e refl h in (c, test, k, j)
  passes-Verdict m (ok true) c h = elim (passes-cases predicate m true refl h) [
    | inl (e, k) ↦ (c, k)
    | inr (e, test, k, j) ↦ cc e
  ]
  passes-Verdict m (ok false) c h = elim (passes-cases predicate m false refl h) [
    | inl (e, k) ↦ cc e
    | inr (e, test, k, j) ↦ inr (test, k, j)
  ]

  other_command : (a b : Text) → bytes_eq a b ≡ false → a ≢ b
  other_command a b h e = cc (rw e at h, bytes_eq_refl b)

  is_wanted-Verdict :
      (m : Message) (r : Result Bool) → is_wanted command predicate m ≡ r → Verdict m r
  unfolding is_wanted
  is_wanted-Verdict m r h = elim (Bool-cases (bytes_eq m.command command)) [
    | inl e ↦ passes-Verdict m r (bytes_eq→eq m.command command e) (rw e at h)
    | inr e ↦
        let same : ok false ≡ r = rw e at h in
        subst (Verdict m) same (inl (other_command m.command command e))
  ]

  WaitWithin-step :
      {m : Message} (turns : ℕ) (s t : Session W C) (r : Result Message × Session W C)
      → Turn m s t
      → IsUnwanted m
      → WaitWithin turns t r
      → WaitWithin (suc turns) s r
  WaitWithin-step turns s t r first other (inr (u, e, past)) = inr (u, e, passed first other past)
  WaitWithin-step turns s t (ok m, v) first other (inl (n, u, past, last, met)) =
      inl (suc n, u, passed first other past, last, met)
  WaitWithin-step turns s t (err e, v) first other (inl (n, u, past, why)) =
      inl (suc n, u, passed first other past, why)

  turn-WaitWithin :
      (turns : ℕ) (s : Session W C) (go_on : Exec (Session W C) Message)
      → sock.monotonic s.world < deadline
      → ((m : Message) (t : Session W C) → Turn m s t → WaitWithin turns t (go_on t))
      → WaitWithin (suc turns) s (turn lib sock reads command predicate go_on (received s))
  turn-WaitWithin turns s go_on soon rest = elim (outcome_cases (received s)) [
    | inr (e, t, q) ↦ rw q (inl (0, s, none_yet, no_message q))
    | inl (m, came, q) ↦ elim (outcome_cases (answer_ping lib sock m came)) [
      | inr (e, t, k) ↦
          rw (q, k)
            (inl
              (0, s, none_yet, no_answer m came q (answer_ping-IsUnanswered lib sock m e came t k)))
      | inl (u, t, k) ↦
          let here : Turn m s t = record {
            soon = soon;
            came = came;
            message = q;
            answered = answer_ping-IsAnswered lib sock m came t k;
          } in
          elim (Result-cases (is_wanted command predicate m)) [
            | inr (e, w) ↦
                let why = is_wanted-Verdict m (err e) w in
                rw (q, k, w) (inl (0, s, none_yet, no_verdict m here why))
            | inl (true, w) ↦
                let met = is_wanted-Verdict m (ok true) w in
                rw (q, k, w) (inl (0, s, none_yet, here, met))
            | inl (false, w) ↦
                let other = is_wanted-Verdict m (ok false) w in
                rw (q, k, w) (WaitWithin-step turns s t (go_on t) here other (rest m t here))
          ]
    ]
  ]

  over : (a b : ℕ) → ltb a b ≡ false → b ≤ a
  over a b h = ground arith

  wait_rounds_for-WaitWithin :
      (turns : ℕ) (s : Session W C)
      → WaitWithin turns s (wait_rounds_for lib sock reads command predicate deadline turns s)
  unfolding wait_rounds_for
  wait_rounds_for-WaitWithin zero s = inr (s, refl, none_yet)
  wait_rounds_for-WaitWithin (suc more) s =
      elim (Bool-cases (ltb (sock.monotonic s.world) deadline)) [
        | inr e ↦
            rw e (inl (0, s, none_yet, late refl refl (over (sock.monotonic s.world) deadline e)))
        | inl e ↦ rw e (
            turn-WaitWithin more s _ (ground (arith, e))
              (λ m t here. wait_rounds_for-WaitWithin more t))
      ]

module _ {W C : Type 0} (lib : P2p C) (sock : Socket W) (reads turns : ℕ) where
  -- wait_for that may take so many turns ends in one of them, unless every one, begun before the
  -- deadline, received a message that is not waited for. At its end it returns a message of the
  -- command for which the predicate, where there is one, holds, received in a turn begun before the
  -- deadline, and each turn before received a message of another command or one that the predicate
  -- refuses, and answered it where it was a ping; or it raises TimeoutError with the deadline
  -- passed, or what receiving, answering or testing the message of its last turn raised.
  pub wait_for-WaitEnd :
      (command : Text) (predicate : Option (Message → Result Bool)) (timeout : Option ℕ)
      (s : Session W C)
      → WaitWithin lib sock reads command predicate
          (sock.monotonic s.world + wait_time sock s.peer timeout)
          turns
          s
          (wait_for lib sock reads turns command predicate timeout s)
  unfolding wait_for
  wait_for-WaitEnd command predicate timeout s =
      wait_rounds_for-WaitWithin lib sock reads command predicate
        (sock.monotonic s.world + wait_time sock s.peer timeout) turns s
