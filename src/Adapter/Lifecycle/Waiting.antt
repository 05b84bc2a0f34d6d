-- ===== src/Adapter/Lifecycle/Waiting.antt =====
-- How the wait of a start ends.
use bitcoin_node_tests.Base.{
  ℕ, zero, suc, ◌+◌, ◌*◌, ◌≤◌, ◌≡◌, refl, sym, ap, ◌⊎◌, inl, inr, true, false, Option, none, some,
  arith, Bool-cases, ltb, ◌/◌,
}
use mathlib.Core.Path.{subst}
use native.Mathlib.Nat.{div-add-mod', mod-lt}
use bitcoin_node_tests.Adapter.Host.{
  other_failure, Host, Probe, answered, rpc_failure, http_failure,
}
use bitcoin_node_tests.Adapter.Lifecycle.{
  out_of_rounds, Outcome, wait_rounds, probe_pause, settles, ready, is_refusal, refused, exited,
  timed_out, after_poll, after_probe, wait_for_rpc,
}
use bitcoin_node_tests.Base.Int.{ℤ}

ltb_of_le : (a b : ℕ) → b ≤ a → ltb a b ≡ false
ltb_of_le a b h = ground arith

module _ {P W : Type 0} (host : Host P W) where
  -- The clock runs forward, and a pause lasts as long as it is asked to.
  pub record ClockLaws : Type 0 where
    pub poll : (p : P) (w : W) → host.monotonic w ≤ host.monotonic (host.poll p w).1
    pub probe : (w : W) → host.monotonic w ≤ host.monotonic (host.probe w).1
    pub sleep : (n : ℕ) (w : W) → host.monotonic w + n ≤ host.monotonic (host.sleep n w)

  -- What the machine showed for an outcome.
  abbrev pub Shows : P → ℕ → Outcome → W → Type 0
  Shows process deadline ready w = (v : W) × ((host.probe v).0 ≡ answered) × ((host.probe v).1 ≡ w)
  Shows process deadline exited w = (v : W) × (code : ℤ) × (host.poll process v ≡ (some code, w))
  Shows process deadline refused w =
      (v : W) × (is_refusal host (host.probe v).0 ≡ true) × ((host.probe v).1 ≡ w)
  Shows process deadline timed_out w = deadline ≤ host.monotonic w
  Shows process deadline out_of_rounds w = ⊥

  settles-cases :
      (p : Probe)
      → (settles host p ≡ none)
        ⊎ ((settles host p ≡ some ready) × (p ≡ answered))
        ⊎ ((settles host p ≡ some refused) × (is_refusal host p ≡ true))
  settles-cases answered = inr (inl (refl, refl))
  settles-cases (rpc_failure code) = elim (Bool-cases (is_refusal host (rpc_failure code))) [
    | inl e ↦ inr (inr (rw e refl, e))
    | inr e ↦ inl (rw e refl)
  ]
  settles-cases (http_failure status) = elim (Bool-cases (is_refusal host (http_failure status))) [
    | inl e ↦ inr (inr (rw e refl, e))
    | inr e ↦ inl (rw e refl)
  ]
  settles-cases other_failure = elim (Bool-cases (is_refusal host other_failure)) [
    | inl e ↦ inr (inr (rw e refl, e))
    | inr e ↦ inl (rw e refl)
  ]

  abbrev ShowsOf : P → ℕ → Outcome × W → Type 0
  ShowsOf process deadline r = Shows process deadline r.0 r.1

  after_probe-eq :
      (r : Probe × W) (go_on : W → Outcome × W) (o : Option Outcome)
      → settles host r.0 ≡ o
      → after_probe host r go_on ≡ elim o [ none ↦ go_on r.1 | some o ↦ (o, r.1) ]
  after_probe-eq r go_on o e = ap (λ o. elim o [ none ↦ go_on r.1 | some o ↦ (o, r.1) ]) e

  -- a round whose probe is made, by what the probe settles
  probed-Shows :
      (process : P) (deadline : ℕ) (v : W) (go_on : W → Outcome × W)
      → ShowsOf process deadline (go_on (host.probe v).1)
      → ShowsOf process deadline (after_probe host (host.probe v) go_on)
  probed-Shows process deadline v go_on rest = elim (settles-cases (host.probe v).0) [
    | inl e ↦
        subst (ShowsOf process deadline) (sym (after_probe-eq (host.probe v) go_on none e)) rest
    | inr (inl (e, p)) ↦
        subst (ShowsOf process deadline) (sym (after_probe-eq (host.probe v) go_on (some ready) e))
          (v, p, refl)
    | inr (inr (e, p)) ↦
        subst (ShowsOf process deadline)
          (sym (after_probe-eq (host.probe v) go_on (some refused) e)) (v, p, refl)
  ]

  polled-Shows :
      (process : P) (deadline : ℕ) (w : W) (go_on : W → Outcome × W)
      → ((v : W) → v ≡ (host.poll process w).1 → Shows process deadline (go_on v).0 (go_on v).1)
      → Shows process deadline
          (after_poll host (host.poll process w) go_on).0
          (after_poll host (host.poll process w) go_on).1
  polled-Shows process deadline w go_on rest = go (host.poll process w) refl
    where
      go :
          (r : Option ℤ × W)
          → host.poll process w ≡ r
          → Shows process deadline (after_poll host r go_on).0 (after_poll host r go_on).1
      go (some code, v) e = (w, code, e)
      go (none, v) e = rest v (sym (ap (λ r. r.1) e))

  -- one more round, whose clock test passed
  round-Shows :
      (process : P) (deadline : ℕ) (w : W) (go_on : W → Outcome × W)
      → ((v : W) → host.monotonic w ≤ host.monotonic v → ShowsOf process deadline (go_on v))
      → ClockLaws
      → ShowsOf process deadline
          (after_poll host (host.poll process w) (λ v. after_probe host (host.probe v) go_on))
  round-Shows process deadline w go_on rest laws =
      polled-Shows process deadline w (λ v. after_probe host (host.probe v) go_on)
        (λ v p. probed-Shows process deadline v go_on (
          rest (host.probe v).1
            (omega (arith, laws.probe v, laws.poll process w, ap host.monotonic p))))

  wait_rounds-Shows :
      (laws : ClockLaws) (more : ℕ) (process : P) (deadline : ℕ) (w : W)
      → deadline ≤ host.monotonic w + more * probe_pause
      → ShowsOf process deadline (wait_rounds host (suc more) process deadline w)
  unfolding wait_rounds
  wait_rounds-Shows laws zero process deadline w h =
      rw (ltb_of_le (host.monotonic w) deadline (omega arith)) (omega arith)
  wait_rounds-Shows laws (suc more) process deadline w h =
      elim (Bool-cases (ltb (host.monotonic w) deadline)) [
        | inr e ↦ rw e (ground arith)
        | inl e ↦ rw e (
            round-Shows process deadline w
              (λ u. wait_rounds host (suc more) process deadline (host.sleep probe_pause u))
              (λ v le.
                wait_rounds-Shows laws more process deadline (host.sleep probe_pause v)
                  (omega (arith, laws.sleep probe_pause v)))
              laws)
      ]

  -- The wait of a start ends within the rounds given to it, and each end has its reason: ready
  -- after a probe that was answered, exited after a poll that gave an exit code, refused after a
  -- probe that no waiting mends, and timed out with the clock at the deadline or past it. The clock
  -- is assumed to run forward and past each pause.
  pub wait_for_rpc-Shows :
      (laws : ClockLaws) (process : P) (timeout : ℕ) (w : W)
      → Shows process
          (host.monotonic w + timeout)
          (wait_for_rpc host process timeout w).0
          (wait_for_rpc host process timeout w).1
  unfolding wait_for_rpc
  wait_for_rpc-Shows laws process timeout w =
      wait_rounds-Shows laws (suc (timeout / probe_pause)) process (host.monotonic w + timeout) w (
        omega
          (arith, div-add-mod' timeout probe_pause, mod-lt timeout {m = probe_pause} (omega arith)))
