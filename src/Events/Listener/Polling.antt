-- ===== src/Events/Listener/Polling.antt =====
-- The poll loop and its health state.
use kvsynk8s.Base.{
  ℕ, zero, suc, ◌+◌, ◌≡◌, refl, true, false, Bool-cases, inl, inr, Option, none, some, List, arith,
}
use kvsynk8s.Errors.{Err, Result, ok, err}
use kvsynk8s.Events.Listener.{
  QueueMessage, Listener, apply_defaults, Health, record_receive_success, record_receive_failure,
  received, poll_once, wait_after, rounds, start,
}

-- what the gauge of the last success shows; it is not set before the first one
abbrev pub Shown : Option ℕ → ℕ → Type 0
Shown none gauge = Unit
Shown (some t) gauge = gauge ≡ t

-- The gauges show the state: the failures since the last success, and the time of that success.
pub record IsMirrored (h : Health) : Type 0 where
  pub failures : h.failures_gauge ≡ h.consecutive_receive_failures
  pub success : Shown h.last_successful_receive h.success_gauge

success-IsMirrored : (now : ℕ) (h : Health) → IsMirrored (record_receive_success now h)
unfolding record_receive_success
success-IsMirrored now h = record { failures = refl; success = refl }

failure-IsMirrored : (h : Health) → IsMirrored h → IsMirrored (record_receive_failure h)
unfolding record_receive_failure
failure-IsMirrored h m = record { failures = refl; success = m.success }

module _ {W : Type 0} (l : Listener W) where
  received-IsMirrored :
      (h : Health) (r : Result (List QueueMessage)) (w : W)
      → IsMirrored h
      → IsMirrored (received l h r w).1
  unfolding received
  received-IsMirrored h (err e) w m = failure-IsMirrored h m
  received-IsMirrored h (ok ms) w m = success-IsMirrored (l.now w).0 h

  rounds-IsMirrored : (n : ℕ) (h : Health) (w : W) → IsMirrored h → IsMirrored (rounds l n h w).1
  unfolding rounds poll_once
  rounds-IsMirrored zero h w m = m
  rounds-IsMirrored (suc n) h w m = elim (Bool-cases (l.finished w).0) [
    | inl y ↦ rw y m
    | inr more ↦
        let (r, v) = l.receive l.batch_size (l.finished w).1 in
        let polled : IsMirrored (received l h r v).1 = received-IsMirrored h r v m in
        let slept = l.sleep (wait_after l (received l h r v).0) (received l h r v).2 in
        rw more (elim (Bool-cases slept.0) [
          | inl y ↦ rw y (rounds-IsMirrored n (received l h r v).1 slept.1 polled)
          | inr z ↦ rw z polled
        ])
  ]

  -- The context never ends and no sleep is interrupted.
  record Runs : Type 0 where
    never_finished : (w : W) → (l.finished w).0 ≡ false
    sleeps_through : (d : ℕ) (w : W) → (l.sleep d w).0 ≡ true

  -- `Start` goes on polling however often a Receive fails: as long as the context does not end,
  -- no number of rounds makes it return.
  rounds-go_on : (n : ℕ) (h : Health) (w : W) → Runs → (rounds l n h w).0 ≡ false
  unfolding rounds
  rounds-go_on zero h w r = refl
  rounds-go_on (suc n) h w r =
      rw (r.never_finished w) (rw (r.sleeps_through _ _) (rounds-go_on n _ _ r))

  -- every Receive fails
  abbrev IsOut : Type 0
  IsOut = (w : W) → (e : Err) × ((l.receive l.batch_size w).0 ≡ err e)

  failed_poll : (h : Health) (w : W) → IsOut → (poll_once l h w).1 ≡ record_receive_failure h
  unfolding poll_once received
  failed_poll h w out = rw ((out w).1)

  -- While the queue cannot be reached, every round adds one to the count of consecutive failures
  -- and leaves the time of the last success, so an outage of any length shows in the count.
  rounds-count_failures :
      (n : ℕ) (h : Health) (w : W)
      → Runs
      → IsOut
      → ((rounds l n h w).1.consecutive_receive_failures ≡ h.consecutive_receive_failures + n)
        × ((rounds l n h w).1.last_successful_receive ≡ h.last_successful_receive)
  unfolding rounds
  rounds-count_failures zero h w r out = (omega arith, refl)
  rounds-count_failures (suc n) h w r out = rw (r.never_finished w) (
      rw (r.sleeps_through _ _) (
        rw (failed_poll h _ out) (
          unfold record_receive_failure in
          let polled = poll_once l h (l.finished w).1 in
          let rest =
            rounds-count_failures n (record_receive_failure h)
              (l.sleep (wait_after l polled.0) polled.2).1 r out in
          (omega (arith, rest.0), rest.1))))

-- After `Start`, however many rounds it has made and whatever the queue answered, the two gauges
-- show the health state of the listener, if they did before.
pub start-IsMirrored :
    {W : Type 0} (l : Listener W) (n : ℕ) (h : Health) (w : W)
    → IsMirrored h
    → IsMirrored (start l n h w).1
unfolding start
start-IsMirrored l n h w m = rounds-IsMirrored (apply_defaults l) n h w m
