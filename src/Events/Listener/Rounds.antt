-- ===== src/Events/Listener/Rounds.antt =====
-- What all rounds of `Start` keep of the log.
use mathlib.Core.List.{Memᴰ}
use kvsynk8s.Base.{ℕ, zero, suc, Bool-cases, inl, inr, List, [], ◌∷◌, select}
use kvsynk8s.Errors.{Result, ok, err}
use kvsynk8s.Events.Listener.{
  QueueMessage, Listener, concerns, handle_message, handle_each, received, poll_once, Health,
  wait_after, rounds,
}
use kvsynk8s.Events.Listener.Acts.{Within, sends-Within, AllTaken, AllTaken-Within, takes-AllTaken}
use kvsynk8s.Events.Listener.Log.{listed, log_taken, Act, taken, Logged, logged, takes}
use kvsynk8s.Events.Listener.Handled.{
  Settled, was_poison, was_malformed, was_not_actionable, was_unmatched, was_dispatched, was_left,
  was_cut, handle_message-Settled,
}

module _ {W : Type 0} (l : Listener W) where
  Settled-Within :
      (m : QueueMessage) (t : Logged W) (after : List Act)
      → Settled l m t after
      → Within t.acts after
  Settled-Within m t after (was_poison p e) = rw e (λ a x. Memᴰ.tail (Memᴰ.tail x))
  Settled-Within m t after (was_malformed x p q e) = rw e (λ a y. Memᴰ.tail (Memᴰ.tail y))
  Settled-Within m t after (was_not_actionable p q e) = rw e (λ a x. Memᴰ.tail (Memᴰ.tail x))
  Settled-Within m t after (was_unmatched event items p q s f e) =
      rw e (λ a x. Memᴰ.tail (Memᴰ.tail (Memᴰ.tail x)))
  Settled-Within m t after (was_dispatched event items p q s f e) = rw e (λ a x. Memᴰ.tail (
      Memᴰ.tail
        (sends-Within (select (concerns event) items) (listed items ∷ t.acts) a (Memᴰ.tail x))))
  Settled-Within m t after (was_left event x p q s e) = rw e (λ a y. y)
  Settled-Within m t after (was_cut event items before stopped rest p q s f e) =
      rw e (λ a x. sends-Within before (listed items ∷ t.acts) a (Memᴰ.tail x))

  module _ (P : List Act → Type 0)
      (handled : (m : QueueMessage) (t : Logged W)
        → Memᴰ (taken m) t.acts
        → P t.acts
        → P (handle_message (logged l) m t).acts)
      (took : (ms : List QueueMessage) (acts : List Act) → P acts → P (takes ms acts)) where
    handle_each-Kept :
        (ms : List QueueMessage) (t : Logged W)
        → AllTaken ms t.acts
        → P t.acts
        → P (handle_each (logged l) ms t).acts
    unfolding handle_each
    handle_each-Kept [] t given h = h
    handle_each-Kept (m ∷ ms) t (first, rest) h =
        let after = handle_message (logged l) m t in
        handle_each-Kept ms after
          (AllTaken-Within ms t.acts after.acts
            (Settled-Within m t after.acts (handle_message-Settled l m t)) rest)
          (handled m t first h)

    poll_once-Kept : (g : Health) (t : Logged W) → P t.acts → P (poll_once (logged l) g t).2.acts
    unfolding poll_once received
    poll_once-Kept g t h = go (l.receive l.batch_size t.world).0
      where
        go :
            (r : Result (List QueueMessage))
            → let v : Logged W = record {
              world = (l.receive l.batch_size t.world).1;
              acts = log_taken r t.acts;
            } in
              P (received (logged l) g r v).2.acts
        go (err e) = h
        go (ok ms) =
            handle_each-Kept ms
              (record {
                world = (l.now (l.receive l.batch_size t.world).1).1;
                acts = takes ms t.acts;
              })
              (takes-AllTaken ms t.acts) (took ms t.acts h)

    pub rounds-Kept :
        (n : ℕ) (g : Health) (t : Logged W) → P t.acts → P (rounds (logged l) n g t).2.acts
    unfolding rounds
    rounds-Kept zero g t h = h
    rounds-Kept (suc n) g t h = elim (Bool-cases (l.finished t.world).0) [
      | inl y ↦ rw y h
      | inr more ↦
          let polled = poll_once (logged l) g ((logged l).finished t).1 in
          let slept = (logged l).sleep (wait_after (logged l) polled.0) polled.2 in
          let kept : P slept.1.acts = poll_once-Kept g ((logged l).finished t).1 h in
          rw more (elim (Bool-cases slept.0) [
            | inl y ↦ rw y (rounds-Kept n polled.1 slept.1 kept)
            | inr z ↦ rw z kept
          ])
    ]
