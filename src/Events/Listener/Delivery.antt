-- ===== src/Events/Listener/Delivery.antt =====
-- Which messages are deleted over any number of polls.
use mathlib.Core.List.{Memᴰ}
use kvsynk8s.Base.{◌∷◌, ℕ, ◌≡◌, refl, true, none, some, List, [], select, ltb}
use kvsynk8s.Errors.{Err, ok, err}
use kvsynk8s.Api.{SecretSync}
use kvsynk8s.Events.Parser.{ParsedEvent, parse}
use kvsynk8s.Events.Listener.{
  QueueMessage, MessageOutcome, unmatched, Listener, concerns, handle_message, Health, start,
  apply_defaults,
}
use kvsynk8s.Events.Listener.Acts.{sends-Within}
use kvsynk8s.Events.Listener.Rounds.{rounds-Kept}
use kvsynk8s.Events.Listener.Log.{
  listed, counted, sent, Act, taken, deleted, Logged, logged, takes, sends, gone,
}
use kvsynk8s.Events.Listener.Handled.{
  Settled, was_poison, was_malformed, was_not_actionable, was_unmatched, was_dispatched, was_left,
  was_cut, handle_message-Settled,
}

module _ {W : Type 0} (l : Listener W) where
  -- Why a message may go, by the log up to there: nothing can be done with it; or the listing of the
  -- SecretSyncs was answered after the queue gave the message, and since then the channel accepted
  -- each that the message concerns, in the order of the listing.
  pub data MayGo (m : QueueMessage) (earlier : List Act) : Type 0 where
    over_threshold : ltb l.poison_threshold m.dequeue_count ≡ true → MayGo m earlier
    unreadable : (e : Err) → parse l.codec m.text ≡ err e → MayGo m earlier
    not_for_us : parse l.codec m.text ≡ ok none → MayGo m earlier
    delivered :
        (event : ParsedEvent) (items : List SecretSync) (o : MessageOutcome) (before : List Act)
        → parse l.codec m.text ≡ ok (some event)
        → Memᴰ (taken m) before
        → earlier ≡ counted o ∷ sends (select (concerns event) items) (listed items ∷ before)
        → MayGo m earlier

  -- at each Delete the queue had given a message with that ID and pop receipt, and one that may go
  abbrev pub Delivered : List Act → Type 0
  Delivered [] = Unit
  Delivered (deleted id receipt ∷ earlier) =
      ((m : QueueMessage) × (m.id ≡ id)
        × (m.pop_receipt ≡ receipt)
        × Memᴰ (taken m) earlier
        × MayGo m earlier)
      × Delivered earlier
  Delivered (taken m ∷ earlier) = Delivered earlier
  Delivered (listed items ∷ earlier) = Delivered earlier
  Delivered (sent ss ∷ earlier) = Delivered earlier
  Delivered (counted o ∷ earlier) = Delivered earlier

  sends-Delivered :
      (xs : List SecretSync) (acts : List Act) → Delivered acts → Delivered (sends xs acts)
  sends-Delivered [] acts h = h
  sends-Delivered (x ∷ xs) acts h = sends-Delivered xs (sent x ∷ acts) h

  takes-Delivered :
      (ms : List QueueMessage) (acts : List Act) → Delivered acts → Delivered (takes ms acts)
  takes-Delivered [] acts h = h
  takes-Delivered (m ∷ ms) acts h = takes-Delivered ms acts h

  gone-Delivered :
      (o : MessageOutcome) (m : QueueMessage) (acts : List Act)
      → Memᴰ (taken m) acts
      → MayGo m (counted o ∷ acts)
      → Delivered acts
      → Delivered (gone o m acts)
  gone-Delivered o m acts given may h = ((m, refl, refl, Memᴰ.tail given, may), h)

  Settled-Delivered :
      (m : QueueMessage) (t : Logged W) (after : List Act)
      → Settled l m t after
      → Memᴰ (taken m) t.acts
      → Delivered t.acts
      → Delivered after
  Settled-Delivered m t after (was_poison p e) given h =
      rw e (gone-Delivered _ m t.acts given (over_threshold p) h)
  Settled-Delivered m t after (was_malformed x p q e) given h =
      rw e (gone-Delivered _ m t.acts given (unreadable x q) h)
  Settled-Delivered m t after (was_not_actionable p q e) given h =
      rw e (gone-Delivered _ m t.acts given (not_for_us q) h)
  Settled-Delivered m t after (was_unmatched event items p q s none_matches e) given h = rw e (
      gone-Delivered _ m (listed items ∷ t.acts) (Memᴰ.tail given)
        (delivered event items unmatched t.acts q given (rw none_matches refl)) h)
  Settled-Delivered m t after (was_dispatched event items p q s some_match e) given h =
      let matches = select (concerns event) items in
      rw e (
        gone-Delivered _ m (sends matches (listed items ∷ t.acts))
          (sends-Within matches (listed items ∷ t.acts) (taken m) (Memᴰ.tail given))
          (delivered event items _ t.acts q given refl)
          (sends-Delivered matches (listed items ∷ t.acts) h))
  Settled-Delivered m t after (was_left event x p q s e) given h = rw e h
  Settled-Delivered m t after (was_cut event items before stopped rest p q s f e) given h =
      rw e (sends-Delivered before (listed items ∷ t.acts) h)

  handled-Delivered :
      (m : QueueMessage) (t : Logged W)
      → Memᴰ (taken m) t.acts
      → Delivered t.acts
      → Delivered (handle_message (logged l) m t).acts
  handled-Delivered m t given h = Settled-Delivered m t _ (handle_message-Settled l m t) given h

-- However many rounds `Start` makes and whatever is answered, at each Delete of the run the queue had
-- given a message with that ID and pop receipt before; and that message is over the poison threshold,
-- or malformed, or not acted on, or, since the queue gave it, the SecretSyncs were listed and the
-- channel accepted each of them that it concerns.
pub start-Delivered :
    {W : Type 0} (l : Listener W) (n : ℕ) (g : Health) (w : W)
    → Delivered (apply_defaults l) (start (logged l) n g (record { world = w; acts = [] })).2.acts
unfolding start apply_defaults
start-Delivered l n g w =
    rounds-Kept (apply_defaults l) (Delivered (apply_defaults l))
      (handled-Delivered (apply_defaults l)) (takes-Delivered (apply_defaults l)) n g
      (record { world = w; acts = [] }) tt
