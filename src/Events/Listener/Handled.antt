-- ===== src/Events/Listener/Handled.antt =====
-- What becomes of one message: which requests were sent, what was counted, and when the message is
-- deleted (rules 1 to 6 of specs/001-akv-eventgrid-sync/contracts/queue-message.md).
use kvsynk8s.Base.{
  ◌≡◌, ◌≢◌, refl, sym, ◌∙◌, Bool, true, false, Bool-cases, inl, inr, Option, none, some, List, [],
  ◌∷◌, ◌++◌, ltb, select,
}
use kvsynk8s.Errors.{Err, Result, ok, err}
use kvsynk8s.Api.{SecretSync}
use kvsynk8s.Events.Parser.{ParsedEvent, parse}
use kvsynk8s.Events.Listener.Log.{
  listed, log_listed, Act, Logged, logged, sends, gone, all_sent, cut_at, send_each-Sent,
}
use kvsynk8s.Events.Listener.{
  QueueMessage, dispatched, unmatched, non_actionable, malformed, poison, Listener, concerns,
  delete_message, discard, dispatch, with_matches, with_listed, with_parsed, handle_message,
}

module _ {W : Type 0} (l : Listener W) (m : QueueMessage) (t : Logged W) where
  abbrev pub IsPoison : Bool → Type 0
  IsPoison b = ltb l.poison_threshold m.dequeue_count ≡ b

  -- Why the message was handled as it was, and what was done in all.
  pub data Settled (after : List Act) : Type 0 where
    was_poison : IsPoison true → after ≡ gone poison m t.acts → Settled after
    was_malformed :
        (e : Err)
        → IsPoison false
        → parse l.codec m.text ≡ err e
        → after ≡ gone malformed m t.acts
        → Settled after
    was_not_actionable :
        IsPoison false
        → parse l.codec m.text ≡ ok none
        → after ≡ gone non_actionable m t.acts
        → Settled after
    was_unmatched :
        (event : ParsedEvent) (items : List SecretSync)
        → IsPoison false
        → parse l.codec m.text ≡ ok (some event)
        → (l.list_syncs t.world).0 ≡ ok items
        → select (concerns event) items ≡ []
        → after ≡ gone unmatched m (listed items ∷ t.acts)
        → Settled after
    was_dispatched :
        (event : ParsedEvent) (items : List SecretSync)
        → IsPoison false
        → parse l.codec m.text ≡ ok (some event)
        → (l.list_syncs t.world).0 ≡ ok items
        → select (concerns event) items ≢ []
        → after ≡ gone dispatched m (sends (select (concerns event) items) (listed items ∷ t.acts))
        → Settled after
    -- the List failed
    was_left :
        (event : ParsedEvent) (e : Err)
        → IsPoison false
        → parse l.codec m.text ≡ ok (some event)
        → (l.list_syncs t.world).0 ≡ err e
        → after ≡ t.acts
        → Settled after
    -- the context ended while the matches were sent
    was_cut :
        (event : ParsedEvent) (items before : List SecretSync) (stopped : SecretSync)
        (rest : List SecretSync)
        → IsPoison false
        → parse l.codec m.text ≡ ok (some event)
        → (l.list_syncs t.world).0 ≡ ok items
        → select (concerns event) items ≡ before ++ stopped ∷ rest
        → after ≡ sends before (listed items ∷ t.acts)
        → Settled after

  -- what the last steps need of the earlier ones
  record Reached (event : ParsedEvent) (items : List SecretSync) : Type 0 where
    alive : IsPoison false
    parsed : parse l.codec m.text ≡ ok (some event)
    listed : (l.list_syncs t.world).0 ≡ ok items

  dispatch-Settled :
      (event : ParsedEvent) (items matches : List SecretSync) (w : W)
      → Reached event items
      → select (concerns event) items ≡ matches
      → matches ≢ []
      → Settled
          (dispatch (logged l) matches m (record { world = w; acts = listed items ∷ t.acts })).acts
  unfolding dispatch discard delete_message
  dispatch-Settled event items matches w h e n =
      elim (send_each-Sent l matches (record { world = w; acts = listed items ∷ t.acts })) [
        | all_sent d f ↦
            rw d (
              was_dispatched event items h.alive h.parsed h.listed (λ q. n (sym e ∙ q)) (rw (f, e)))
        | cut_at before stopped rest d g f ↦
            rw d (was_cut event items before stopped rest h.alive h.parsed h.listed (e ∙ g) f)
      ]

  with_matches-Settled :
      (event : ParsedEvent) (items matches : List SecretSync) (w : W)
      → Reached event items
      → select (concerns event) items ≡ matches
      → Settled
          (with_matches
            (logged l)
            matches
            m
            (record { world = w; acts = listed items ∷ t.acts })).acts
  unfolding with_matches discard delete_message
  with_matches-Settled event items [] w h e =
      was_unmatched event items h.alive h.parsed h.listed e refl
  with_matches-Settled event items (x ∷ xs) w h e =
      dispatch-Settled event items (x ∷ xs) w h e (λ q. cc)

  with_listed-Settled :
      (event : ParsedEvent) (r : Result (List SecretSync)) (w : W)
      → IsPoison false
      → parse l.codec m.text ≡ ok (some event)
      → (l.list_syncs t.world).0 ≡ r
      → Settled
          (with_listed (logged l) event m r (record { world = w; acts = log_listed r t.acts })).acts
  unfolding with_listed
  with_listed-Settled event (err e) w alive p q = was_left event e alive p q refl
  with_listed-Settled event (ok items) w alive p q =
      with_matches-Settled event items _ w (record { alive = alive; parsed = p; listed = q }) refl

  with_parsed-Settled :
      (r : Result (Option ParsedEvent))
      → IsPoison false
      → parse l.codec m.text ≡ r
      → Settled (with_parsed (logged l) m r t).acts
  unfolding with_parsed discard delete_message
  with_parsed-Settled (err e) alive p = was_malformed e alive p refl
  with_parsed-Settled (ok none) alive p = was_not_actionable alive p refl
  with_parsed-Settled (ok (some event)) alive p =
      with_listed-Settled event _ (l.list_syncs t.world).1 alive p refl

  -- Every message is handled in one of seven ways, each for its own reason. A message over the
  -- poison threshold, a malformed one, one that is not acted on and one that concerns no SecretSync
  -- are counted once so and deleted, with nothing sent. Otherwise the SecretSyncs that the event
  -- concerns are sent in order, and the message is counted and deleted only after all were
  -- accepted; if the List fails or the context ends before that, it is neither counted nor deleted.
  pub handle_message-Settled : Settled (handle_message (logged l) m t).acts
  unfolding handle_message discard delete_message
  handle_message-Settled = elim (Bool-cases (ltb l.poison_threshold m.dequeue_count)) [
    | inl y ↦ rw y (was_poison y refl)
    | inr n ↦ rw n (with_parsed-Settled (parse l.codec m.text) n refl)
  ]
