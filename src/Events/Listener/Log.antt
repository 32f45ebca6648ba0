-- ===== src/Events/Listener/Log.antt =====
-- A listener (internal/events/listener.go) that logs what it does.
use kvsynk8s.Base.{String, ◌≡◌, refl, ap, Bool, true, false, List, [], ◌∷◌, ◌++◌, if◌then◌else◌}
use kvsynk8s.Errors.{Result, ok, err}
use kvsynk8s.Api.{SecretSync}
use kvsynk8s.Events.Listener.{QueueMessage, MessageOutcome, Listener, send_each}

-- `taken m`: the queue gave the message; `listed items`: the List answered with these; `sent ss`: the
-- channel accepted `ss`
pub data Act : Type 0 where
  taken : QueueMessage → Act
  listed : List SecretSync → Act
  sent : SecretSync → Act
  counted : MessageOutcome → Act
  deleted : String → String → Act

-- A world with what was done in it, the latest first.
pub record Logged (W : Type 0) : Type 0 where
  pub world : W
  pub acts : List Act

abbrev log_sent : Bool → SecretSync → List Act → List Act
log_sent true ss acts = sent ss ∷ acts
log_sent false ss acts = acts

abbrev pub log_listed : Result (List SecretSync) → List Act → List Act
log_listed (ok items) acts = listed items ∷ acts
log_listed (err e) acts = acts

abbrev pub takes : List QueueMessage → List Act → List Act
takes [] acts = acts
takes (m ∷ ms) acts = taken m ∷ takes ms acts

abbrev pub log_taken : Result (List QueueMessage) → List Act → List Act
log_taken (ok ms) acts = takes ms acts
log_taken (err e) acts = acts

module _ {W : Type 0} where
  abbrev silent : {A : Type 0} → (W → A × W) → Logged W → A × Logged W
  silent m t = let (r, w) = m t.world in (r, record { world = w; acts = t.acts })

  abbrev pub logged : Listener W → Listener (Logged W)
  logged l = record {
    codec = l.codec;
    receive = λ n t.
        let (r, w) = l.receive n t.world in (r, record { world = w; acts = log_taken r t.acts });
    delete = λ id receipt t.
        let (r, w) = l.delete id receipt t.world in
        (r, record { world = w; acts = deleted id receipt ∷ t.acts });
    list_syncs = λ t.
        let (r, w) = l.list_syncs t.world in (r, record { world = w; acts = log_listed r t.acts });
    send = λ ss t.
        let (a, w) = l.send ss t.world in (a, record { world = w; acts = log_sent a ss t.acts });
    count = λ o t. record { world = l.count o t.world; acts = counted o ∷ t.acts };
    now = silent l.now;
    finished = silent l.finished;
    sleep = λ n. silent (l.sleep n);
    batch_size = l.batch_size;
    poison_threshold = l.poison_threshold;
    busy_poll_interval = l.busy_poll_interval;
    idle_poll_interval = l.idle_poll_interval;
    queue_call_timeout = l.queue_call_timeout;
  }

-- `acts`, and then the sends of the objects in order
abbrev pub sends : List SecretSync → List Act → List Act
sends [] acts = acts
sends (ss ∷ rest) acts = sends rest (sent ss ∷ acts)

-- the message counted once and then deleted
abbrev pub gone : MessageOutcome → QueueMessage → List Act → List Act
gone o m acts = deleted m.id m.pop_receipt ∷ counted o ∷ acts

module _ {W : Type 0} (l : Listener W) where
  -- All the objects were accepted, or the context ended at one of them.
  pub data Sent (xs : List SecretSync) (acts : List Act) (p : Bool × Logged W) : Type 0 where
    all_sent : p.0 ≡ true → p.1.acts ≡ sends xs acts → Sent xs acts p
    cut_at :
        (before : List SecretSync) (stopped : SecretSync) (rest : List SecretSync)
        → p.0 ≡ false
        → xs ≡ before ++ stopped ∷ rest
        → p.1.acts ≡ sends before acts
        → Sent xs acts p

  Sent-cons :
      (x : SecretSync) (xs : List SecretSync) (acts : List Act) (p : Bool × Logged W)
      → Sent xs (sent x ∷ acts) p
      → Sent (x ∷ xs) acts p
  Sent-cons x xs acts p (all_sent d e) = all_sent d e
  Sent-cons x xs acts p (cut_at before stopped rest d e f) =
      cut_at (x ∷ before) stopped rest d (ap (λ ys. x ∷ ys) e) f

  pub send_each-Sent :
      (xs : List SecretSync) (u : Logged W) → Sent xs u.acts (send_each (logged l) xs u)
  unfolding send_each
  send_each-Sent [] u = all_sent refl refl
  send_each-Sent (x ∷ xs) u = go (l.send x u.world).0 (
      send_each-Sent xs
        (record { world = (l.send x u.world).1; acts = log_sent (l.send x u.world).0 x u.acts }))
    where
      go :
          (a : Bool)
          → let v : Logged W = record {
            world = (l.send x u.world).1;
            acts = log_sent a x u.acts;
          } in
            Sent xs v.acts (send_each (logged l) xs v)
            → Sent (x ∷ xs) u.acts (if a then send_each (logged l) xs v else (false, v))
      go true h = Sent-cons x xs u.acts _ h
      go false h = cut_at [] x xs refl refl refl
