-- ===== src/Controller/Reconcile/Safe.antt =====
-- The calls on Secrets that a reconcile makes after `Sync`, the writer among them.
use kvsynk8s.Base.{◌≡◌, Option, [], ◌∷◌, get, if◌then◌else◌}
use kvsynk8s.Errors.{Err, Result, ok, err, wrap, errors_is, is_target_immutable}
use kvsynk8s.Message.{text}
use kvsynk8s.Exec.{attempt, continue}
use kvsynk8s.Exec.Triples.{
  Ends, Triple, Triple-pure, Triple-raise, Triple-given, Triple-pre, Triple-attempt, Triple-bind,
  Triple-if, Triple-keeps,
}
use kvsynk8s.Api.{
  SecretSync, SecretSyncStatus, SecretSyncState, Secret, is_failing, secret_write_failed,
  target_immutable,
}
use kvsynk8s.Kube.{Kube, status_persist_deadline}
use kvsynk8s.Sync.Writer.Trace.{Traced}
use kvsynk8s.Sync.Writer.Safety.{create_or_update_after-AllRight}
use kvsynk8s.Controller.{
  Reconciler, record_sync_outcome, set_ready_condition, is_terminal_write_error, logged,
}
use kvsynk8s.Controller.Reconcile.{
  Target, Prior, contents_of, observe_all, finish, persist_or_log, settle_persist, write_failed,
  write_refused, answer_write, ensure_finalizer, write_desired, apply_sync, needs_write,
  own_failure, secret_at, target_fields, immutable_hint,
}
use kvsynk8s.Controller.Reconcile.Watched.{watched}
use kvsynk8s.Controller.Reconcile.Calls.{
  SameObject, AllSafe, AllSafe-Stays, right-safe, OnlyLooks, looks-safe, looks-right, Sofar,
  quiet-Keeps, observe_all-Keeps,
}
use kvsynk8s.Controller.Reconcile.Finish.{ensure_finalizer-same, finish-Stays}

module _ {W : Type 0} (k : Kube) (r : Reconciler W) (same : SameObject k r.syncs) (ss : SecretSync)
    (target : Target) where
  abbrev pub S : Traced W → Type 0
  S = Sofar (AllSafe k ss target)

  abbrev Held : SecretSync → Traced W → Type 0
  Held u t = (u.uid ≡ ss.uid) × S t

  observed : (os : _) → Triple S (observe_all k (watched r) os) (λ _. S) S
  observed os = Triple-keeps _ (observe_all-Keeps (AllSafe k ss target) k r os)

  settle_persist-Safe :
      (a : SecretSync) (b : Result SecretSync)
      → Triple S (settle_persist k (watched r) a target b) (λ _. S) S
  unfolding settle_persist
  settle_persist-Safe a (ok b) = Triple-pure b (λ t h. h)
  settle_persist-Safe a (err e) =
      Triple-bind _ _
        (observed (
          logged "failed to persist Failing status after a secret write error"
            (target_fields target)
          ∷ []))
        (λ _. Triple-pure a (λ t h. h))

  persist_or_log-Safe :
      (a : SecretSync) → Triple S (persist_or_log k (watched r) a target) (λ _. S) S
  unfolding persist_or_log
  persist_or_log-Safe a =
      Triple-attempt _ (settle_persist k (watched r) a target)
        (Triple-keeps _ (
          quiet-Keeps (AllSafe k ss target) (r.syncs.update_sync_status status_persist_deadline a)))
        (λ b. settle_persist-Safe a (ok b)) (λ e. settle_persist-Safe a (err e))

  write_failed-Safe :
      (a : SecretSync) (previous : SecretSyncState) (e : Err)
      → Triple S (write_failed k (watched r) a previous target e) (λ _. S) S
  unfolding write_failed
  write_failed-Safe a previous e =
      let message =
        text "failed writing " ∷ secret_at a target.name "; keeping last synced value" in
      let status = set_ready_condition k a (own_failure a secret_write_failed message) in
      Triple-bind _ _ (persist_or_log-Safe (record a { status = status })) (λ b.
        Triple-bind _ _ (observed (record_sync_outcome r.recorder b previous status target.name))
          (λ _. Triple-raise (wrap e) (λ t h. h)))

  write_refused-Safe :
      (a : SecretSync) (previous : SecretSyncState) (e : Err)
      → a.uid ≡ ss.uid
      → Triple S (write_refused k (watched r) a previous target e) (λ _. S) S
  unfolding write_refused
  write_refused-Safe a previous e g =
      Triple-if (errors_is is_target_immutable e) _ _
        (Triple-bind _ _ (observed (logged immutable_hint (target_fields target) ∷ [])) (λ _.
          finish-Stays k r same ss target (AllSafe-Stays k ss target) a previous
            (own_failure a target_immutable (
              secret_at a target.name
                " is immutable and cannot be updated; keeping last synced value"))
            g))
        (finish-Stays k r same ss target (AllSafe-Stays k ss target) a previous _ g)

  answer_write-Safe :
      (a : SecretSync) (previous : SecretSyncState) (s : SecretSyncStatus) (b : Result (Unit {0}))
      → a.uid ≡ ss.uid
      → Triple S (answer_write k (watched r) a previous target s b) (λ _. S) S
  unfolding answer_write
  answer_write-Safe a previous s (ok _) g =
      finish-Stays k r same ss target (AllSafe-Stays k ss target) a previous s g
  answer_write-Safe a previous s (err e) g =
      Triple-if (is_terminal_write_error e) _ _ (write_refused-Safe a previous e g)
        (write_failed-Safe a previous e)

  -- nothing but reads so far
  abbrev pub Reads : Traced W → Type 0
  Reads = Sofar OnlyLooks

  pub Reads-safe : (t : Traced W) → Reads t → S t
  Reads-safe t h = looks-safe k ss target t.calls h

  -- the writer after nothing but reads
  write_desired-Safe :
      (a : SecretSync) (s : SecretSyncStatus) (desired : Option Secret)
      → a.uid ≡ ss.uid
      → Triple Reads (write_desired k (watched r) a target s desired) (λ _. S) S
  unfolding write_desired
  write_desired-Safe a s desired e = record {
    at = λ t h. after t (write_desired k (watched r) a target s desired t).0 (
        right-safe k ss target a (get target.data_key (contents_of desired)) s.synced_version e _ (
          create_or_update_after-AllRight k a target.namespace target.name target.data_key
            (get target.data_key (contents_of desired)) s.synced_version r.client r.api_reader t
            (looks-right k a target.namespace target.name target.data_key
              (get target.data_key (contents_of desired)) s.synced_version t.calls h)));
  }
    where
      after :
          (t : Traced W) (b : Result (Unit {0}))
          → S (write_desired k (watched r) a target s desired t).1
          → Ends (λ (u : Unit {0}). S) S (b, (write_desired k (watched r) a target s desired t).1)
      after t (ok u) h = h
      after t (err x) h = h

  pub apply_sync-Safe :
      (a : SecretSync) (previous : SecretSyncState) (prior : Prior) (s : SecretSyncStatus)
      (desired : Option Secret)
      → a.uid ≡ ss.uid
      → Triple Reads (apply_sync k (watched r) a previous target prior (s, desired)) (λ _. S) S
  unfolding apply_sync
  apply_sync-Safe a previous prior s desired e =
      Triple-if (is_failing s.state) _ _
        (Triple-pre _ Reads-safe
          (finish-Stays k r same ss target (AllSafe-Stays k ss target) a previous s e))
        (Triple-attempt (ensure_finalizer k (watched r) a)
          (continue (λ held.
            if needs_write prior s.synced_version desired
            then attempt (write_desired k (watched r) held target s desired)
                (answer_write k (watched r) held previous target s)
            else finish k (watched r) held previous target s))
          (ensure_finalizer-same k r same ss OnlyLooks a e)
          (λ held. Triple-given _ (λ g.
            Triple-if (needs_write prior s.synced_version desired) _ _
              (Triple-attempt (write_desired k (watched r) held target s desired)
                (answer_write k (watched r) held previous target s)
                (write_desired-Safe held s desired g)
                (λ u. answer_write-Safe held previous s (ok u) g)
                (λ x. answer_write-Safe held previous s (err x) g))
              (Triple-pre _ Reads-safe
                (finish-Stays k r same ss target (AllSafe-Stays k ss target) held previous s g))))
          (λ x. Triple-raise x Reads-safe))
