-- ===== src/Controller/Reconcile/Stored.antt =====
-- Every status that a reconcile stores is sound.
use kvsynk8s.Base.{◌≡◌, ◌≢◌, ◌∙◌, ap, inl, inr, List, [], ◌∷◌, ◌++◌, All}
use kvsynk8s.Errors.{Err, Result, ok, err, errors_is, is_target_immutable, wrap}
use kvsynk8s.Message.{Message, text}
use kvsynk8s.Exec.{Exec}
use kvsynk8s.Exec.Keeps.{
  Keeps, Keeps-pure, Keeps-raise, Keeps-attempt, Keeps-wrapped, Keeps-bind, Keeps-if,
}
use kvsynk8s.Api.{
  SecretSync, SecretSyncStatus, SecretSyncState, failing, Reason, no_reason, target_conflict,
  target_immutable, secret_write_failed,
}
use kvsynk8s.Kube.{Kube, Deadline, status_persist_deadline}
use kvsynk8s.Sync.Writer.{writer_reader}
use kvsynk8s.Sync.Writer.Keeps.{CallsKeep}
use kvsynk8s.Sync.Engine.Fits.{Carries, FitsAt}
use kvsynk8s.Controller.{
  Reconciler, Observation, logged, set_ready_condition, record_sync_outcome, reconcile_interval,
  is_terminal_write_error,
}
use kvsynk8s.Controller.Reconcile.{
  Target, secret_at, target_fields, immutable_hint, own_failure, observe_all, finish, lose_conflict,
  settle_persist, persist_or_log, write_failed, write_refused, answer_write,
}
use kvsynk8s.Controller.Reconcile.Keeps.{EndKeeps, observe_all-Keeps, finish_stored-Keeps}
use kvsynk8s.Controller.Reconcile.Sound.{IsSound, set_ready-IsSound, SameStatus, Journal}

module _ {W : Type 0} (k : Kube) (r : Reconciler W) (same : SameStatus k r.syncs)
    (journal : Journal r (writer_reader r.client r.api_reader)) (base : SecretSync)
    (old : List SecretSyncStatus) where
  -- what has been stored since is sound
  abbrev pub AddsSound : W → Type 0
  AddsSound w =
      (added : List SecretSyncStatus) × (journal.statuses w ≡ added ++ old)
      × All (IsSound k base) added

  pub apart :
      {A : Type 0} (m : Exec W A)
      → ((w : W) → journal.statuses (m w).1 ≡ journal.statuses w)
      → Keeps AddsSound m
  apart m e = record { at = λ w (added, is, h). (added, e w ∙ is, h) }

  pub stores-Keeps :
      (d : Deadline) (a : SecretSync)
      → IsSound k base a.status
      → Keeps AddsSound (r.syncs.update_sync_status d a)
  stores-Keeps d a sound = record {
    at = λ w (added, is, h). elim (journal.stores d a w) [
      | inl e ↦ (a.status ∷ added, e ∙ ap (λ l. a.status ∷ l) is, (sound, h))
      | inr e ↦ (added, e ∙ is, h)
    ];
  }

  ending : (target : Target) → EndKeeps AddsSound r target
  ending target = record {
    lists = λ ns key value. apart _ (journal.list_secrets ns key value);
    deletes = λ s other. apart _ (journal.delete_secret s);
    observes = λ o w (added, is, h). (added, journal.observe o w ∙ is, h);
  }

  pub writing : CallsKeep AddsSound r.client (writer_reader r.client r.api_reader)
  writing = record {
    gets = λ ns name. apart _ (journal.get_secret ns name);
    creates = λ s. apart _ (journal.create_secret s);
    updates = λ s. apart _ (journal.update_secret s);
    reads = λ ns name. apart _ (journal.read_secret ns name);
  }

  reports-Keeps : (target : Target) (os : List Observation) → Keeps AddsSound (observe_all k r os)
  reports-Keeps target os = observe_all-Keeps k r target (ending target) os

  own_failure-Fits :
      (a : SecretSync) (why : Reason) (message : Message)
      → Carries base a
      → why ≢ no_reason
      → FitsAt base failing (own_failure a why message)
  unfolding own_failure
  own_failure-Fits a why message c n = (n, c.generation, c.last_sync_time, c.synced_version)

  pub finish-Sound :
      (a : SecretSync) (previous : SecretSyncState) (target : Target) (s : SecretSyncStatus)
      → FitsAt base s.state s
      → Keeps AddsSound (finish k r a previous target s)
  finish-Sound a previous target s fits =
      finish_stored-Keeps k r target (ending target) a previous s (
        stores-Keeps status_persist_deadline (record a { status = set_ready_condition k a s })
          (set_ready-IsSound k base a s fits))

  pub lose_conflict-Sound :
      (a : SecretSync) (previous : SecretSyncState) (target : Target)
      → Carries base a
      → Keeps AddsSound (lose_conflict k r a previous target)
  unfolding lose_conflict
  lose_conflict-Sound a previous target c =
      let message = secret_at a target.name " is already claimed by another SecretSync" in
      Keeps-bind _ _
        (Keeps-wrapped _ (
          stores-Keeps status_persist_deadline _ (
            set_ready-IsSound k base a (own_failure a target_conflict message)
              (own_failure-Fits a target_conflict message c (λ e. cc)))))
        (λ stored.
          Keeps-bind _ _
            (reports-Keeps target
              (record_sync_outcome r.recorder stored previous stored.status target.name))
            (λ _. Keeps-pure (reconcile_interval r.interval)))

  settle_persist-Keeps :
      (a : SecretSync) (target : Target) (b : Result SecretSync)
      → Keeps AddsSound (settle_persist k r a target b)
  unfolding settle_persist
  settle_persist-Keeps a target (ok stored) = Keeps-pure stored
  settle_persist-Keeps a target (err e) =
      Keeps-bind _ _
        (reports-Keeps target (
          logged "failed to persist Failing status after a secret write error"
            (target_fields target)
          ∷ []))
        (λ _. Keeps-pure a)

  write_failed-Sound :
      (a : SecretSync) (previous : SecretSyncState) (target : Target) (e : Err)
      → Carries base a
      → Keeps AddsSound (write_failed k r a previous target e)
  unfolding write_failed persist_or_log
  write_failed-Sound a previous target e c =
      let message =
        text "failed writing " ∷ secret_at a target.name "; keeping last synced value" in
      let status = set_ready_condition k a (own_failure a secret_write_failed message) in
      Keeps-bind _ _
        (Keeps-attempt _ _
          (stores-Keeps status_persist_deadline (record a { status = status })
            (set_ready-IsSound k base a (own_failure a secret_write_failed message)
              (own_failure-Fits a secret_write_failed message c (λ e. cc))))
          (settle_persist-Keeps (record a { status = status }) target))
        (λ stored.
          Keeps-bind _ _
            (reports-Keeps target
              (record_sync_outcome r.recorder stored previous status target.name))
            (λ _. Keeps-raise (wrap e)))

  write_refused-Sound :
      (a : SecretSync) (previous : SecretSyncState) (target : Target) (e : Err)
      → Carries base a
      → Keeps AddsSound (write_refused k r a previous target e)
  unfolding write_refused
  write_refused-Sound a previous target e c =
      let immutable =
        secret_at a target.name " is immutable and cannot be updated; keeping last synced value" in
      let taken = secret_at a target.name " already exists and is not managed by kvsynk8s" in
      Keeps-if (errors_is is_target_immutable e) _ _
        (Keeps-bind _ _ (reports-Keeps target (logged immutable_hint (target_fields target) ∷ []))
          (λ _.
            finish-Sound a previous target (own_failure a target_immutable immutable)
              (own_failure-Fits a target_immutable immutable c (λ e. cc))))
        (finish-Sound a previous target (own_failure a target_conflict taken)
          (own_failure-Fits a target_conflict taken c (λ e. cc)))

  pub answer_write-Sound :
      (a : SecretSync) (previous : SecretSyncState) (target : Target) (s : SecretSyncStatus)
      (b : Result (Unit {0}))
      → Carries base a
      → FitsAt base s.state s
      → Keeps AddsSound (answer_write k r a previous target s b)
  unfolding answer_write
  answer_write-Sound a previous target s (ok u) c fits = finish-Sound a previous target s fits
  answer_write-Sound a previous target s (err e) c fits =
      Keeps-if (is_terminal_write_error e) _ _ (write_refused-Sound a previous target e c)
        (write_failed-Sound a previous target e c)
