-- ===== src/Controller/Reconcile/Reports.antt =====
-- A reconcile that ends in a report: the status is written and the outcome observed, and nothing else
-- is called.
use kvsynk8s.Base.{
  refl, false, ◌&&◌, ◌≡◌, true, Option, none, some, List, [], ◌∷◌, if◌then◌else◌, ℤ,
}
use kvsynk8s.Errors.{leaf, Leaf}
use kvsynk8s.Exec.{pure, raise, Exec, wrapped, ◌>>=◌}
use kvsynk8s.Exec.Triples.{
  Triple-always, Triple, Triple-pure, Triple-raise, Triple-bind, Triple-wrapped, Triple-if,
  Triple-keeps,
}
use kvsynk8s.Api.{is_in_sync, SecretSync, Secret, SecretSyncStatus, SecretSyncState, is_failing}
use kvsynk8s.Kube.{Kube, SecretReader, Deadline, status_persist_deadline}
use kvsynk8s.Sync.Engine.Keeps.{ReadsKeep}
use kvsynk8s.Sync.Writer.Trace.{Call, Traced}
use kvsynk8s.Controller.{
  Observation, Reconciler, set_ready_condition, reconcile_interval, record_sync_outcome,
  retried_with_backoff,
}
use kvsynk8s.Controller.Reconcile.{
  observe_all, Target, lose_conflict, finish, after_outcome, apply_sync, Prior,
}
use kvsynk8s.Controller.Reconcile.Watched.{watched, watched_vault}
use kvsynk8s.Controller.Reconcile.Calls.{Sofar, quiet-Keeps}
use kvsynk8s.Exec.Keeps.{Keeps}

failing_not_in_sync : (s : SecretSyncState) → is_failing s ≡ true → is_in_sync s ≡ false
failing_not_in_sync SecretSyncState.in_sync h = cc
failing_not_in_sync SecretSyncState.unset h = refl
failing_not_in_sync SecretSyncState.pending h = refl
failing_not_in_sync SecretSyncState.failing h = refl

-- what the calls of a report keep
pub record ReportsKeep {W : Type 0} (P : W → Type 0) (r : Reconciler W) : Type 0 where
  pub statuses : (d : Deadline) (ss : SecretSync) → Keeps P (r.syncs.update_sync_status d ss)
  pub observes : (o : Observation) (w : W) → P w → P (r.observe o w)

module _ {W : Type 0} {P : W → Type 0} (k : Kube) (r : Reconciler W)
    (reports : ReportsKeep P r) where
  status-Kept :
      (a : SecretSync) (f : SecretSync → Exec W ℤ)
      → ((b : SecretSync) → Triple P (f b) (λ _. P) P)
      → Triple P (wrapped (r.syncs.update_sync_status status_persist_deadline a) >>= f) (λ _. P) P
  status-Kept a f after =
      Triple-bind _ _
        (Triple-wrapped _ (Triple-keeps _ (reports.statuses status_persist_deadline a))) after

  observe_all-Kept : (os : List Observation) → Keeps P (observe_all k r os)
  unfolding observe_all
  observe_all-Kept [] = record { at = λ w h. h }
  observe_all-Kept (o ∷ os) = record {
    at = λ w h. (observe_all-Kept os).at (r.observe o w) (reports.observes o w h);
  }

  pub lose_conflict-Kept :
      (a : SecretSync) (previous : SecretSyncState) (target : Target)
      → Triple P (lose_conflict k r a previous target) (λ _. P) P
  unfolding lose_conflict
  lose_conflict-Kept a previous target = status-Kept _ _ (λ b.
      Triple-bind _ _
        (Triple-keeps _
          (observe_all-Kept (record_sync_outcome r.recorder b previous b.status target.name)))
        (λ _. Triple-pure (reconcile_interval r.interval) (λ t h. h)))

  failed_outcome-Kept :
      (a : SecretSync) (target : Target) (s : SecretSyncStatus)
      → is_failing s.state ≡ true
      → Triple P (after_outcome k r a target s) (λ _. P) P
  unfolding after_outcome
  failed_outcome-Kept a target s f = rw (failing_not_in_sync s.state f) (
      Triple-bind (pure tt)
        (λ _.
          if is_failing s.state && retried_with_backoff s.reason
          then raise (leaf Leaf.plain)
          else pure (reconcile_interval r.interval))
        (Triple-pure tt (λ w h. h))
        (λ _. Triple-if _ _ _ (Triple-raise _ (λ w h. h)) (Triple-pure _ (λ w h. h))))

  -- the end of a reconcile that failed
  pub finish_failing-Kept :
      (a : SecretSync) (previous : SecretSyncState) (target : Target) (s : SecretSyncStatus)
      → is_failing s.state ≡ true
      → Triple P (finish k r a previous target s) (λ _. P) P
  unfolding finish set_ready_condition
  finish_failing-Kept a previous target s f =
      let status = set_ready_condition k a s in
      status-Kept _ _ (λ b.
        Triple-bind _ _
          (Triple-keeps _
            (observe_all-Kept (record_sync_outcome r.recorder b previous status target.name)))
          (λ _. failed_outcome-Kept b target status f))

-- a report makes no call on a Secret
pub watched-ReportsKeep :
    {W : Type 0} (r : Reconciler W) (J : List Call → Type 0) → ReportsKeep (Sofar J) (watched r)
watched-ReportsKeep r J = record {
  statuses = λ d a. quiet-Keeps J (r.syncs.update_sync_status d a);
  observes = λ o t h. h;
}

-- nor does a read of the vault
pub watched-ReadsKeep :
    {W : Type 0} (k : Kube) (r : Reconciler W) (J : List Call → Type 0)
    (reader : Option (SecretReader W))
    → ReadsKeep {P = Sofar J} k (watched r).clock (λ t h. h) (watched_vault reader)
watched-ReadsKeep k r J none = tt
watched-ReadsKeep k r J (some v) = λ vault secret. quiet-Keeps J (v.get_latest vault secret)

module _ {W : Type 0} (k : Kube) (r : Reconciler W) where
  -- When `Sync` reports a failure, what follows in `Reconcile` makes no call on a Secret: nothing is
  -- written and nothing deleted, whatever else is answered.
  pub apply_sync-quiet :
      (ss : SecretSync) (previous : SecretSyncState) (target : Target) (prior : Prior)
      (status : SecretSyncStatus) (desired : Option Secret) (t : Traced W)
      → is_failing status.state ≡ true
      → (apply_sync k (watched r) ss previous target prior (status, desired) t).1.calls ≡ t.calls
  unfolding apply_sync
  apply_sync-quiet ss previous target prior status desired t f = rw f (
      Triple-always (finish k (watched r) ss previous target status)
        (finish_failing-Kept k (watched r) (watched-ReportsKeep r (λ calls. calls ≡ t.calls)) ss
          previous target status f)
        t refl)
