-- ===== src/Controller/Reconcile.antt =====
-- `Reconcile` of internal/controller/secretsync_controller.go, cut where it decides. `Result{}` is
-- a `requeue_after` of zero. The context of the status writes is the argument `Deadline`; the
-- timeouts themselves are not modelled: a call that runs out of time returns an error.
pub mod Inputs
pub mod Requeue
pub mod Watched
pub mod Calls
pub mod Finish
pub mod Safe
pub mod Live
pub mod Steady
pub mod Keeps
pub mod Fetched
pub mod Undisturbed
pub mod Written
pub mod Converges
pub mod Reports
pub mod Blocked
pub mod Claims
pub mod Rivals
pub mod Orderly
pub mod Sound
pub mod Stored
pub mod Applied
pub mod History
use kvsynk8s.Base.{
  ℕ, String, Bool, true, false, not, ◌&&◌, ◌||◌, Option, none, some, List, [], ◌∷◌, ◌++◌, Dict,
  lookup, get, str_eq, if◌then◌else◌, ℤ, pos,
}
use kvsynk8s.Errors.{
  Err, Result, ok, err, leaf, wrap, Leaf, errors_is, is_not_found, is_target_immutable,
}
use kvsynk8s.Message.{Message, text}
use kvsynk8s.Exec.{Exec, pure, raise, attempt, wrapped, ◌>>=◌, ◌>>◌}
use kvsynk8s.Api.{
  SecretSync, SecretSyncStatus, SecretSyncState, pending, failing, Reason, Secret, is_failing,
  is_in_sync, is_unset, target_conflict, target_immutable, secret_write_failed,
}
use kvsynk8s.Kube.{Kube, Deadline, reconcile_deadline, status_persist_deadline}
use kvsynk8s.Sync.Writer.{annotation_version, controller_owned_by, create_or_update}
use kvsynk8s.Sync.Engine.{sync}
use kvsynk8s.Controller.{
  finalizer_name, Observation, logged, Reconciler, reconcile_interval, resolve_target_name,
  resolve_data_key, find_conflicting_owner, is_terminal_write_error, retried_with_backoff,
  set_ready_condition, record_sync_outcome, equal_data,
}
pub use kvsynk8s.Controller.Reconcile.Inputs.{secret_at, Target, Prior, contents_of}
unfoldable pub use kvsynk8s.Controller.Reconcile.Inputs.{
  own_failure, resolve_target, prior_of, needs_write,
}
use kvsynk8s.Controller.Removal.{reconcile_delete, delete_stale_managed_secrets}

abbrev target_fields : Target → List (String × Message)
target_fields t = ("namespace", text t.namespace ∷ []) ∷ ("name", text t.name ∷ []) ∷ []

abbrev immutable_hint : String
immutable_hint =
    "target secret is immutable, so its value can no longer be rotated; delete the Secret to resume syncing (immutable cannot be unset in place)"

module _ {W : Type 0} (k : Kube) (r : Reconciler W) where
  unfoldable pub observe_all : List Observation → Exec W (Unit {0})
  observe_all [] w = (ok tt, w)
  observe_all (o ∷ os) w = observe_all os (r.observe o w)

  after_outcome : SecretSync → Target → SecretSyncStatus → Exec W ℤ
  after_outcome ss target status = do
    if is_in_sync status.state
        then delete_stale_managed_secrets k r.client ss target.name
        else pure tt
    if is_failing status.state && retried_with_backoff status.reason
        then raise (leaf Leaf.plain)
        else pure (reconcile_interval r.interval)

  -- the end of `Reconcile`, from `setReadyCondition` on
  unfoldable pub finish : SecretSync → SecretSyncState → Target → SecretSyncStatus → Exec W ℤ
  unfolding after_outcome observe_all
  finish ss previous target computed = do
    let status = set_ready_condition k ss computed
    stored ←
        wrapped (r.syncs.update_sync_status status_persist_deadline (record ss { status = status }))
    observe_all (record_sync_outcome r.recorder stored previous status target.name)
    after_outcome stored target status

  -- the branch of another SecretSync that claims the target
  unfoldable pub lose_conflict : SecretSync → SecretSyncState → Target → Exec W ℤ
  unfolding own_failure observe_all
  lose_conflict ss previous target = do
    let message = secret_at ss target.name " is already claimed by another SecretSync"
    let status = set_ready_condition k ss (own_failure ss target_conflict message)
    stored ←
        wrapped (r.syncs.update_sync_status status_persist_deadline (record ss { status = status }))
    observe_all (record_sync_outcome r.recorder stored previous stored.status target.name)
    pure (reconcile_interval r.interval)

  settle_persist : SecretSync → Target → Result SecretSync → Exec W SecretSync
  unfolding observe_all
  settle_persist ss target (ok stored) = pure stored
  settle_persist ss target (err e) = do
    observe_all (
        logged "failed to persist Failing status after a secret write error" (target_fields target)
        ∷ [])
    pure ss

  -- a status write whose error is only logged
  persist_or_log : SecretSync → Target → Exec W SecretSync
  unfolding settle_persist
  persist_or_log ss target =
      attempt (r.syncs.update_sync_status status_persist_deadline ss) (settle_persist ss target)

  -- the branch of a write error that a retry may clear
  write_failed : SecretSync → SecretSyncState → Target → Err → Exec W ℤ
  unfolding own_failure observe_all persist_or_log
  write_failed ss previous target e = do
    let message = text "failed writing " ∷ secret_at ss target.name "; keeping last synced value"
    let status = set_ready_condition k ss (own_failure ss secret_write_failed message)
    stored ← persist_or_log (record ss { status = status }) target
    observe_all (record_sync_outcome r.recorder stored previous status target.name)
    raise (wrap e)

  -- the branch of a write error that no retry clears
  write_refused : SecretSync → SecretSyncState → Target → Err → Exec W ℤ
  unfolding own_failure observe_all finish
  write_refused ss previous target e =
      if errors_is is_target_immutable e
      then (do
        observe_all (logged immutable_hint (target_fields target) ∷ [])
        finish ss previous target (
            own_failure ss target_immutable (
              secret_at ss target.name
                " is immutable and cannot be updated; keeping last synced value")))
      else finish ss previous target (
          own_failure ss target_conflict
            (secret_at ss target.name " already exists and is not managed by kvsynk8s"))

  pub answer_write :
      SecretSync → SecretSyncState → Target → SecretSyncStatus → Result (Unit {0}) → Exec W ℤ
  unfolding write_failed write_refused finish
  answer_write ss previous target status (ok _) = finish ss previous target status
  answer_write ss previous target status (err e) =
      if is_terminal_write_error e
      then write_refused ss previous target e
      else write_failed ss previous target e

  pub ensure_finalizer : SecretSync → Exec W SecretSync
  ensure_finalizer ss =
      if k.contains_finalizer ss finalizer_name
      then pure ss
      else wrapped (r.syncs.update_sync (k.add_finalizer ss finalizer_name))

  pub write_desired : SecretSync → Target → SecretSyncStatus → Option Secret → Exec W (Unit {0})
  write_desired ss target status desired =
      create_or_update k (record { client = some r.client; reader = r.api_reader }) ss
        target.namespace target.name target.data_key (get target.data_key (contents_of desired))
        status.synced_version

  -- `Reconcile` after `Sync`
  unfoldable pub apply_sync :
      SecretSync → SecretSyncState → Target → Prior → SecretSyncStatus × Option Secret → Exec W ℤ
  unfolding finish ensure_finalizer write_desired answer_write
  apply_sync ss previous target prior (status, desired) =
      if is_failing status.state then finish ss previous target status else do
        held ← ensure_finalizer ss
        if needs_write prior status.synced_version desired
            then attempt (write_desired held target status desired)
                (answer_write held previous target status)
            else finish held previous target status

  sync_target : SecretSync → SecretSyncState → Target → Option Secret → Exec W ℤ
  unfolding apply_sync prior_of
  sync_target ss previous target existing = do
    result ← wrapped (sync k r.clock r.reader ss existing)
    apply_sync ss previous target (prior_of k ss existing) result

  pub with_target : SecretSync → SecretSyncState → Target → Result Secret → Exec W ℤ
  unfolding sync_target
  with_target ss previous target (ok fetched) = sync_target ss previous target (some fetched)
  with_target ss previous target (err e) =
      if errors_is is_not_found e then sync_target ss previous target none else raise (wrap e)

  mark_pending : SecretSync → Exec W SecretSync
  mark_pending ss =
      if is_unset ss.status.state
      then (let fresh = record ss { status = record ss.status { state = pending } } in
          wrapped (
            r.syncs.update_sync_status reconcile_deadline
              (record fresh { status = set_ready_condition k fresh fresh.status })))
      else pure ss

  -- `Reconcile` of an object that is not being deleted
  unfoldable pub reconcile_live : SecretSync → SecretSyncState → Target → Exec W ℤ
  unfolding mark_pending lose_conflict with_target
  reconcile_live fetched previous target = do
    ss ← mark_pending fetched
    conflicting ← find_conflicting_owner r.syncs ss
    if conflicting
        then lose_conflict ss previous target
        else attempt (r.client.get_secret target.namespace target.name)
            (with_target ss previous target)

  -- the branch on the deletion timestamp
  reconcile_found : SecretSync → Option ℕ → Exec W ℤ
  unfolding reconcile_live
  reconcile_found ss (some t) =
      let target = resolve_target ss in
      reconcile_delete k r.client r.syncs ss target.namespace target.name >> pure (pos 0)
  reconcile_found ss none = reconcile_live ss ss.status.state (resolve_target ss)

  dispatch : Result SecretSync → Exec W ℤ
  unfolding reconcile_found
  dispatch (err e) = if errors_is is_not_found e then pure (pos 0) else raise (wrap e)
  dispatch (ok ss) = reconcile_found ss ss.deletion_timestamp

  unfoldable pub reconcile : String → String → Exec W ℤ
  unfolding dispatch
  reconcile namespace name = attempt (r.syncs.get_sync namespace name) dispatch
