-- ===== src/Controller/Reconcile/Requeue.antt =====
-- How a reconcile ends: with an error, or with the time of the next one.
use kvsynk8s.Base.{
  ◌≡◌, refl, Bool, ◌&&◌, Bool-cases, inl, inr, Option, none, some, ◌∷◌, ℤ, if◌then◌else◌,
}
use kvsynk8s.Errors.{
  Err, Result, ok, err, leaf, wrap, Leaf, errors_is, is_not_found, is_target_immutable,
}
use kvsynk8s.Message.{text}
use kvsynk8s.Exec.{Exec, pure, raise, attempt, continue, wrapped, ◌>>=◌, ◌>>◌}
use kvsynk8s.Api.{
  SecretSync, SecretSyncStatus, SecretSyncState, Secret, is_failing, is_in_sync, target_conflict,
  secret_write_failed,
}
use kvsynk8s.Kube.{Kube, status_persist_deadline}
use kvsynk8s.Sync.Engine.{sync}
use kvsynk8s.Controller.{
  Reconciler, reconcile_interval, find_conflicting_owner, is_terminal_write_error,
  retried_with_backoff, set_ready_condition, record_sync_outcome,
}
use kvsynk8s.Controller.Removal.{delete_stale_managed_secrets}
use kvsynk8s.Controller.Reconcile.{
  Target, Prior, prior_of, needs_write, observe_all, after_outcome, finish, lose_conflict,
  persist_or_log, write_failed, write_refused, answer_write, ensure_finalizer, write_desired,
  apply_sync, sync_target, with_target, mark_pending, reconcile_live, own_failure, secret_at,
}

module _ {W : Type 0} (k : Kube) (r : Reconciler W) where
  -- an error, which the work queue retries with backoff, or a requeue after the interval
  abbrev pub Requeues : Result ℤ → Type 0
  Requeues (ok d) = d ≡ reconcile_interval r.interval
  Requeues (err e) = Unit

  continue-Requeues :
      {A : Type 0} (f : A → Exec W ℤ) (a : Result A) (w : W)
      → ((x : A) (v : W) → Requeues (f x v).0)
      → Requeues (continue f a w).0
  continue-Requeues f (ok x) w h = h x w
  continue-Requeues f (err e) w h = tt

  bind-Requeues :
      {A : Type 0} (m : Exec W A) (f : A → Exec W ℤ) (w : W)
      → ((x : A) (v : W) → Requeues (f x v).0)
      → Requeues ((m >>= f) w).0
  bind-Requeues m f w h = continue-Requeues f (m w).0 (m w).1 h

  after_outcome-Requeues :
      (ss : SecretSync) (target : Target) (status : SecretSyncStatus) (w : W)
      → Requeues (after_outcome k r ss target status w).0
  unfolding after_outcome
  after_outcome-Requeues ss target status w =
      bind-Requeues
        (if is_in_sync status.state
          then delete_stale_managed_secrets k r.client ss target.name
          else pure tt)
        (λ u.
          if is_failing status.state && retried_with_backoff status.reason
          then raise (leaf Leaf.plain)
          else pure (reconcile_interval r.interval))
        w
        (λ u v. elim (Bool-cases (is_failing status.state && retried_with_backoff status.reason)) [
          | inl y ↦ rw y tt
          | inr n ↦ rw n refl
        ])

  finish-Requeues :
      (ss : SecretSync) (previous : SecretSyncState) (target : Target) (computed : SecretSyncStatus)
      (w : W)
      → Requeues (finish k r ss previous target computed w).0
  unfolding finish
  finish-Requeues ss previous target computed w =
      let status = set_ready_condition k ss computed in
      bind-Requeues
        (wrapped
          (r.syncs.update_sync_status status_persist_deadline (record ss { status = status })))
        (λ stored.
          observe_all k r (record_sync_outcome r.recorder stored previous status target.name)
          >> after_outcome k r stored target status)
        w
        (λ stored v.
          bind-Requeues
            (observe_all k r (record_sync_outcome r.recorder stored previous status target.name))
            (λ u. after_outcome k r stored target status) v
            (λ u x. after_outcome-Requeues stored target status x))

  lose_conflict-Requeues :
      (ss : SecretSync) (previous : SecretSyncState) (target : Target) (w : W)
      → Requeues (lose_conflict k r ss previous target w).0
  unfolding lose_conflict
  lose_conflict-Requeues ss previous target w =
      let message = secret_at ss target.name " is already claimed by another SecretSync" in
      let status = set_ready_condition k ss (own_failure ss target_conflict message) in
      bind-Requeues
        (wrapped
          (r.syncs.update_sync_status status_persist_deadline (record ss { status = status })))
        (λ stored.
          observe_all k r (record_sync_outcome r.recorder stored previous stored.status target.name)
          >> pure (reconcile_interval r.interval))
        w
        (λ stored v.
          bind-Requeues
            (observe_all k r
              (record_sync_outcome r.recorder stored previous stored.status target.name))
            (λ u. pure (reconcile_interval r.interval)) v (λ u x. refl))

  write_refused-Requeues :
      (ss : SecretSync) (previous : SecretSyncState) (target : Target) (e : Err) (w : W)
      → Requeues (write_refused k r ss previous target e w).0
  unfolding write_refused observe_all
  write_refused-Requeues ss previous target e w =
      elim (Bool-cases (errors_is is_target_immutable e)) [
        | inl y ↦ rw y (finish-Requeues ss previous target _ _)
        | inr n ↦ rw n (finish-Requeues ss previous target _ w)
      ]

  write_failed-Requeues :
      (ss : SecretSync) (previous : SecretSyncState) (target : Target) (e : Err) (w : W)
      → Requeues (write_failed k r ss previous target e w).0
  unfolding write_failed
  write_failed-Requeues ss previous target e w =
      let message =
        text "failed writing " ∷ secret_at ss target.name "; keeping last synced value" in
      let status = set_ready_condition k ss (own_failure ss secret_write_failed message) in
      bind-Requeues (persist_or_log k r (record ss { status = status }) target)
        (λ stored.
          observe_all k r (record_sync_outcome r.recorder stored previous status target.name)
          >> raise (wrap e))
        w
        (λ stored v.
          bind-Requeues
            (observe_all k r (record_sync_outcome r.recorder stored previous status target.name))
            (λ u. raise (wrap e)) v (λ u x. tt))

  answer_write-Requeues :
      (ss : SecretSync) (previous : SecretSyncState) (target : Target) (status : SecretSyncStatus)
      (a : Result (Unit {0})) (w : W)
      → Requeues (answer_write k r ss previous target status a w).0
  unfolding answer_write
  answer_write-Requeues ss previous target status (ok u) w =
      finish-Requeues ss previous target status w
  answer_write-Requeues ss previous target status (err e) w =
      elim (Bool-cases (is_terminal_write_error e)) [
        | inl y ↦ rw y (write_refused-Requeues ss previous target e w)
        | inr n ↦ rw n (write_failed-Requeues ss previous target e w)
      ]

  apply_sync-Requeues :
      (ss : SecretSync) (previous : SecretSyncState) (target : Target) (prior : Prior)
      (p : SecretSyncStatus × Option Secret) (w : W)
      → Requeues (apply_sync k r ss previous target prior p w).0
  unfolding apply_sync
  apply_sync-Requeues ss previous target prior (status, desired) w =
      elim (Bool-cases (is_failing status.state)) [
        | inl y ↦ rw y (finish-Requeues ss previous target status w)
        | inr n ↦ rw n (
            bind-Requeues (ensure_finalizer k r ss)
              (λ held.
                if needs_write prior status.synced_version desired
                then attempt (write_desired k r held target status desired)
                    (answer_write k r held previous target status)
                else finish k r held previous target status)
              w
              (λ held v. elim (Bool-cases (needs_write prior status.synced_version desired)) [
                | inl y ↦ rw y (
                    let (a, x) = write_desired k r held target status desired v in
                    answer_write-Requeues held previous target status a x)
                | inr m ↦ rw m (finish-Requeues held previous target status v)
              ]))
      ]

  sync_target-Requeues :
      (ss : SecretSync) (previous : SecretSyncState) (target : Target) (existing : Option Secret)
      (w : W)
      → Requeues (sync_target k r ss previous target existing w).0
  unfolding sync_target
  sync_target-Requeues ss previous target existing w =
      bind-Requeues (wrapped (sync k r.clock r.reader ss existing))
        (λ p. apply_sync k r ss previous target (prior_of k ss existing) p) w
        (λ p v. apply_sync-Requeues ss previous target (prior_of k ss existing) p v)

  with_target-Requeues :
      (ss : SecretSync) (previous : SecretSyncState) (target : Target) (a : Result Secret) (w : W)
      → Requeues (with_target k r ss previous target a w).0
  unfolding with_target
  with_target-Requeues ss previous target (ok s) w =
      sync_target-Requeues ss previous target (some s) w
  with_target-Requeues ss previous target (err e) w = elim (Bool-cases (errors_is is_not_found e)) [
    | inl y ↦ rw y (sync_target-Requeues ss previous target none w)
    | inr n ↦ rw n tt
  ]

  -- A reconcile of an object that is not being deleted returns an error, which is retried with
  -- backoff, or asks for the next reconcile after the interval: on no branch is the object dropped.
  pub reconcile_live-Requeues :
      (fetched : SecretSync) (previous : SecretSyncState) (target : Target) (w : W)
      → Requeues (reconcile_live k r fetched previous target w).0
  unfolding reconcile_live
  reconcile_live-Requeues fetched previous target w =
      bind-Requeues (mark_pending k r fetched)
        (λ ss. find_conflicting_owner r.syncs ss >>= decide ss) w
        (λ ss v. bind-Requeues (find_conflicting_owner r.syncs ss) (decide ss) v (λ conflicting x.
          elim (Bool-cases conflicting) [
            | inl y ↦ rw y (lose_conflict-Requeues ss previous target x)
            | inr n ↦ rw n (
                let (a, u) = r.client.get_secret target.namespace target.name x in
                with_target-Requeues ss previous target a u)
          ]))
    where
      decide : SecretSync → Bool → Exec W ℤ
      decide ss conflicting =
          if conflicting
          then lose_conflict k r ss previous target
          else attempt (r.client.get_secret target.namespace target.name)
              (with_target k r ss previous target)
