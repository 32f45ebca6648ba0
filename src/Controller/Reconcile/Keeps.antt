-- ===== src/Controller/Reconcile/Keeps.antt =====
-- What the calls after a write keep, the end of `Reconcile` keeps.
use kvsynk8s.Base.{String, ◌≢◌, ◌&&◌, Bool-cases, inl, inr, List, [], ◌∷◌, str_eq, eq_iff}
use kvsynk8s.Errors.{Result, ok, err, leaf, Leaf}
use kvsynk8s.Exec.Keeps.{
  Keeps, Keeps-pure, Keeps-raise, Keeps-attempt, Keeps-wrapped, Keeps-bind, Keeps-if, keeps_rules,
}
use kvsynk8s.Api.{SecretSync, SecretSyncStatus, SecretSyncState, Secret, is_in_sync, is_failing}
use kvsynk8s.Kube.{Kube, Deadline, status_persist_deadline}
use kvsynk8s.Sync.Writer.{label_managed_by, label_managed_by_value}
use kvsynk8s.Controller.{
  Observation, Reconciler, record_sync_outcome, set_ready_condition, reconcile_interval,
  retried_with_backoff,
}
use kvsynk8s.Controller.Removal.{
  ignore_gone, delete_if_owned, delete_each, delete_stale_managed_secrets,
}
use kvsynk8s.Controller.Reconcile.{Target, observe_all, after_outcome, finish}

-- the calls after the status write
pub record EndKeeps {W : Type 0} (P : W → Type 0) (r : Reconciler W) (target : Target)
    : Type 0 where
  pub lists : (namespace key value : String) → Keeps P (r.client.list_secrets namespace key value)
  pub deletes : (s : Secret) → s.name ≢ target.name → Keeps P (r.client.delete_secret s)
  pub observes : (o : Observation) (w : W) → P w → P (r.observe o w)

-- the calls after a write
pub record RestKeeps {W : Type 0} (P : W → Type 0) (r : Reconciler W) (target : Target)
    : Type 0 where
  pub statuses : (d : Deadline) (ss : SecretSync) → Keeps P (r.syncs.update_sync_status d ss)
  pub rest : EndKeeps P r target

module _ {W : Type 0} {P : W → Type 0} (k : Kube) (r : Reconciler W) (target : Target)
    (rest : EndKeeps P r target) where
  pub observe_all-Keeps : (os : List Observation) → Keeps P (observe_all k r os)
  unfolding observe_all
  observe_all-Keeps [] = record { at = λ w h. h }
  observe_all-Keeps (o ∷ os) = record {
    at = λ w h. (observe_all-Keeps os).at (r.observe o w) (rest.observes o w h);
  }

  ignore_gone-Keeps : (a : Result (Unit {0})) → Keeps P (ignore_gone k r.client a)
  unfolding ignore_gone
  ignore_gone-Keeps (ok _) = search keeps_rules
  ignore_gone-Keeps (err e) = search keeps_rules

  delete_if_owned-Keeps :
      (ss : SecretSync) (s : Secret)
      → s.name ≢ target.name
      → Keeps P (delete_if_owned k r.client ss s)
  unfolding delete_if_owned
  delete_if_owned-Keeps ss s other =
      Keeps-if _ _ _ (Keeps-attempt _ _ (rest.deletes s other) ignore_gone-Keeps) (Keeps-pure _)

  delete_each-Keeps :
      (ss : SecretSync) (secrets : List Secret)
      → Keeps P (delete_each k r.client ss target.name secrets)
  unfolding delete_each
  delete_each-Keeps ss [] = Keeps-pure _
  delete_each-Keeps ss (s ∷ secrets) = elim (Bool-cases (str_eq s.name target.name)) [
    | inl y ↦ rw y (delete_each-Keeps ss secrets)
    | inr n ↦
        let other : s.name ≢ target.name = λ p. cc (n, (eq_iff s.name target.name).1 p) in
        rw n (Keeps-bind _ _ (delete_if_owned-Keeps ss s other) (λ _. delete_each-Keeps ss secrets))
  ]

  delete_stale-Keeps :
      (ss : SecretSync) → Keeps P (delete_stale_managed_secrets k r.client ss target.name)
  unfolding delete_stale_managed_secrets
  delete_stale-Keeps ss =
      Keeps-bind _ _
        (Keeps-wrapped _ (rest.lists ss.namespace label_managed_by label_managed_by_value))
        (delete_each-Keeps ss)

  after_outcome-Keeps :
      (ss : SecretSync) (s : SecretSyncStatus) → Keeps P (after_outcome k r ss target s)
  unfolding after_outcome
  after_outcome-Keeps ss s =
      Keeps-bind _ _ (Keeps-if (is_in_sync s.state) _ _ (delete_stale-Keeps ss) (Keeps-pure tt))
        (λ _.
          Keeps-if (is_failing s.state && retried_with_backoff s.reason) _ _
            (Keeps-raise (leaf Leaf.plain)) (Keeps-pure (reconcile_interval r.interval)))

  -- the end of `Reconcile`, given what its status write keeps
  pub finish_stored-Keeps :
      (ss : SecretSync) (previous : SecretSyncState) (s : SecretSyncStatus)
      → Keeps P (
          r.syncs.update_sync_status status_persist_deadline
            (record ss { status = set_ready_condition k ss s }))
      → Keeps P (finish k r ss previous target s)
  unfolding finish
  finish_stored-Keeps ss previous s stores =
      let status = set_ready_condition k ss s in
      Keeps-bind _ _ (Keeps-wrapped _ stores) (λ stored.
        Keeps-bind _ _
          (observe_all-Keeps (record_sync_outcome r.recorder stored previous status target.name))
          (λ _. after_outcome-Keeps stored status))

pub finish-Keeps :
    {W : Type 0} {P : W → Type 0} (k : Kube) (r : Reconciler W) (target : Target)
    → RestKeeps P r target
    → (ss : SecretSync) (previous : SecretSyncState) (s : SecretSyncStatus)
    → Keeps P (finish k r ss previous target s)
finish-Keeps k r target keeps ss previous s =
    finish_stored-Keeps k r target keeps.rest ss previous s
      (keeps.statuses status_persist_deadline (record ss { status = set_ready_condition k ss s }))
