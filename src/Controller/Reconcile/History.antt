-- ===== src/Controller/Reconcile/History.antt =====
-- The statuses that a whole reconcile of an object that is not being deleted stores.
use kvsynk8s.Base.{◌≡◌, refl, Bool, some, List, [], ◌++◌, All, if◌then◌else◌, ℤ}
use kvsynk8s.Errors.{ok, err}
use kvsynk8s.Exec.{Exec, attempt, continue, ◌>>=◌}
use kvsynk8s.Exec.Triples.{
  Triple-always, Triple, Triple-pure, Triple-raise, Triple-given, Triple-attempt, Triple-bind,
  Triple-wrapped, Triple-if, Triple-keeps, Triple-known,
}
use kvsynk8s.Api.{SecretSync, SecretSyncStatus, SecretSyncState, is_unset, pending}
use kvsynk8s.Kube.{Kube, reconcile_deadline}
use kvsynk8s.Sync.Writer.{writer_reader}
use kvsynk8s.Sync.Engine.Fits.{Carries}
use kvsynk8s.Controller.{Reconciler, set_ready_condition, find_conflicting_owner}
use kvsynk8s.Controller.Reconcile.{Target, lose_conflict, with_target, mark_pending, reconcile_live}
use kvsynk8s.Controller.Reconcile.Sound.{IsSound, set_ready-IsSound, SameStatus, Journal}
use kvsynk8s.Controller.Reconcile.Stored.{AddsSound, apart, stores-Keeps, lose_conflict-Sound}
use kvsynk8s.Controller.Reconcile.Applied.{joined, with_target-Sound}

module _ {W : Type 0} (k : Kube) (r : Reconciler W) (same : SameStatus k r.syncs)
    (journal : Journal r (writer_reader r.client r.api_reader)) (ss : SecretSync)
    (old : List SecretSyncStatus) where
  abbrev Adds : W → Type 0
  Adds = AddsSound k r same journal ss old

  itself : Carries ss ss
  itself = record { generation = refl; last_sync_time = refl; synced_version = refl }

  mark_pending-Carries : Triple Adds (mark_pending k r ss) (λ a w. Carries ss a × Adds w) Adds
  unfolding mark_pending set_ready_condition
  mark_pending-Carries =
      let fresh : SecretSync = record ss { status = record ss.status { state = pending } } in
      let marked : SecretSync = record fresh {
        status = set_ready_condition k fresh fresh.status;
      } in
      Triple-if (is_unset ss.status.state) _ _
        (Triple-wrapped _ (
          Triple-known (Carries ss) (r.syncs.update_sync_status reconcile_deadline marked)
            (stores-Keeps k r same journal ss old reconcile_deadline marked
              (set_ready-IsSound k ss fresh fresh.status (refl, refl)))
            (λ u w v e.
              joined k r same journal ss old marked u
                (record { generation = refl; last_sync_time = refl; synced_version = refl })
                (same.status_updated reconcile_deadline marked u w v e))))
        (Triple-pure ss (λ w h. (itself, h)))

  find_conflicting-Adds :
      (a : SecretSync) → Triple Adds (find_conflicting_owner r.syncs a) (λ _. Adds) Adds
  unfolding find_conflicting_owner
  find_conflicting-Adds a =
      Triple-bind _ _
        (Triple-wrapped _ (
          Triple-keeps (r.syncs.list_syncs (some a.namespace))
            (apart k r same journal ss old _ (journal.list_syncs (some a.namespace)))))
        (λ items. Triple-pure _ (λ w h. h))

  reconcile_live-Triple :
      (previous : SecretSyncState) (target : Target)
      → Triple Adds (reconcile_live k r ss previous target) (λ _. Adds) Adds
  unfolding reconcile_live
  reconcile_live-Triple previous target =
      Triple-attempt (mark_pending k r ss)
        (continue (λ a. find_conflicting_owner r.syncs a >>= decided a)) mark_pending-Carries
        (λ a. Triple-given _ (λ c.
          Triple-bind (find_conflicting_owner r.syncs a) (decided a) (find_conflicting-Adds a)
            (λ conflicting.
              Triple-if conflicting _ _
                (Triple-keeps _ (lose_conflict-Sound k r same journal ss old a previous target c))
                (Triple-attempt (r.client.get_secret target.namespace target.name)
                  (with_target k r a previous target)
                  (Triple-keeps _ (
                    apart k r same journal ss old _
                      (journal.get_secret target.namespace target.name)))
                  (λ s. with_target-Sound k r same journal ss old a previous target (ok s) c)
                  (λ x. with_target-Sound k r same journal ss old a previous target (err x) c)))))
        (λ x. Triple-raise x (λ w h. h))
    where
      decided : SecretSync → Bool → Exec W ℤ
      decided a conflicting =
          if conflicting
          then lose_conflict k r a previous target
          else attempt (r.client.get_secret target.namespace target.name)
              (with_target k r a previous target)

-- Every status that a reconcile stores for its object is sound, whatever else is answered: the
-- statuses that it adds to the history have a state; `Pending` and `Failing` keep the last good time
-- and version of the fetched object, `Failing` has a reason and `InSync` a time and none; these two
-- observe the object's generation; and each has its own Ready condition. An Update of the object is
-- taken to give back its generation, and its last good time and version.
pub reconcile_live-IsSound :
    {W : Type 0} (k : Kube) (r : Reconciler W)
    → SameStatus k r.syncs
    → (journal : Journal r (writer_reader r.client r.api_reader)) (ss : SecretSync)
      (previous : SecretSyncState) (target : Target) (w : W)
    → (added : List SecretSyncStatus) × (journal.statuses
          (reconcile_live k r ss previous target w).1
        ≡ added ++ journal.statuses w)
      × All (IsSound k ss) added
reconcile_live-IsSound k r same journal ss previous target w =
    let p = reconcile_live k r ss previous target w in
    Triple-always (reconcile_live k r ss previous target)
      (reconcile_live-Triple k r same journal ss (journal.statuses w) previous target) w
      ([], refl, tt)
