-- ===== src/Controller/Reconcile/Live.antt =====
-- The calls on Secrets of a whole reconcile of an object that is not being deleted.
use kvsynk8s.Base.{◌≡◌, refl, ◌∙◌, Bool, Option, none, some, List, if◌then◌else◌, ℤ}
use kvsynk8s.Errors.{Result, ok, err, errors_is, is_not_found, wrap}
use kvsynk8s.Exec.{Exec, attempt, continue, wrapped, ◌>>=◌}
use kvsynk8s.Exec.Triples.{
  Triple-always, Triple, Triple-pure, Triple-raise, Triple-given, Triple-pre, Triple-post,
  Triple-attempt, Triple-bind, Triple-wrapped, Triple-if, Triple-keeps,
}
use kvsynk8s.Api.{SecretSync, SecretSyncState, Secret, is_unset, pending}
use kvsynk8s.Kube.{Kube, reconcile_deadline}
use kvsynk8s.Sync.Writer.Trace.{Call, Traced, start, log_look}
use kvsynk8s.Sync.Engine.{sync}
use kvsynk8s.Sync.Engine.Keeps.{sync-Keeps}
use kvsynk8s.Controller.{Reconciler, set_ready_condition, find_conflicting_owner}
use kvsynk8s.Controller.Reconcile.{
  Target, apply_sync, sync_target, with_target, mark_pending, reconcile_live, lose_conflict,
  prior_of,
}
use kvsynk8s.Controller.Reconcile.Reports.{watched-ReadsKeep}
use kvsynk8s.Controller.Reconcile.Watched.{watched}
use kvsynk8s.Controller.Reconcile.Calls.{
  AllSafe-Stays, SameObject, AllSafe, OnlyLooks, quiet-Keeps, quiet-same,
}
use kvsynk8s.Controller.Reconcile.Finish.{lose_conflict-Stays}
use kvsynk8s.Controller.Reconcile.Safe.{S, Reads, Reads-safe, apply_sync-Safe}

module _ {W : Type 0} (k : Kube) (r : Reconciler W) (same : SameObject k r.syncs) (ss : SecretSync)
    (target : Target) where
  abbrev Before : Traced W → Type 0
  Before = Reads k r same ss target

  abbrev Safe : Traced W → Type 0
  Safe = S k r same ss target

  sync_target-Safe :
      (a : SecretSync) (previous : SecretSyncState) (existing : Option Secret)
      → a.uid ≡ ss.uid
      → Triple Before (sync_target k (watched r) a previous target existing) (λ _. Safe) Safe
  unfolding sync_target
  sync_target-Safe a previous existing e =
      Triple-attempt (wrapped (sync k (watched r).clock (watched r).reader a existing))
        (continue (apply_sync k (watched r) a previous target (prior_of k a existing)))
        (Triple-wrapped _ (
          Triple-keeps _ (
            sync-Keeps k (watched r).clock (λ t h. h) (watched r).reader
              (watched-ReadsKeep k r OnlyLooks r.reader) a existing)))
        (λ (s, desired).
          apply_sync-Safe k r same ss target a previous (prior_of k a existing) s desired e)
        (λ x. Triple-raise x (Reads-safe k r same ss target))

  with_target-Safe :
      (a : SecretSync) (previous : SecretSyncState) (existing : Result Secret)
      → a.uid ≡ ss.uid
      → Triple Before (with_target k (watched r) a previous target existing) (λ _. Safe) Safe
  unfolding with_target
  with_target-Safe a previous (ok s) e = sync_target-Safe a previous (some s) e
  with_target-Safe a previous (err x) e =
      Triple-if (errors_is is_not_found x) _ _ (sync_target-Safe a previous none e)
        (Triple-raise (wrap x) (Reads-safe k r same ss target))

  mark_pending-Reads :
      (a : SecretSync)
      → a.uid ≡ ss.uid
      → Triple Before (mark_pending k (watched r) a) (λ u t. (u.uid ≡ ss.uid) × Before t) Before
  unfolding mark_pending
  mark_pending-Reads a e =
      let fresh : SecretSync = record a { status = record a.status { state = pending } } in
      let marked : SecretSync = record fresh {
        status = set_ready_condition k fresh fresh.status;
      } in
      Triple-if (is_unset a.status.state) _ _
        (Triple-wrapped _ (
          Triple-post _
            (quiet-same OnlyLooks marked (r.syncs.update_sync_status reconcile_deadline marked)
              (same.status_uid reconcile_deadline marked))
            (λ u t (g, h). (g ∙ e, h)) (λ t h. h)))
        (Triple-pure a (λ t h. (e, h)))

  find_conflicting-Reads :
      (a : SecretSync)
      → Triple Before (find_conflicting_owner (watched r).syncs a) (λ _. Before) Before
  unfolding find_conflicting_owner
  find_conflicting-Reads a =
      Triple-bind _ _
        (Triple-wrapped _
          (Triple-keeps _ (quiet-Keeps OnlyLooks (r.syncs.list_syncs (some a.namespace)))))
        (λ items. Triple-pure _ (λ t h. h))

  log_look-OnlyLooks :
      (b : Result Secret) (calls : List Call) → OnlyLooks calls → OnlyLooks (log_look b calls)
  log_look-OnlyLooks (ok s) calls h = h
  log_look-OnlyLooks (err e) calls h = h

  look_target-Reads :
      Triple Before
        ((watched r).client.get_secret target.namespace target.name)
        (λ _. Before)
        Before
  look_target-Reads = Triple-keeps _ (record {
    at = λ t h.
        log_look-OnlyLooks (r.client.get_secret target.namespace target.name t.world).0 t.calls h;
  })

  reconcile_live-Triple :
      (previous : SecretSyncState)
      → Triple Before (reconcile_live k (watched r) ss previous target) (λ _. Safe) Safe
  unfolding reconcile_live
  reconcile_live-Triple previous =
      Triple-attempt (mark_pending k (watched r) ss)
        (continue (λ a. find_conflicting_owner (watched r).syncs a >>= decided a))
        (mark_pending-Reads ss refl)
        (λ a. Triple-given _ (λ e.
          Triple-attempt (find_conflicting_owner (watched r).syncs a) (continue (decided a))
            (find_conflicting-Reads a)
            (λ conflicting.
              Triple-if conflicting _ _
                (Triple-pre _ (Reads-safe k r same ss target)
                  (lose_conflict-Stays k r same ss target (AllSafe-Stays k ss target) a previous e))
                (Triple-attempt ((watched r).client.get_secret target.namespace target.name)
                  (with_target k (watched r) a previous target) look_target-Reads
                  (λ s. with_target-Safe a previous (ok s) e)
                  (λ x. with_target-Safe a previous (err x) e)))
            (λ x. Triple-raise x (Reads-safe k r same ss target))))
        (λ x. Triple-raise x (Reads-safe k r same ss target))
    where
      decided : SecretSync → Bool → Exec (Traced W) ℤ
      decided a conflicting =
          if conflicting
          then lose_conflict k (watched r) a previous target
          else attempt ((watched r).client.get_secret target.namespace target.name)
              (with_target k (watched r) a previous target)

  -- Whatever the cluster, the vault and the API server answer, a reconcile of a SecretSync writes
  -- and deletes only what it may: each Secret that it creates or updates is right for an object with
  -- its UID, and each that it deletes is controlled by it and is not its target. An Update of the
  -- object is taken to give back its UID.
  pub reconcile_live-AllSafe :
      (previous : SecretSyncState) (w : W)
      → AllSafe k ss target (reconcile_live k (watched r) ss previous target (start w)).1.calls
  reconcile_live-AllSafe previous w =
      let p = reconcile_live k (watched r) ss previous target (start w) in
      Triple-always (reconcile_live k (watched r) ss previous target)
        (reconcile_live-Triple previous) (start w) tt
