-- ===== src/Controller/Reconcile/Blocked.antt =====
-- A reconcile that cannot go on to a write: the vault cannot be read, or the finalizer cannot be
-- stored.
use kvsynk8s.Base.{◌≡◌, true, false, Option, none, some, Bool-cases, inl, inr, ◌⊎◌, if◌then◌else◌}
use kvsynk8s.Errors.{Result, ok, err, errors_is, is_not_found}
use kvsynk8s.Exec.{attempt, continue, wrapped, ◌>>=◌}
use kvsynk8s.Exec.Triples.{
  Triple-always, Ends, Triple, Triple-pure, Triple-raise, Triple-given, Triple-post, Triple-attempt,
  Triple-bind, Triple-wrapped, Triple-if, Triple-keeps,
}
use kvsynk8s.Api.{SecretSync, SecretSyncStatus, SecretSyncState, Secret, is_failing, is_unset}
use kvsynk8s.Kube.{Kube, SecretReader, reconcile_deadline}
use kvsynk8s.Sync.Engine.Unread.{Fails, sync-Reported}
use kvsynk8s.Sync.Engine.Keeps.{sync-Keeps}
use kvsynk8s.Sync.Engine.{sync}
use kvsynk8s.Sync.Writer.Trace.{log_look, Traced, start}
use kvsynk8s.Controller.{Reconciler, find_conflicting_owner, finalizer_name}
use kvsynk8s.Controller.Removal.Safety.{quiet}
use kvsynk8s.Controller.Reconcile.{
  Target, Prior, apply_sync, sync_target, with_target, mark_pending, reconcile_live, lose_conflict,
  prior_of, ensure_finalizer,
}
use kvsynk8s.Controller.Reconcile.Watched.{watched}
use kvsynk8s.Controller.Reconcile.Calls.{OnlyLooks, Sofar, quiet-Keeps, quiet-Triple}
use kvsynk8s.Controller.Reconcile.Reports.{
  watched-ReportsKeep, watched-ReadsKeep, finish_failing-Kept, lose_conflict-Kept,
}

-- Why `a` cannot be synced: every read of its vault's secret fails, or it does not have the finalizer
-- and no Update that adds it succeeds.
pub data Blocked {W : Type 0} (k : Kube) (r : Reconciler W) (a : SecretSync) : Type 0 where
  unread :
      (v : SecretReader W)
      → r.reader ≡ some v
      → ((w : W) → Fails (v.get_latest a.spec.vault.name a.spec.vault.secret w).0)
      → Blocked k r a
  unheld :
      k.contains_finalizer a finalizer_name ≡ false
      → ((w : W) → Fails (r.syncs.update_sync (k.add_finalizer a finalizer_name) w).0)
      → Blocked k r a

module _ {W : Type 0} (k : Kube) (r : Reconciler W) (target : Target) where
  abbrev Looking : Traced W → Type 0
  Looking = Sofar OnlyLooks

  -- the result of a `Sync` that may not be written
  abbrev Barred : SecretSync → SecretSyncStatus → Type 0
  Barred a status =
      (is_failing status.state ≡ true)
      ⊎ ((k.contains_finalizer a finalizer_name ≡ false)
          × ((w : W) → Fails (r.syncs.update_sync (k.add_finalizer a finalizer_name) w).0))

  applied :
      (a : SecretSync) (previous : SecretSyncState) (prior : Prior) (status : SecretSyncStatus)
      (desired : Option Secret)
      → Barred a status
      → Triple Looking
          (apply_sync k (watched r) a previous target prior (status, desired))
          (λ _. Looking)
          Looking
  unfolding apply_sync ensure_finalizer
  applied a previous prior status desired (inl failed) = rw failed (
      finish_failing-Kept k (watched r) (watched-ReportsKeep r OnlyLooks) a previous target status
        failed)
  applied a previous prior status desired (inr (missing, fails)) =
      elim (Bool-cases (is_failing status.state)) [
        | inl y ↦ rw y (
            finish_failing-Kept k (watched r) (watched-ReportsKeep r OnlyLooks) a previous target
              status y)
        | inr n ↦
            rw (n, missing)
              (Triple-bind
                (wrapped (quiet (r.syncs.update_sync (k.add_finalizer a finalizer_name)))) _
                (Triple-wrapped _ (
                  quiet-Triple OnlyLooks (λ _. ⊥)
                    (r.syncs.update_sync (k.add_finalizer a finalizer_name))
                    (λ u w v e. rw e at (fails w))))
                (λ held. Triple-given _ (λ no. absurd no)))
      ]

  unread_sync :
      (a : SecretSync) (existing : Option Secret) (v : SecretReader W)
      → r.reader ≡ some v
      → ((w : W) → Fails (v.get_latest a.spec.vault.name a.spec.vault.secret w).0)
      → Triple Looking
          (sync k (watched r).clock (watched r).reader a existing)
          (λ p t. (is_failing p.0.state ≡ true) × Looking t)
          Looking
  unread_sync a existing v wired fails = rw wired (
      sync-Reported k (watched r).clock
        (record { get_latest = λ vault secret. quiet (v.get_latest vault secret) }) a existing
        (quiet-Keeps OnlyLooks (v.get_latest a.spec.vault.name a.spec.vault.secret))
        (λ t. fails t.world))

  synced :
      (a : SecretSync) (existing : Option Secret)
      → Blocked k r a
      → Triple Looking
          (wrapped (sync k (watched r).clock (watched r).reader a existing))
          (λ p t. Barred a p.0 × Looking t)
          Looking
  synced a existing (unread v wired fails) =
      Triple-wrapped _
        (Triple-post _ (unread_sync a existing v wired fails) (λ p t (f, h). (inl f, h)) (λ t h. h))
  synced a existing (unheld missing fails) = Triple-wrapped _ (
      Triple-post _
        (Triple-keeps _ (
          sync-Keeps k (watched r).clock (λ t h. h) (watched r).reader
            (watched-ReadsKeep k r OnlyLooks r.reader) a existing))
        (λ p t h. (inr (missing, fails), h)) (λ t h. h))

  sync_target-Looking :
      (a : SecretSync) (previous : SecretSyncState) (existing : Option Secret)
      → Blocked k r a
      → Triple Looking (sync_target k (watched r) a previous target existing) (λ _. Looking) Looking
  unfolding sync_target
  sync_target-Looking a previous existing blocked =
      Triple-attempt (wrapped (sync k (watched r).clock (watched r).reader a existing))
        (continue (apply_sync k (watched r) a previous target (prior_of k a existing)))
        (synced a existing blocked)
        (λ p. Triple-given _ (λ barred. applied a previous (prior_of k a existing) p.0 p.1 barred))
        (λ x. Triple-raise x (λ t h. h))

  with_target-Looking :
      (a : SecretSync) (previous : SecretSyncState) (fetched : Result Secret)
      → Blocked k r a
      → Triple Looking (with_target k (watched r) a previous target fetched) (λ _. Looking) Looking
  unfolding with_target
  with_target-Looking a previous (ok s) blocked = sync_target-Looking a previous (some s) blocked
  with_target-Looking a previous (err e) blocked =
      Triple-if (errors_is is_not_found e) _ _ (sync_target-Looking a previous none blocked)
        (Triple-raise _ (λ t h. h))

  get-Looking :
      Triple Looking
        ((watched r).client.get_secret target.namespace target.name)
        (λ _. Looking)
        Looking
  get-Looking = record {
    at = λ t h. go t h (r.client.get_secret target.namespace target.name t.world).0;
  }
    where
      go :
          (t : Traced W)
          → Looking t
          → (b : Result Secret)
          → Ends
              (λ (s : Secret). Looking)
              Looking
              (
                b,
                record {
                  world = (r.client.get_secret target.namespace target.name t.world).1;
                  calls = log_look b t.calls;
                },
              )
      go t h (ok s) = h
      go t h (err e) = h

  looked_up :
      (a : SecretSync) (previous : SecretSyncState)
      → Blocked k r a
      → Triple Looking
          (attempt
            ((watched r).client.get_secret target.namespace target.name)
            (with_target k (watched r) a previous target))
          (λ _. Looking)
          Looking
  looked_up a previous blocked =
      Triple-attempt _ (with_target k (watched r) a previous target) get-Looking
        (λ s. with_target-Looking a previous (ok s) blocked)
        (λ e. with_target-Looking a previous (err e) blocked)

  decided :
      (a : SecretSync) (previous : SecretSyncState)
      → Blocked k r a
      → Triple Looking
          (find_conflicting_owner (watched r).syncs a >>= (λ conflicting.
            if conflicting
            then lose_conflict k (watched r) a previous target
            else attempt
                ((watched r).client.get_secret target.namespace target.name)
                (with_target k (watched r) a previous target)))
          (λ _. Looking)
          Looking
  unfolding find_conflicting_owner
  decided a previous blocked =
      Triple-bind (find_conflicting_owner (watched r).syncs a) _
        (Triple-bind _ _
          (Triple-wrapped _
            (Triple-keeps _ (quiet-Keeps OnlyLooks (r.syncs.list_syncs (some a.namespace)))))
          (λ items. Triple-pure _ (λ t h. h)))
        (λ conflicting.
          Triple-if conflicting _ _
            (lose_conflict-Kept k (watched r) (watched-ReportsKeep r OnlyLooks) a previous target)
            (looked_up a previous blocked))

  module _ (ss : SecretSync) (blocked : Blocked k r ss)
      (still : (status : SecretSyncStatus) (u : SecretSync) (w v : W)
        → r.syncs.update_sync_status reconcile_deadline (record ss { status = status }) w
          ≡ (ok u, v)
        → Blocked k r u) where
    mark_pending-Blocked :
        Triple Looking (mark_pending k (watched r) ss) (λ a t. Blocked k r a × Looking t) Looking
    unfolding mark_pending
    mark_pending-Blocked =
        Triple-if (is_unset ss.status.state) _ _
          (Triple-wrapped _ (
            quiet-Triple OnlyLooks (Blocked k r) (r.syncs.update_sync_status reconcile_deadline _)
              (still _)))
          (Triple-pure ss (λ t h. (blocked, h)))

    -- When the vault's secret cannot be read, or the finalizer is missing and cannot be stored, a
    -- reconcile of an object that is not being deleted only reads Secrets: it creates, updates and
    -- deletes none, whatever else is answered. An update of the object's status is taken to give back
    -- an object for which that is still so.
    pub reconcile_live-OnlyLooks :
        (previous : SecretSyncState) (w : W)
        → OnlyLooks (reconcile_live k (watched r) ss previous target (start w)).1.calls
    unfolding reconcile_live
    reconcile_live-OnlyLooks previous w =
        let p = reconcile_live k (watched r) ss previous target (start w) in
        Triple-always (reconcile_live k (watched r) ss previous target)
          (Triple-bind _ _ mark_pending-Blocked
            (λ a. Triple-given _ (λ still_blocked. decided a previous still_blocked)))
          (start w) tt
