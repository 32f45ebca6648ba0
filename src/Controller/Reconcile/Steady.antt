-- ===== src/Controller/Reconcile/Steady.antt =====
-- A reconcile that finds its target up to date.
use kvsynk8s.Base.{
  String, ◌≡◌, refl, Bool, true, false, ◌⊎◌, inl, inr, Option, some, List, [], ◌∷◌, if◌then◌else◌,
  ℤ,
}
use kvsynk8s.Errors.{ok}
use kvsynk8s.Exec.{Exec, attempt, continue, wrapped}
use kvsynk8s.Exec.Triples.{
  Triple-always, Triple, Triple-pure, Triple-raise, Triple-given, Triple-attempt, Triple-bind,
  Triple-wrapped, Triple-if, Triple-keeps,
}
use kvsynk8s.Api.{SecretSync, SecretSyncStatus, SecretSyncState, Secret, is_unset, is_failing}
use kvsynk8s.Kube.{Kube, SecretReader}
use kvsynk8s.Sync.Writer.Trace.{Call, looked, deleted, Traced, start}
use kvsynk8s.Sync.Engine.{sync, up_to_date}
use kvsynk8s.Sync.Engine.Steady.{sync-Skips}
use kvsynk8s.Controller.{Reconciler, find_conflicting_owner}
use kvsynk8s.Controller.Removal.Safety.{quiet}
use kvsynk8s.Controller.Gate.{needs_write-skip}
use kvsynk8s.Controller.Reconcile.{
  Target, apply_sync, sync_target, with_target, mark_pending, reconcile_live, lose_conflict,
  prior_of, ensure_finalizer, needs_write, finish,
}
use kvsynk8s.Controller.Reconcile.Watched.{watched, watched_vault}
use kvsynk8s.Controller.Reconcile.Calls.{SameObject, Stays, Sofar, quiet-Keeps}
use kvsynk8s.Controller.Reconcile.Finish.{ensure_finalizer-same, finish-Stays, lose_conflict-Stays}

-- nothing is created or updated
abbrev pub NoWrites : List Call → Type 0
NoWrites [] = Unit
NoWrites (looked s ∷ cs) = NoWrites cs
NoWrites (deleted s ∷ cs) = NoWrites cs
NoWrites (c ∷ cs) = ⊥

NoWrites-Stays : (k : Kube) (ss : SecretSync) (target : Target) → Stays k ss target NoWrites
NoWrites-Stays k ss target = record { read = λ s calls h. h; gone = λ s calls mine other h. h }

module _ {W : Type 0} (k : Kube) (r : Reconciler W) (same : SameObject k r.syncs) (ss : SecretSync)
    (target : Target) (v : SecretReader W) (s : Secret) (value version : String)
    (wired : r.reader ≡ some v)
    (answers : (w : W)
      → (v.get_latest ss.spec.vault.name ss.spec.vault.secret w).0 ≡ ok (value, version))
    (shows : (w : W) → (r.client.get_secret target.namespace target.name w).0 ≡ ok s)
    (current : up_to_date k ss (some s) value version ≡ true) where
  abbrev Quiet : Traced W → Type 0
  Quiet = Sofar NoWrites

  stays : Stays k ss target NoWrites
  stays = NoWrites-Stays k ss target

  applied :
      (previous : SecretSyncState) (p : SecretSyncStatus × Option Secret)
      → (is_failing p.0.state ≡ true) ⊎ ((p.0.synced_version ≡ version) × (p.1 ≡ some s))
      → Triple Quiet
          (apply_sync k (watched r) ss previous target (prior_of k ss (some s)) p)
          (λ _. Quiet)
          Quiet
  unfolding apply_sync
  applied previous (status, desired) (inl failed) =
      rw failed (finish-Stays k r same ss target stays ss previous status refl)
  applied previous (status, desired) (inr (versioned, kept)) =
      let skipped : needs_write (prior_of k ss (some s)) status.synced_version desired ≡ false =
        rw (versioned, kept) (needs_write-skip k ss value version (some s) current) in
      Triple-if (is_failing status.state) _ _
        (finish-Stays k r same ss target stays ss previous status refl)
        (rw skipped (
          Triple-bind (ensure_finalizer k (watched r) ss)
            (λ held. finish k (watched r) held previous target status)
            (ensure_finalizer-same k r same ss NoWrites ss refl)
            (λ held.
              Triple-given _ (λ g. finish-Stays k r same ss target stays held previous status g))))

  vaulted :
      watched_vault r.reader
      ≡ some (record { get_latest = λ vault secret. quiet (v.get_latest vault secret) })
  vaulted = rw wired refl

  sync_target-NoWrites :
      (previous : SecretSyncState)
      → Triple Quiet (sync_target k (watched r) ss previous target (some s)) (λ _. Quiet) Quiet
  unfolding sync_target
  sync_target-NoWrites previous =
      Triple-attempt (wrapped (sync k (watched r).clock (watched r).reader ss (some s)))
        (continue (apply_sync k (watched r) ss previous target (prior_of k ss (some s))))
        (Triple-wrapped _ (
          rw vaulted (
            sync-Skips k (watched r).clock (λ t h. h) _ ss (some s) value version
              (quiet-Keeps NoWrites (v.get_latest ss.spec.vault.name ss.spec.vault.secret))
              (λ t. answers t.world) current)))
        (λ p. Triple-given _ (λ skips. applied previous p skips)) (λ x. Triple-raise x (λ t h. h))

  -- the Get of the target is answered with `s`
  with_shown-NoWrites :
      (previous : SecretSyncState)
      → Triple Quiet
          (attempt
            ((watched r).client.get_secret target.namespace target.name)
            (with_target k (watched r) ss previous target))
          (λ _. Quiet)
          Quiet
  unfolding with_target
  with_shown-NoWrites previous = record {
    at = λ t h. rw (shows t.world) (
        (sync_target-NoWrites previous).at
          (record {
            world = (r.client.get_secret target.namespace target.name t.world).1;
            calls = looked s ∷ t.calls;
          })
          h);
  }

  abbrev decided : SecretSyncState → Bool → Exec (Traced W) ℤ
  decided previous conflicting =
      if conflicting
      then lose_conflict k (watched r) ss previous target
      else attempt ((watched r).client.get_secret target.namespace target.name)
          (with_target k (watched r) ss previous target)

  reconcile_live-NoWrites :
      (previous : SecretSyncState)
      → is_unset ss.status.state ≡ false
      → Triple Quiet (reconcile_live k (watched r) ss previous target) (λ _. Quiet) Quiet
  unfolding reconcile_live mark_pending find_conflicting_owner
  reconcile_live-NoWrites previous known = rw known (
      Triple-bind (find_conflicting_owner (watched r).syncs ss) (decided previous)
        (Triple-bind _ _
          (Triple-wrapped _
            (Triple-keeps _ (quiet-Keeps NoWrites (r.syncs.list_syncs (some ss.namespace)))))
          (λ items. Triple-pure _ (λ t h. h)))
        (λ conflicting.
          Triple-if conflicting _ _ (lose_conflict-Stays k r same ss target stays ss previous refl)
            (with_shown-NoWrites previous)))

  -- Reconciling again writes nothing: while the vault answers one value and version, and the cluster
  -- shows at the target a Secret that is up to date at them, a reconcile of a SecretSync that has a
  -- state creates and updates no Secret, whatever else is answered. An Update of the object is taken
  -- to give back its UID.
  pub reconcile_live-steady :
      (previous : SecretSyncState) (w : W)
      → is_unset ss.status.state ≡ false
      → NoWrites (reconcile_live k (watched r) ss previous target (start w)).1.calls
  reconcile_live-steady previous w known =
      let p = reconcile_live k (watched r) ss previous target (start w) in
      Triple-always (reconcile_live k (watched r) ss previous target)
        (reconcile_live-NoWrites previous known) (start w) tt
