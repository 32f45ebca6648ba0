-- ===== src/Controller/Reconcile/Converges.antt =====
-- A reconcile that nobody disturbs: the vault's value reaches the target.
use kvsynk8s.Base.{
  any, String, ◌≡◌, refl, sym, ◌∙◌, ap, true, false, not, Bool-cases, Option-cases, inl, inr,
  Option, none, some, List, get, if◌then◌else◌,
}
use kvsynk8s.Errors.{ok}
use kvsynk8s.Exec.{attempt, continue, wrapped}
use kvsynk8s.Exec.Triples.{
  Triple-always, Triple, Triple-raise, Triple-given, Triple-attempt, Triple-bind, Triple-wrapped,
  Triple-pre,
}
use kvsynk8s.Api.{
  SecretSync, SecretSyncStatus, SecretSyncState, Secret, OwnerReference, is_unset, is_failing,
}
use kvsynk8s.Kube.{Kube, KubeLaws, owner_set}
use kvsynk8s.Sync.Writer.{labeled, new_secret}
use kvsynk8s.Sync.Writer.Atomic.{filled}
use kvsynk8s.Sync.Engine.{sync, sync_data_key, up_to_date, desired_secret, ownership_conflict}
use kvsynk8s.Sync.Engine.Answered.{Answered, sync-Answered, desired_secret-value}
use kvsynk8s.Controller.Gate.{needs_write-skip, needs_write-built}
use kvsynk8s.Controller.{beats, Reconciler, find_conflicting_owner, finalizer_name}
use kvsynk8s.Controller.Reconcile.{
  Target, apply_sync, sync_target, with_target, mark_pending, reconcile_live, lose_conflict,
  prior_of, ensure_finalizer, needs_write, contents_of,
}
use kvsynk8s.Controller.Reconcile.Undisturbed.{Undisturbed}
use kvsynk8s.Controller.Reconcile.Written.{Writes, Done, finish-Done, Pending, written}

module _ {W : Type 0} (k : Kube) (laws : KubeLaws k) (r : Reconciler W) (ss : SecretSync)
    (target : Target) (value version : String) (env : Undisturbed k r ss target value version) where
  abbrev Goal : W → Type 0
  Goal = Done k laws r ss target value version env

  module _ (t : Secret) (refs : List OwnerReference)
      (new_owned : k.set_controller_reference ss
          (filled k ss (sync_data_key ss) value version (new_secret target.namespace target.name))
        ≡ owner_set refs)
      (key : target.data_key ≡ sync_data_key ss) where
    abbrev Due : W → Type 0
    Due = Pending k laws r ss target value version env t refs new_owned key

    -- what the reconcile has read of the target is what is there
    abbrev Seen : Option Secret → W → Type 0
    Seen existing w = Due w × ((s : Secret) → existing ≡ some s → env.store.holds w ≡ some s)

    Seen-Done :
        (existing : Option Secret) (w : W)
        → up_to_date k ss existing value version ≡ true
        → Seen existing w
        → Goal w
    unfolding up_to_date
    Seen-Done none w current seen = cc
    Seen-Done (some s) w current (may, seen) = (s, seen s refl, current)

    module _ (held : k.contains_finalizer ss finalizer_name ≡ true) where
      applied :
          (previous : SecretSyncState) (existing : Option Secret) (status : SecretSyncStatus)
          (desired : Option Secret)
          → ownership_conflict k ss existing ≡ none
          → Answered k ss existing value version (status, desired)
          → Triple
              (Seen existing)
              (apply_sync k r ss previous target (prior_of k ss existing) (status, desired))
              (λ _. Goal)
              Goal
      unfolding apply_sync ensure_finalizer
      applied previous existing status desired free (synced, versioned, kept) =
          let fine : is_failing status.state ≡ false = ap is_failing synced in
          elim (Bool-cases (up_to_date k ss existing value version)) [
            | inl y ↦
                let same : desired ≡ existing = rw y at kept in
                let skip : needs_write (prior_of k ss existing) status.synced_version desired
                    ≡ false =
                  rw (versioned, same) (needs_write-skip k ss value version existing y) in
                rw (fine, held, skip)
                  (Triple-pre _ (λ w seen. Seen-Done existing w y seen)
                    (finish-Done k laws r ss target value version env previous status))
            | inr n ↦
                let fresh : desired ≡ some (desired_secret ss existing value version) =
                  rw n at kept in
                let write : needs_write (prior_of k ss existing) status.synced_version desired
                    ≡ true =
                  rw (versioned, fresh)
                    (needs_write-built k ss value version existing free ∙ ap not n) in
                let valued : get (sync_data_key ss) (contents_of desired) ≡ value =
                  rw fresh (desired_secret-value ss existing value version) in
                rw (fine, held, write)
                  (Triple-pre _ (λ w (may, seen). may)
                    (written k laws r ss target value version env t refs new_owned key previous
                      status desired versioned valued))
          ]

      Seen-same :
          (existing : Option Secret) (w v : W)
          → env.store.holds v ≡ env.store.holds w
          → Seen existing w
          → Seen existing v
      Seen-same existing w v e (may, seen) = rw e (may, seen)

      synced-Done :
          (previous : SecretSyncState) (existing : Option Secret)
          → ownership_conflict k ss existing ≡ none
          → Triple (Seen existing) (sync_target k r ss previous target existing) (λ _. Goal) Goal
      unfolding sync_target
      synced-Done previous existing free =
          Triple-attempt (wrapped (sync k r.clock r.reader ss existing))
            (continue (apply_sync k r ss previous target (prior_of k ss existing)))
            (Triple-wrapped _ (
              rw env.vault_wired (
                sync-Answered k r.clock
                  (λ w h. Seen-same existing w (r.clock.now w).1 (env.clock_apart w) h) env.vault ss
                  existing value version
                  (record { at = λ w h. Seen-same existing w _ (env.vault_apart w) h }) env.answers
                  free)))
            (λ p. Triple-given _ (λ a. applied previous existing p.0 p.1 free a))
            (λ x. Triple-raise x (λ w h. h))

      module _ (there : Option Secret)
          (may : Writes k laws r ss target value version env t refs new_owned key there)
          (free : (s : Secret)
            → there ≡ some s
            → labeled s ≡ true
            → ownership_conflict k ss (some s) ≡ none) where
        abbrev Still : W → Type 0
        Still w = env.store.holds w ≡ there

        pending : (w : W) → Still w → Due w
        pending w still = rw still may

        looked-Done :
            (previous : SecretSyncState)
            → Triple Still
                (attempt
                  (r.client.get_secret target.namespace target.name)
                  (with_target k r ss previous target))
                (λ _. Goal)
                Goal
        unfolding with_target
        looked-Done previous = record {
          at = λ w still. elim (Option-cases (env.store.holds w)) [
            | inl none_held ↦
                let (e, missing, called) = env.store.absent w none_held in
                rw (called, missing)
                  ((synced-Done previous none (unfold ownership_conflict in refl)).at w
                    (pending w still, λ s e. cc))
            | inr (s, held_s) ↦ elim (Bool-cases (labeled s)) [
              | inl y ↦ rw (env.store.cached w s held_s y) (
                  (synced-Done previous (some s) (free s (sym still ∙ held_s) y)).at w
                    (pending w still, λ u e. held_s ∙ e))
              | inr n ↦
                  let (e, missing, called) = env.store.filtered w s held_s n in
                  rw (called, missing)
                    ((synced-Done previous none (unfold ownership_conflict in refl)).at w
                      (pending w still, λ u e. cc))
            ]
          ];
        }

        -- the listing shows no SecretSync with the better claim
        abbrev Unbeaten : W → Type 0
        Unbeaten w =
            (claims : List SecretSync) × ((r.syncs.list_syncs (some ss.namespace) w).0 ≡ ok claims)
            × (any (beats ss) claims ≡ false)

        abbrev Shown : W → Type 0
        Shown w = Unbeaten w × Still w

        unbeaten-Still :
            Triple Shown (find_conflicting_owner r.syncs ss) (λ b w. (b ≡ false) × Still w) Goal
        unfolding find_conflicting_owner
        unbeaten-Still = record {
          at = λ w ((claims, listing, free_of), still).
              rw listing (free_of, env.list_apart w ∙ still);
        }

        live-Done :
            (previous : SecretSyncState)
            → is_unset ss.status.state ≡ false
            → Triple Shown (reconcile_live k r ss previous target) (λ _. Goal) Goal
        unfolding reconcile_live mark_pending
        live-Done previous known = rw known (
            Triple-bind (find_conflicting_owner r.syncs ss)
              (λ conflicting.
                if conflicting
                then lose_conflict k r ss previous target
                else attempt (r.client.get_secret target.namespace target.name)
                    (with_target k r ss previous target))
              unbeaten-Still
              (λ conflicting. Triple-given _ (λ lost. rw lost (looked-Done previous))))

        -- the vault's value reaches the target
        pub reconcile_live-converges :
            (previous : SecretSyncState) (w : W)
            → is_unset ss.status.state ≡ false
            → Unbeaten w
            → env.store.holds w ≡ there
            → Goal (reconcile_live k r ss previous target w).1
        reconcile_live-converges previous w known unbeaten still =
            Triple-always (reconcile_live k r ss previous target) (live-Done previous known) w
              (unbeaten, still)
