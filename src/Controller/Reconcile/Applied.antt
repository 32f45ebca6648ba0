-- ===== src/Controller/Reconcile/Applied.antt =====
-- From the result of `Sync` on, every status that a reconcile stores is sound.
use kvsynk8s.Base.{◌≡◌, refl, ◌∙◌, Option, none, some, List}
use kvsynk8s.Errors.{Result, ok, err, errors_is, is_not_found, wrap}
use kvsynk8s.Exec.Keeps.{Keeps, Keeps-attempt, Keeps-if}
use kvsynk8s.Exec.Triples.{
  Triple, Triple-pure, Triple-raise, Triple-given, Triple-bind, Triple-wrapped, Triple-if,
  Triple-keeps, Triple-known,
}
use kvsynk8s.Api.{SecretSync, SecretSyncStatus, SecretSyncState, Secret, is_failing}
use kvsynk8s.Kube.{Kube, SecretReader}
use kvsynk8s.Sync.Writer.{writer_reader}
use kvsynk8s.Sync.Writer.Keeps.{create_or_update-Keeps}
use kvsynk8s.Sync.Engine.{sync}
use kvsynk8s.Sync.Engine.Fits.{Carries, FitsAt, sync-Fits}
use kvsynk8s.Sync.Engine.Keeps.{ReadsKeep, sync-Keeps}
use kvsynk8s.Controller.{Reconciler, finalizer_name}
use kvsynk8s.Controller.Reconcile.{
  Target, Prior, ensure_finalizer, write_desired, apply_sync, needs_write, sync_target, with_target,
  prior_of,
}
use kvsynk8s.Controller.Reconcile.Stored.{
  AddsSound, apart, writing, finish-Sound, answer_write-Sound,
}
use kvsynk8s.Controller.Reconcile.Sound.{SameStatus, Journal}

module _ {W : Type 0} (k : Kube) (r : Reconciler W) (same : SameStatus k r.syncs)
    (journal : Journal r (writer_reader r.client r.api_reader)) (base : SecretSync)
    (old : List SecretSyncStatus) where
  abbrev Adds : W → Type 0
  Adds = AddsSound k r same journal base old

  pub joined : (a b : SecretSync) → Carries base a → Carries a b → Carries base b
  joined a b c d = record {
    generation = d.generation ∙ c.generation;
    last_sync_time = d.last_sync_time ∙ c.last_sync_time;
    synced_version = d.synced_version ∙ c.synced_version;
  }

  ensure_finalizer-Carries :
      (a : SecretSync)
      → Carries base a
      → Triple Adds (ensure_finalizer k r a) (λ b w. Carries base b × Adds w) Adds
  unfolding ensure_finalizer
  ensure_finalizer-Carries a c =
      let held = k.add_finalizer a finalizer_name in
      Triple-if (k.contains_finalizer a finalizer_name) _ _ (Triple-pure a (λ w h. (c, h))) (
        Triple-wrapped _ (
          Triple-known (Carries base) (r.syncs.update_sync held)
            (apart k r same journal base old _ (journal.update_sync held))
            (λ u w v e.
              joined held u (joined a held c (same.with_finalizer a)) (same.updated held u w v e))))

  write_desired-Keeps :
      (a : SecretSync) (target : Target) (s : SecretSyncStatus) (desired : Option Secret)
      → Keeps Adds (write_desired k r a target s desired)
  unfolding write_desired
  write_desired-Keeps a target s desired =
      create_or_update-Keeps k r.client r.api_reader a target.namespace target.name target.data_key
        _ s.synced_version (writing k r same journal base old)

  apply_sync-Sound :
      (a : SecretSync) (previous : SecretSyncState) (target : Target) (prior : Prior)
      (s : SecretSyncStatus) (desired : Option Secret)
      → Carries base a
      → FitsAt base s.state s
      → Triple Adds (apply_sync k r a previous target prior (s, desired)) (λ _. Adds) Adds
  unfolding apply_sync
  apply_sync-Sound a previous target prior s desired c fits =
      Triple-if (is_failing s.state) _ _
        (Triple-keeps _ (finish-Sound k r same journal base old a previous target s fits))
        (Triple-bind _ _ (ensure_finalizer-Carries a c) (λ held. Triple-given _ (λ carried.
          Triple-keeps _ (
            Keeps-if (needs_write prior s.synced_version desired) _ _
              (Keeps-attempt _ _ (write_desired-Keeps held target s desired) (λ b.
                answer_write-Sound k r same journal base old held previous target s b carried fits))
              (finish-Sound k r same journal base old held previous target s fits)))))

  reads-Keep :
      (v : Option (SecretReader W))
      → r.reader ≡ v
      → ReadsKeep {P = Adds} k r.clock (λ w (added, is, h). (added, journal.now w ∙ is, h)) v
  reads-Keep none e = tt
  reads-Keep (some v) e =
      λ vault secret. apart k r same journal base old _ (journal.get_latest v e vault secret)

  sync-known :
      (a : SecretSync) (existing : Option Secret)
      → Carries base a
      → Triple Adds
          (sync k r.clock r.reader a existing)
          (λ p w. FitsAt base p.0.state p.0 × Adds w)
          Adds
  sync-known a existing c =
      Triple-known (λ p. FitsAt base p.0.state p.0) (sync k r.clock r.reader a existing)
        (sync-Keeps k r.clock (λ w (added, is, h). (added, journal.now w ∙ is, h)) r.reader
          (reads-Keep r.reader refl) a existing)
        (λ p w v e. rw e at (sync-Fits k r.clock base a c existing r.reader w))

  sync_target-Sound :
      (a : SecretSync) (previous : SecretSyncState) (target : Target) (existing : Option Secret)
      → Carries base a
      → Triple Adds (sync_target k r a previous target existing) (λ _. Adds) Adds
  unfolding sync_target
  sync_target-Sound a previous target existing c =
      Triple-bind _ _ (Triple-wrapped _ (sync-known a existing c)) (λ (s, desired).
        Triple-given _
          (λ fits. apply_sync-Sound a previous target (prior_of k a existing) s desired c fits))

  pub with_target-Sound :
      (a : SecretSync) (previous : SecretSyncState) (target : Target) (b : Result Secret)
      → Carries base a
      → Triple Adds (with_target k r a previous target b) (λ _. Adds) Adds
  unfolding with_target
  with_target-Sound a previous target (ok s) c = sync_target-Sound a previous target (some s) c
  with_target-Sound a previous target (err x) c =
      Triple-if (errors_is is_not_found x) _ _ (sync_target-Sound a previous target none c)
        (Triple-raise (wrap x) (λ w h. h))
