-- ===== src/Controller/Reconcile/Written.antt =====
-- The write of an undisturbed reconcile, and what comes after it.
use kvsynk8s.Base.{inl, inr, String, ◌≡◌, refl, ◌∙◌, true, Option, some, List, get, ℤ}
use kvsynk8s.Errors.{Result, ok, err}
use kvsynk8s.Exec.{attempt}
use kvsynk8s.Exec.Triples.{Ends, Triple}
use kvsynk8s.Api.{SecretSync, SecretSyncStatus, SecretSyncState, Secret, OwnerReference}
use kvsynk8s.Kube.{Kube, KubeLaws, owner_set}
use kvsynk8s.Sync.Writer.{
  labeled, new_secret, create_or_update, managed_secret_data_matches, controller_owned_by,
}
use kvsynk8s.Sync.Writer.Atomic.{AtTarget, Verdict, stores, verdict, filled, Meets}
use kvsynk8s.Sync.Writer.Verdicts.{create_or_update-Meets, verdict-From}
use kvsynk8s.Sync.Engine.{sync_data_key, up_to_date, managed_by}
use kvsynk8s.Sync.Convergence.{Stored-up_to_date}
use kvsynk8s.Controller.{Reconciler}
use kvsynk8s.Controller.Reconcile.{Target, write_desired, answer_write, finish, contents_of}
use kvsynk8s.Controller.Reconcile.Keeps.{finish-Keeps}
use kvsynk8s.Controller.Reconcile.Undisturbed.{OfType, Undisturbed}

module _ {W : Type 0} (k : Kube) (laws : KubeLaws k) (r : Reconciler W) (ss : SecretSync)
    (target : Target) (value version : String) (env : Undisturbed k r ss target value version) where
  -- the target holds the value, as the engine wants it
  abbrev pub Done : W → Type 0
  Done w =
      (s : Secret) × (env.store.holds w ≡ some s) × (up_to_date k ss (some s) value version ≡ true)

  both : (b : Result ℤ) (w : W) → Done w → Ends (λ (i : ℤ). Done) Done (b, w)
  both (ok i) w h = h
  both (err e) w h = h

  pub finish-Done :
      (previous : SecretSyncState) (status : SecretSyncStatus)
      → Triple Done (finish k r ss previous target status) (λ _. Done) Done
  finish-Done previous status = record {
    at = λ w (s, held, current).
        let p = finish k r ss previous target status w in
        both p.0 p.1
          (s, (finish-Keeps k r target (env.rest (some s)) ss previous status).at w held, current);
  }

  abbrev pub decision : Option Secret → Verdict
  decision o = verdict k ss (sync_data_key ss) value version target.namespace target.name o

  versioned-up_to_date :
      (s : Secret) (given : String)
      → up_to_date k ss (some (record s { resource_version = given })) value version
        ≡ up_to_date k ss (some s) value version
  unfolding up_to_date managed_by labeled managed_secret_data_matches controller_owned_by
  versioned-up_to_date s given = refl

  as_decided :
      (w : W) (x : Verdict) (t : Secret) (p : Result (Unit {0}) × W)
      → x ≡ stores t
      → Meets env.store w x p
      → Meets env.store w (stores t) p
  as_decided w x t p e h = rw e at h

  module _ (t : Secret) (refs : List OwnerReference)
      (new_owned : k.set_controller_reference ss
          (filled k ss (sync_data_key ss) value version (new_secret target.namespace target.name))
        ≡ owner_set refs)
      (key : target.data_key ≡ sync_data_key ss) where
    -- the writer's decision on what is there is to store `t`
    abbrev pub Writes : Option Secret → Type 0
    Writes o = (decision o ≡ stores t) × AtTarget env.store o × OfType o

    abbrev pub Pending : W → Type 0
    Pending w = Writes (env.store.holds w)

    stored :
        (w : W) (p : Result (Unit {0}) × W)
        → Pending w
        → Meets env.store w (stores t) p
        → (p.0 ≡ ok tt) × Done p.1
    stored w p (may, placed, typed) (inl (given, done, held)) =
        let (current, from) =
          verdict-From k ss target.namespace target.name (sync_data_key ss) value version t
            (env.store.holds w) may in
        (
          done,
          (
            record t { resource_version = given },
            held,
            versioned-up_to_date t given
                ∙ Stored-up_to_date k laws ss target.namespace target.name value version current t
                    from,
          ),
        )
    stored w p (may, placed, typed) (inr (q, x, s, e, failed, same, refused, sent, kind, kept)) =
        cc (env.accepts q w s typed kind, refused)

    wrote :
        (w : W)
        → Pending w
        → let p =
            create_or_update k
              (record { client = some r.client; reader = r.api_reader })
              ss
              target.namespace
              target.name
              (sync_data_key ss)
              value
              version
              w in
          (p.0 ≡ ok tt) × Done p.1
    wrote w due = rw env.uncached (
        stored w _ due (
          as_decided w _ t _ due.0 (
            create_or_update-Meets env.store k ss (sync_data_key ss) value version w due.1 refs
              new_owned)))

    sends :
        (status : SecretSyncStatus) (desired : Option Secret)
        → status.synced_version ≡ version
        → get (sync_data_key ss) (contents_of desired) ≡ value
        → write_desired k r ss target status desired
          ≡ create_or_update k
              (record { client = some r.client; reader = r.api_reader })
              ss
              target.namespace
              target.name
              (sync_data_key ss)
              value
              version
    unfolding write_desired
    sends status desired versioned valued = cc (key, versioned, valued)

    pub written :
        (previous : SecretSyncState) (status : SecretSyncStatus) (desired : Option Secret)
        → status.synced_version ≡ version
        → get (sync_data_key ss) (contents_of desired) ≡ value
        → Triple Pending
            (attempt
              (write_desired k r ss target status desired)
              (answer_write k r ss previous target status))
            (λ _. Done)
            Done
    unfolding answer_write
    written previous status desired versioned valued = record {
      at = λ w may.
          let (done, after) = wrote w may in
          rw (sends status desired versioned valued, done)
            ((finish-Done previous status).at _ after);
    }
