-- ===== src/Sync/Convergence.antt =====
-- What the writer stores (internal/sync/writer.go), as the engine reads it (internal/sync/engine.go).
use kvsynk8s.Base.{
  String, ◌≡◌, refl, ◌⊎◌, inl, inr, true, some, List, [], ◌∷◌, eq_refl, eq_iff, arith,
}
use kvsynk8s.Errors.{ok}
use kvsynk8s.Api.{SecretSync, Secret, OwnerReference}
use kvsynk8s.Kube.{Kube, KubeLaws, owner_set}
use kvsynk8s.Sync.Writer.{
  labeled, controller_owned_by, populate_managed_secret, managed_secret_data_matches, new_secret,
  SecretWriter, create_or_update,
}
use kvsynk8s.Sync.Writer.Shape.{labeled-populate, matches-populate, version-populate}
use kvsynk8s.Sync.Writer.Trace.{Call, looked, created, updated, deleted, start, traced_writer}
use kvsynk8s.Sync.Writer.Right.{StoredFrom, EndsInWrite, AllRight}
use kvsynk8s.Sync.Writer.Safety.{create_or_update-AllRight}
use kvsynk8s.Sync.Engine.{sync_data_key, managed_by, up_to_date}

-- the latest call writes this Secret
abbrev pub Wrote : Secret → List Call → Type 0
Wrote s calls = (before : List Call) × ((calls ≡ created s ∷ before) ⊎ (calls ≡ updated s ∷ before))

module _ (k : Kube) (laws : KubeLaws k) (owner : SecretSync)
    (namespace name value version : String) where
  filled-up_to_date :
      (current : Secret) (refs : List OwnerReference)
      → let filled = populate_managed_secret current owner (sync_data_key owner) value version in
        k.set_controller_reference owner filled ≡ owner_set refs
        → up_to_date k owner (some (record filled { owner_references = refs })) value version ≡ true
  unfolding up_to_date managed_by controller_owned_by labeled managed_secret_data_matches
      populate_managed_secret
  filled-up_to_date current refs e =
      let (r, holds, same) =
        laws.set_reference_owns owner
          (populate_managed_secret current owner (sync_data_key owner) value version) refs e in
      let is_labeled = labeled-populate current owner (sync_data_key owner) value version in
      let matches = matches-populate current owner (sync_data_key owner) value version in
      let versioned = version-populate current owner (sync_data_key owner) value version in
      ground (
        arith,
        holds,
        same,
        eq_iff r.uid owner.uid,
        is_labeled,
        matches,
        versioned,
        eq_refl version,
      )

  abbrev pub Stored : Secret → Secret → Type 0
  Stored = StoredFrom k owner namespace name (sync_data_key owner) value version

  pub Stored-up_to_date :
      (current s : Secret) → Stored current s → up_to_date k owner (some s) value version ≡ true
  Stored-up_to_date current s (refs, set, e) = rw e (filled-up_to_date current refs set)

  -- the Secret that the latest call wrote, up to date
  abbrev pub Settles : List Call → Type 0
  Settles calls = (s : Secret) × Wrote s calls × (up_to_date k owner (some s) value version ≡ true)

  right-Settles :
      (calls : List Call)
      → AllRight k owner namespace name (sync_data_key owner) value version calls
      → EndsInWrite calls
      → Settles calls
  right-Settles [] h e = absurd e
  right-Settles (looked s ∷ cs) h e = absurd e
  right-Settles (deleted s ∷ cs) h e = absurd e
  right-Settles (created s ∷ cs) h e =
      (s, (cs, inl refl), Stored-up_to_date (new_secret namespace name) s h.0)
  right-Settles (updated s ∷ cs) ((current, seen, w, free, stored), h) e =
      (s, (cs, inr refl), Stored-up_to_date current s stored)

  -- When `CreateOrUpdate` succeeds, the last request it sent wrote a Secret that the engine takes for
  -- up to date at that value and version: the next `Sync` that reads it back has nothing to write.
  pub create_or_update_ok-Settles :
      {W : Type 0} (w : SecretWriter W) (world : W)
      → (create_or_update k
          (traced_writer w)
          owner
          namespace
          name
          (sync_data_key owner)
          value
          version
          (start world)).0
        ≡ ok tt
      → Settles
          (create_or_update k
            (traced_writer w)
            owner
            namespace
            name
            (sync_data_key owner)
            value
            version
            (start world)).1.calls
  create_or_update_ok-Settles w world e =
      let run =
        create_or_update k (traced_writer w) owner namespace name (sync_data_key owner) value
          version (start world) in
      let (right, written) =
        create_or_update-AllRight k owner namespace name (sync_data_key owner) value version w
          world in
      right-Settles run.1.calls right (rw e at written)
