-- ===== src/Sync/Engine/Idempotent.antt =====
-- `Sync` over a target that an earlier `Sync` has built.
use kvsynk8s.Base.{String, ◌≡◌, refl, true, Option, none, some, [], ◌∷◌, eq_refl, get, arith}
use kvsynk8s.Errors.{ok}
use kvsynk8s.Api.{SecretSync, Secret}
use kvsynk8s.Kube.{Kube, KubeLaws, Clock, SecretReader}
use kvsynk8s.Sync.Writer.{
  annotation_version, labeled, controller_owned_by, populate_managed_secret,
  managed_secret_data_matches,
}
use kvsynk8s.Sync.Writer.Shape.{labeled-populate, matches-populate, version-populate}
use kvsynk8s.Sync.Engine.{
  sync_data_key, or_new, controller_owner_reference, carried_status, synced_status,
  ownership_conflict, managed_by, up_to_date, desired_secret, settle, read_and_settle, sync,
}

module _ (k : Kube) (laws : KubeLaws k) (owner : SecretSync) where
  controller_of_owner :
      k.get_controller_of (controller_owner_reference owner ∷ [])
      ≡ some (controller_owner_reference owner)
  controller_of_owner =
      laws.controller_of_single (controller_owner_reference owner)
        (unfold controller_owner_reference in refl)

  module _ (existing : Option Secret) (value version : String) where
    abbrev pub built : Secret
    built = desired_secret owner existing value version

    abbrev filled : Secret
    filled =
        populate_managed_secret (or_new owner existing) owner (sync_data_key owner) value version

    built-labeled : labeled built ≡ true
    unfolding desired_secret labeled
    built-labeled = unfold labeled in labeled-populate (or_new owner existing) owner _ value version

    pub built-owned : controller_owned_by k built owner ≡ true
    unfolding controller_owned_by desired_secret controller_owner_reference
    built-owned = ground (arith, controller_of_owner, eq_refl owner.uid)

    no_conflict-built : ownership_conflict k owner (some built) ≡ none
    unfolding ownership_conflict desired_secret controller_owner_reference
    no_conflict-built = ground (arith, built-labeled, controller_of_owner, eq_refl owner.uid)

    built-matches : managed_secret_data_matches built (sync_data_key owner) value ≡ true
    unfolding desired_secret managed_secret_data_matches
    built-matches =
        unfold managed_secret_data_matches in
        matches-populate (or_new owner existing) owner _ value version

    built-version : get annotation_version built.annotations ≡ version
    unfolding desired_secret
    built-version = version-populate (or_new owner existing) owner _ value version

    pub built-up_to_date : up_to_date k owner (some built) value version ≡ true
    unfolding up_to_date managed_by
    built-up_to_date =
        ground (arith, built-labeled, built-owned, built-version, built-matches, eq_refl version)

    settle-built :
        {W : Type 0} (clock : Clock W) (w : W)
        → settle k clock owner (some built) (ok (value, version)) w ≡ (
          ok (synced_status (carried_status owner) version (clock.now w).0, some built),
          (clock.now w).1,
        )
    unfolding settle
    settle-built clock w = rw built-up_to_date

    -- When the target already holds what an earlier `Sync` built from the same value and version, a
    -- further `Sync` reports `InSync` at that version and returns the Secret unchanged.
    pub sync-built :
        {W : Type 0} (clock : Clock W) (reader : SecretReader W) (w w' : W)
        → reader.get_latest owner.spec.vault.name owner.spec.vault.secret w
          ≡ (ok (value, version), w')
        → sync k clock (some reader) owner (some built) w ≡ (
          ok (synced_status (carried_status owner) version (clock.now w').0, some built),
          (clock.now w').1,
        )
    unfolding sync read_and_settle
    sync-built clock reader w w' e = rw (no_conflict-built, e) (settle-built clock w')
