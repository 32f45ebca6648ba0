-- ===== src/Sync/Writer/Shape.antt =====
-- The shape of the Secret that the writer builds, and what the writer's own tests say of it.
use kvsynk8s.Base.{String, ◌≡◌, true, false, get, get-put, lookup, eq_refl, arith}
use kvsynk8s.Api.{SecretSync, Secret}
use kvsynk8s.Kube.{Kube}
use kvsynk8s.Sync.Writer.{
  annotation_vault, annotation_secret, annotation_version, labeled, writable,
  populate_managed_secret, managed_secret_data_matches, immutable_blocks_write,
}

module _ (s : Secret) (owner : SecretSync) (data_key value version : String) where
  abbrev filled : Secret
  filled = populate_managed_secret s owner data_key value version

  pub labeled-populate : labeled filled ≡ true
  unfolding labeled populate_managed_secret
  labeled-populate = simp (get-put, eq_refl)

  pub matches-populate : managed_secret_data_matches filled data_key value ≡ true
  unfolding managed_secret_data_matches populate_managed_secret lookup
  matches-populate = simp eq_refl

  pub version-populate : get annotation_version filled.annotations ≡ version
  unfolding populate_managed_secret
  version-populate = simp get-put (ground (arith, eq_refl annotation_version))

  pub blocks-populate : immutable_blocks_write filled data_key value ≡ false
  unfolding immutable_blocks_write
  blocks-populate = rw matches-populate (ground arith)

  -- The Secret that the writer builds is one that it may write again: it has the managed-by label,
  -- exactly the one data key with the value, the three annotations of the vault secret, and a
  -- repeat of the same write is not held back even if the Secret is immutable.
  pub populate_round_trip :
      (k : Kube)
      → (writable k filled owner ≡ true)
        × (managed_secret_data_matches filled data_key value ≡ true)
        × (immutable_blocks_write filled data_key value ≡ false)
        × (get annotation_vault filled.annotations ≡ owner.spec.vault.name)
        × (get annotation_secret filled.annotations ≡ owner.spec.vault.secret)
        × (get annotation_version filled.annotations ≡ version)
  unfolding writable populate_managed_secret
  populate_round_trip k = (
    rw labeled-populate,
    matches-populate,
    blocks-populate,
    simp get-put (ground arith),
    simp get-put (ground arith),
    simp get-put (ground arith),
  )
