-- ===== src/Controller/Gate.antt =====
-- The gate of the write in `Reconcile`, beside the idempotency rule of `Sync`.
use kvsynk8s.Base.{
  String, ◌≡◌, refl, ap, ◌∙◌, Bool, true, false, not, Bool-cases, inl, inr, Option, none, some, [],
  ◌∷◌, Dict, lookup, eq_iff, eq_refl, arith,
}
use kvsynk8s.Errors.{ok, ok_inj}
use kvsynk8s.Api.{SecretSync, SecretSyncStatus, Secret, in_sync}
use kvsynk8s.Kube.{Kube, Clock}
use kvsynk8s.Sync.Writer.{labeled, populate_managed_secret, managed_secret_data_matches}
use kvsynk8s.Sync.Engine.{
  sync_data_key, ownership_conflict, managed_by, up_to_date, desired_secret, settle, synced_status,
  carried_status,
}
use kvsynk8s.Controller.{equal_data}
use kvsynk8s.Controller.Reconcile.{prior_of, needs_write}

-- Comparing with a single pair is what `managedSecretDataMatches` asks.
equal_data-single :
    (s : Secret) (data_key value : String) (m : Dict String)
    → equal_data m ((data_key, value) ∷ [])
      ≡ managed_secret_data_matches (record s { contents = m }) data_key value
unfolding equal_data managed_secret_data_matches lookup
equal_data-single s data_key value [] = ground arith
equal_data-single s data_key value ((j, w) ∷ []) =
    ground (arith, eq_iff j data_key, eq_iff data_key j)
equal_data-single s data_key value (p ∷ q ∷ r) = ground arith

-- without a conflict over ownership, the Secret that is there has the label
labeled_of_no_conflict :
    (k : Kube) (owner : SecretSync) (s : Secret)
    → ownership_conflict k owner (some s) ≡ none
    → labeled s ≡ true
unfolding ownership_conflict
labeled_of_no_conflict k owner s h = ground (arith, h)

equal_data_self :
    (s : Secret) (data_key value : String) (m : Dict String)
    → managed_secret_data_matches (record s { contents = m }) data_key value ≡ true
    → equal_data m m ≡ true
unfolding equal_data managed_secret_data_matches lookup
equal_data_self s data_key value [] h = refl
equal_data_self s data_key value ((j, w) ∷ []) h = ground (arith, eq_refl j, eq_refl w)
equal_data_self s data_key value (p ∷ q ∷ r) h = ground arith

module _ (k : Kube) (owner : SecretSync) (value version : String) where
  pub needs_write-built :
      (existing : Option Secret)
      → ownership_conflict k owner existing ≡ none
      → needs_write
          (prior_of k owner existing)
          version
          (some (desired_secret owner existing value version))
        ≡ not (up_to_date k owner existing value version)
  unfolding needs_write prior_of up_to_date managed_by
  needs_write-built none h = refl
  needs_write-built (some s) h =
      rw (equal-desired, labeled_of_no_conflict k owner s h) (ground arith)
    where
      equal-desired :
          equal_data s.contents (desired_secret owner (some s) value version).contents
          ≡ managed_secret_data_matches s (sync_data_key owner) value
      equal-desired =
          unfold desired_secret populate_managed_secret in
          equal_data-single s (sync_data_key owner) value s.contents

  pub needs_write-skip :
      (existing : Option Secret)
      → up_to_date k owner existing value version ≡ true
      → needs_write (prior_of k owner existing) version existing ≡ false
  unfolding needs_write prior_of up_to_date managed_by
  needs_write-skip none h = cc
  needs_write-skip (some s) h =
      ground (arith, equal_data_self s (sync_data_key owner) value s.contents)

  agrees :
      {W : Type 0} (clock : Clock W) (existing : Option Secret) (w : W)
      (p : SecretSyncStatus × Option Secret) {d : Option Secret} {b : Bool}
      → (synced_status (carried_status owner) version (clock.now w).0, d) ≡ p
      → needs_write (prior_of k owner existing) version d ≡ b
      → (needs_write (prior_of k owner existing) p.0.synced_version p.1 ≡ b)
        × (p.0.state ≡ in_sync)
        × (p.0.synced_version ≡ version)
  agrees clock existing w p e h = rw (← e) (h, refl, refl)

  -- When the target is not in conflict and the vault has answered, the reconciler writes what `Sync`
  -- returns exactly when the engine did not take its idempotent skip; and the result is `InSync`.
  pub gate_agrees :
      {W : Type 0} (clock : Clock W) (existing : Option Secret) (w : W)
      (p : SecretSyncStatus × Option Secret)
      → ownership_conflict k owner existing ≡ none
      → (settle k clock owner existing (ok (value, version)) w).0 ≡ ok p
      → (needs_write (prior_of k owner existing) p.0.synced_version p.1
          ≡ not (up_to_date k owner existing value version))
        × (p.0.state ≡ in_sync)
        × (p.0.synced_version ≡ version)
  unfolding settle
  gate_agrees clock existing w p free =
      elim (Bool-cases (up_to_date k owner existing value version)) [
        | inl y ↦ rw y (λ e. agrees clock existing w p (ok_inj e) (needs_write-skip existing y))
        | inr n ↦
            rw n (λ e.
              agrees clock existing w p (ok_inj e) (needs_write-built existing free ∙ ap not n))
      ]
