-- ===== src/Sync/Engine/Answered.antt =====
-- `Sync` when the vault answers and nobody else owns the target.
use kvsynk8s.Base.{
  String, ◌≡◌, refl, Bool-cases, inl, inr, Option, none, some, get, lookup, eq_refl, if◌then◌else◌,
}
use kvsynk8s.Errors.{ok}
use kvsynk8s.Exec.Keeps.{Keeps}
use kvsynk8s.Exec.Triples.{Triple}
use kvsynk8s.Api.{SecretSync, SecretSyncStatus, Secret, in_sync}
use kvsynk8s.Kube.{Kube, SecretReader, Clock}
use kvsynk8s.Sync.Writer.{populate_managed_secret}
use kvsynk8s.Sync.Engine.{
  settle, read_and_settle, sync, sync_data_key, up_to_date, ownership_conflict, desired_secret,
}

-- the built Secret has the value at the data key
pub desired_secret-value :
    (owner : SecretSync) (existing : Option Secret) (value version : String)
    → get (sync_data_key owner) (desired_secret owner existing value version).contents ≡ value
unfolding desired_secret populate_managed_secret get lookup
desired_secret-value owner existing value version =
    rw (get, lookup, eq_refl (sync_data_key owner)) refl

module _ (k : Kube) (owner : SecretSync) (existing : Option Secret) (value version : String) where
  -- in sync at the version, with the Secret that is there or the one to write
  abbrev pub Answered : SecretSyncStatus × Option Secret → Type 0
  Answered p =
      (p.0.state ≡ in_sync)
      × (p.0.synced_version ≡ version)
      × (p.1 ≡ (
          if up_to_date k owner existing value version
          then existing
          else some (desired_secret owner existing value version)))

module _ {W : Type 0} {P E : W → Type 0} (k : Kube) (clock : Clock W)
    (clock_keeps : (w : W) → P w → P (clock.now w).1) (reader : SecretReader W) (owner : SecretSync)
    (existing : Option Secret) (value version : String)
    (keeps : Keeps P (reader.get_latest owner.spec.vault.name owner.spec.vault.secret))
    (answers : (w : W)
      → (reader.get_latest owner.spec.vault.name owner.spec.vault.secret w).0 ≡ ok (value, version))
    (free : ownership_conflict k owner existing ≡ none) where
  pub sync-Answered :
      Triple P
        (sync k clock (some reader) owner existing)
        (λ p w. Answered k owner existing value version p × P w)
        E
  unfolding sync read_and_settle settle
  sync-Answered = record {
    at = λ w h.
        let after =
          clock_keeps (reader.get_latest owner.spec.vault.name owner.spec.vault.secret w).1
            (keeps.at w h) in
        elim (Bool-cases (up_to_date k owner existing value version)) [
          | inl y ↦ rw (free, answers w, y) ((refl, refl, refl), after)
          | inr n ↦ rw (free, answers w, n) ((refl, refl, refl), after)
        ];
  }
