-- ===== src/Sync/Engine/Steady.antt =====
-- `Sync` of a Secret that is up to date.
use kvsynk8s.Base.{String, ◌≡◌, refl, true, ◌⊎◌, inl, inr, Option, none, some}
use kvsynk8s.Errors.{ok}
use kvsynk8s.Exec.Keeps.{Keeps}
use kvsynk8s.Exec.Triples.{Triple, Triple-pure}
use kvsynk8s.Message.{Message}
use kvsynk8s.Api.{SecretSync, SecretSyncStatus, Secret, is_failing}
use kvsynk8s.Kube.{Kube, SecretReader, Clock}
use kvsynk8s.Sync.Engine.{settle, read_and_settle, sync, up_to_date, ownership_conflict}

module _ {W : Type 0} {P : W → Type 0} (k : Kube) (clock : Clock W)
    (clock_keeps : (w : W) → P w → P (clock.now w).1) (reader : SecretReader W) (owner : SecretSync)
    (existing : Option Secret) (value version : String)
    (keeps : Keeps P (reader.get_latest owner.spec.vault.name owner.spec.vault.secret))
    (answers : (w : W)
      → (reader.get_latest owner.spec.vault.name owner.spec.vault.secret w).0 ≡ ok (value, version))
    (current : up_to_date k owner existing value version ≡ true) where
  -- a failure is reported, or the Secret is given back as it is
  abbrev pub Skips : SecretSyncStatus × Option Secret → W → Type 0
  Skips p w =
      ((is_failing p.0.state ≡ true) ⊎ ((p.0.synced_version ≡ version) × (p.1 ≡ existing))) × P w

  read_and_settle-Skips :
      (conflict : Option Message)
      → Triple P (read_and_settle k clock reader owner existing conflict) Skips P
  unfolding read_and_settle settle
  read_and_settle-Skips (some message) = Triple-pure _ (λ w h. (inl refl, h))
  read_and_settle-Skips none = record {
    at = λ w h.
        let after =
          clock_keeps (reader.get_latest owner.spec.vault.name owner.spec.vault.secret w).1
            (keeps.at w h) in
        rw (answers w, current) (inr (refl, refl), after);
  }

  pub sync-Skips : Triple P (sync k clock (some reader) owner existing) Skips P
  unfolding sync
  sync-Skips = read_and_settle-Skips (ownership_conflict k owner existing)
