-- ===== src/Sync/Engine/Keeps.antt =====
-- What reading the vault and the clock keep, `Sync` keeps.
use kvsynk8s.Base.{String, Option, none, some, Bool-cases, inl, inr}
use kvsynk8s.Errors.{Result, ok, err}
use kvsynk8s.Exec.Keeps.{Keeps, Keeps-pure, Keeps-raise, Keeps-attempt}
use kvsynk8s.Message.{Message}
use kvsynk8s.Api.{SecretSync, Secret}
use kvsynk8s.Kube.{Kube, SecretReader, Clock}
use kvsynk8s.Sync.Engine.{settle, read_and_settle, sync, up_to_date}

module _ {W : Type 0} {P : W → Type 0} (k : Kube) (clock : Clock W)
    (clock_keeps : (w : W) → P w → P (clock.now w).1) where
  settle-Keeps :
      (owner : SecretSync) (existing : Option Secret) (a : Result (String × String))
      → Keeps P (settle k clock owner existing a)
  unfolding settle
  settle-Keeps owner existing (err e) = record { at = λ w h. h }
  settle-Keeps owner existing (ok (value, version)) = record {
    at = λ w h. elim (Bool-cases (up_to_date k owner existing value version)) [
      | inl y ↦ rw y (clock_keeps w h)
      | inr n ↦ rw n (clock_keeps w h)
    ];
  }

  read_and_settle-Keeps :
      (reader : SecretReader W)
      → ((vault secret : String) → Keeps P (reader.get_latest vault secret))
      → (owner : SecretSync) (existing : Option Secret) (conflict : Option Message)
      → Keeps P (read_and_settle k clock reader owner existing conflict)
  unfolding read_and_settle
  read_and_settle-Keeps reader keeps owner existing none =
      Keeps-attempt _ _ (keeps _ _) (settle-Keeps owner existing)
  read_and_settle-Keeps reader keeps owner existing (some message) = Keeps-pure _

  -- each read of the vault keeps `P`
  abbrev pub ReadsKeep : Option (SecretReader W) → Type 0
  ReadsKeep none = Unit
  ReadsKeep (some r) = (vault secret : String) → Keeps P (r.get_latest vault secret)

  pub sync-Keeps :
      (reader : Option (SecretReader W))
      → ReadsKeep reader
      → (owner : SecretSync) (existing : Option Secret)
      → Keeps P (sync k clock reader owner existing)
  unfolding sync
  sync-Keeps none keeps owner existing = Keeps-raise _
  sync-Keeps (some r) keeps owner existing = read_and_settle-Keeps r keeps owner existing _
