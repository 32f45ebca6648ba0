-- ===== src/Sync/Engine/Unread.antt =====
-- `Sync` while the vault cannot be read.
use kvsynk8s.Base.{String, ◌≡◌, refl, true, Option, none, some}
use kvsynk8s.Errors.{Result, ok, err}
use kvsynk8s.Exec.Keeps.{Keeps}
use kvsynk8s.Exec.Triples.{Ends, Triple, Triple-pure}
use kvsynk8s.Message.{Message}
use kvsynk8s.Api.{SecretSync, SecretSyncStatus, Secret, is_failing}
use kvsynk8s.Kube.{Kube, SecretReader, Clock}
use kvsynk8s.Sync.Engine.{settle, read_and_settle, sync, ownership_conflict}

abbrev pub Fails : {A : Type 0} → Result A → Type 0
Fails (ok a) = ⊥
Fails (err e) = Unit

module _ {W : Type 0} {P : W → Type 0} (k : Kube) (clock : Clock W) (reader : SecretReader W)
    (owner : SecretSync) (existing : Option Secret)
    (keeps : Keeps P (reader.get_latest owner.spec.vault.name owner.spec.vault.secret))
    (fails : (w : W)
      → Fails (reader.get_latest owner.spec.vault.name owner.spec.vault.secret w).0) where
  abbrev Reported : SecretSyncStatus × Option Secret → W → Type 0
  Reported p w = (is_failing p.0.state ≡ true) × P w

  settle-Reported :
      (a : Result (String × String)) (w : W)
      → Fails a
      → P w
      → Ends Reported P (settle k clock owner existing a w)
  unfolding settle
  settle-Reported (ok p) w n h = absurd n
  settle-Reported (err e) w n h = (refl, h)

  read_and_settle-Reported :
      (conflict : Option Message)
      → Triple P (read_and_settle k clock reader owner existing conflict) Reported P
  unfolding read_and_settle
  read_and_settle-Reported (some message) = Triple-pure _ (λ w h. (refl, h))
  read_and_settle-Reported none = record {
    at = λ w h.
        let p = reader.get_latest owner.spec.vault.name owner.spec.vault.secret w in
        settle-Reported p.0 p.1 (fails w) (keeps.at w h);
  }

  -- a failure is reported
  pub sync-Reported : Triple P (sync k clock (some reader) owner existing) Reported P
  unfolding sync
  sync-Reported = read_and_settle-Reported (ownership_conflict k owner existing)
