-- ===== src/Controller/Reconcile/Undisturbed.antt =====
-- What a reconcile (internal/controller/secretsync_controller.go) relies on while nobody disturbs it.
use kvsynk8s.Base.{String, ◌≡◌, Option, none, some}
use kvsynk8s.Errors.{ok}
use kvsynk8s.Api.{SecretSync, Secret}
use kvsynk8s.Kube.{Kube, Reader, SecretReader}
use kvsynk8s.Sync.Writer.Quiet.{Request, QuietStore}
use kvsynk8s.Controller.{Reconciler}
use kvsynk8s.Controller.Reconcile.{Target}
use kvsynk8s.Controller.Reconcile.Keeps.{RestKeeps}

-- no Secret of another type than the writer's is there
abbrev pub OfType : Option Secret → Type 0
OfType none = Unit
OfType (some s) = s.kind ≡ "Opaque"

-- What surrounds the reconcile: nobody else writes the target, the API server turns down no Secret of
-- the writer's type unless one of another type is there, the vault answers one value and version, and
-- no other call touches what is stored at the target.
pub record Undisturbed {W : Type 0} (k : Kube) (r : Reconciler W) (ss : SecretSync)
    (target : Target) (value version : String) : Type 0 where
  pub fresh : Reader W
  pub store : QuietStore r.client fresh target.namespace target.name
  pub accepts :
      (q : Request) (w : W) (s : Secret)
      → OfType (store.holds w)
      → s.kind ≡ "Opaque"
      → store.refusal q w s ≡ none
  pub uncached : r.api_reader ≡ some fresh
  pub vault : SecretReader W
  pub vault_wired : r.reader ≡ some vault
  pub answers :
      (w : W) → (vault.get_latest ss.spec.vault.name ss.spec.vault.secret w).0 ≡ ok (value, version)
  pub vault_apart :
      (w : W)
      → store.holds (vault.get_latest ss.spec.vault.name ss.spec.vault.secret w).1 ≡ store.holds w
  pub clock_apart : (w : W) → store.holds (r.clock.now w).1 ≡ store.holds w
  pub list_apart :
      (w : W) → store.holds (r.syncs.list_syncs (some ss.namespace) w).1 ≡ store.holds w
  pub rest : (o : Option Secret) → RestKeeps (λ w. store.holds w ≡ o) r target
