-- ===== src/Controller/Reconcile/Fetched.antt =====
-- A whole reconcile that nobody disturbs, from the Get of its object on.
use kvsynk8s.Base.{String, ◌≡◌}
use kvsynk8s.Api.{SecretSync}
use kvsynk8s.Kube.{Kube, KubeLaws}
use kvsynk8s.Sync.Engine.{sync_data_key}
use kvsynk8s.Controller.{Reconciler}
use kvsynk8s.Controller.Status.{defaults_agree}
use kvsynk8s.Controller.Reconcile.{resolve_target}
use kvsynk8s.Controller.Reconcile.Undisturbed.{Undisturbed}

module _ {W : Type 0} (k : Kube) (laws : KubeLaws k) (r : Reconciler W) (ss : SecretSync)
    (value version : String) (env : Undisturbed k r ss (resolve_target ss) value version) where
  pub same_key : (resolve_target ss).data_key ≡ sync_data_key ss
  unfolding resolve_target
  same_key = (defaults_agree ss).1
