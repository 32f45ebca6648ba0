-- ===== src/Examples/Rivals.antt =====
-- A reconcile of the SecretSync that came second, from its Get on.
use kvsynk8s.Base.{refl, [], ◌∷◌}
use kvsynk8s.Errors.{ok}
use kvsynk8s.Kube.{SyncClient}
use kvsynk8s.Sync.Writer.Trace.{start}
use kvsynk8s.Controller.{Reconciler}
use kvsynk8s.Controller.Reconcile.{reconcile}
use kvsynk8s.Controller.Reconcile.Watched.{watched}
use kvsynk8s.Controller.Reconcile.Calls.{SameObject}
use kvsynk8s.Controller.Reconcile.Orderly.{IsOrderly, reconcile-IsOrderly}
use kvsynk8s.Examples.{rival, foreign, kube, Cluster}
use kvsynk8s.Examples.Reconcile.{syncs, reconciler, given_back}

abbrev second : SyncClient Cluster
second = record syncs { get_sync = λ namespace name c. (ok rival, c) }

second-SameObject : SameObject kube second
second-SameObject = record {
  updated_uid = given_back;
  status_uid = λ d. given_back;
  finalizer_uid = λ ss. refl;
}

abbrev second_reconciler : Reconciler Cluster
second_reconciler = record reconciler { syncs = second }

reconcile-IsOrderly_example :
    IsOrderly kube
      (ok rival)
      (reconcile kube (watched second_reconciler) "apps" "late" (start (foreign ∷ []))).1.calls
reconcile-IsOrderly_example =
    reconcile-IsOrderly kube second_reconciler second-SameObject "apps" "late" (foreign ∷ [])
