-- ===== src/Examples/Reconcile.antt =====
-- The theorems on whole reconciles, on the example cluster.
use kvsynk8s.Base.{sym, ap, ◌≡◌, true, some, none, [], ◌∷◌, pos, refl}
use kvsynk8s.Errors.{Result, ok, err, leaf, Leaf}
use kvsynk8s.Api.{SecretSync, SecretSyncStatus, Secret, failing, pending, in_sync}
use kvsynk8s.Kube.{SyncClient}
use kvsynk8s.Sync.Engine.Idempotent.{built-up_to_date}
use kvsynk8s.Sync.Engine.{desired_secret, controller_owner_reference}
use kvsynk8s.Sync.Writer.Trace.{start}
use kvsynk8s.Controller.{Reconciler}
use kvsynk8s.Controller.Reconcile.{Target, prior_of, reconcile_live, apply_sync}
use kvsynk8s.Controller.Reconcile.Requeue.{Requeues, reconcile_live-Requeues}
use kvsynk8s.Controller.Reconcile.Calls.{SameObject, OnlyLooks}
use kvsynk8s.Controller.Reconcile.Steady.{NoWrites, reconcile_live-steady}
use kvsynk8s.Controller.Reconcile.Watched.{watched}
use kvsynk8s.Controller.Reconcile.Reports.{apply_sync-quiet}
use kvsynk8s.Controller.Reconcile.Blocked.{Blocked, unheld, reconcile_live-OnlyLooks}
use kvsynk8s.Examples.{
  owner, rival, foreign, fresh_status, kube, kube_laws, Cluster, client, clock, vault,
}

abbrev owned : Secret
owned = record foreign { name = "old"; owner_references = controller_owner_reference owner ∷ [] }

abbrev pub syncs : SyncClient Cluster
syncs = record {
  get_sync = λ ns name c. (ok owner, c);
  list_syncs = λ ns c. (ok (owner ∷ rival ∷ []), c);
  update_sync = λ ss c. (ok ss, c);
  update_sync_status = λ d ss c. (ok ss, c);
}

abbrev pub reconciler : Reconciler Cluster
reconciler = record {
  client = client;
  syncs = syncs;
  reader = some (vault "s3cret");
  api_reader = none;
  clock = clock;
  interval = pos 60;
  recorder = true;
  observe = λ o c. c;
}

abbrev pub target : Target
target = record { namespace = "apps"; name = "db"; data_key = "db-password" }

abbrev pub deleted_owner : SecretSync
deleted_owner = record owner {
  deletion_timestamp = some 500;
  finalizers = "kvsynk8s.io/secretsync-finalizer" ∷ [];
}

reconcile_live-Requeues_example :
    Requeues kube reconciler (reconcile_live kube reconciler owner pending target []).0
reconcile_live-Requeues_example = reconcile_live-Requeues kube reconciler owner pending target []

abbrev failed : SecretSyncStatus
failed = record fresh_status { state = failing }

apply_sync-quiet_example :
    (apply_sync kube
      (watched reconciler)
      owner
      pending
      target
      (prior_of kube owner (some foreign))
      (failed, some foreign)
      (start (foreign ∷ []))).1.calls
    ≡ []
apply_sync-quiet_example =
    apply_sync-quiet kube reconciler owner pending target (prior_of kube owner (some foreign))
      failed (some foreign) (start (foreign ∷ [])) refl

-- a cluster that refuses to update a SecretSync
abbrev refusing : Reconciler Cluster
refusing = record reconciler {
  syncs = record syncs { update_sync = λ ss c. (err (leaf Leaf.plain), c) };
}

still_unheld :
    (status : SecretSyncStatus) (u : SecretSync) (w v : Cluster)
    → ◌≡◌ {A = Result SecretSync × Cluster} (ok (record owner { status = status }), w) (ok u, v)
    → Blocked kube refusing u
still_unheld status u w v e =
    let back : record owner { status = status } ≡ u = cc e in rw (← back) (unheld refl (λ x. tt))

reconcile_live-OnlyLooks_example :
    OnlyLooks
      (reconcile_live kube (watched refusing) owner pending target (start (foreign ∷ []))).1.calls
reconcile_live-OnlyLooks_example =
    reconcile_live-OnlyLooks kube refusing target owner (unheld refl (λ x. tt)) still_unheld pending
      (foreign ∷ [])

pub given_back :
    (ss u : SecretSync) (w v : Cluster)
    → ◌≡◌ {A = Result SecretSync × Cluster} (ok ss, w) (ok u, v)
    → u.uid ≡ ss.uid
given_back ss u w v e = let same : ss ≡ u = cc e in sym (ap (λ (t : SecretSync). t.uid) same)

syncs-SameObject : SameObject kube syncs
syncs-SameObject = record {
  updated_uid = given_back;
  status_uid = λ d. given_back;
  finalizer_uid = λ ss. refl;
}

abbrev settled_owner : SecretSync
settled_owner = record owner { status = record fresh_status { state = in_sync } }

-- what a reconcile of it has written
abbrev settled_secret : Secret
settled_secret = desired_secret settled_owner none "s3cret" "v1"

abbrev showing : Reconciler Cluster
showing = record reconciler {
  client = record client { get_secret = λ ns name c. (ok settled_secret, c) };
}

reconcile_live-steady_example :
    NoWrites
      (reconcile_live kube
        (watched showing)
        settled_owner
        in_sync
        target
        (start (owned ∷ []))).1.calls
reconcile_live-steady_example =
    reconcile_live-steady kube showing syncs-SameObject settled_owner target (vault "s3cret")
      settled_secret "s3cret" "v1" refl (λ w. refl) (λ w. refl)
      (built-up_to_date kube kube_laws settled_owner none "s3cret" "v1") in_sync (owned ∷ []) refl
