-- ===== src/Examples/Statuses.antt =====
-- A first reconcile, in a world that is the history of the stored statuses: the target is not there
-- yet, and all calls succeed.
use kvsynk8s.Base.{String, true, ◌≡◌, refl, inl, none, some, List, [], ◌∷◌, ◌++◌, All, pos}
use kvsynk8s.Errors.{Result, ok, err, leaf, api, not_found}
use kvsynk8s.Api.{SecretSync, SecretSyncStatus, unset}
use kvsynk8s.Kube.{Client, SyncClient, SecretReader}
use kvsynk8s.Sync.Writer.{writer_reader}
use kvsynk8s.Sync.Engine.Fits.{Carries}
use kvsynk8s.Controller.{Reconciler}
use kvsynk8s.Controller.Reconcile.{reconcile_live}
use kvsynk8s.Controller.Reconcile.Sound.{IsSound, SameStatus, Journal}
use kvsynk8s.Controller.Reconcile.History.{reconcile_live-IsSound}
use kvsynk8s.Examples.{owner, kube}
use kvsynk8s.Examples.Reconcile.{target}

abbrev Statuses : Type 0
Statuses = List SecretSyncStatus

abbrev client : Client Statuses
client = record {
  get_secret = λ namespace name w. (err (leaf (api not_found)), w);
  create_secret = λ s w. (ok tt, w);
  update_secret = λ s w. (ok tt, w);
  delete_secret = λ s w. (ok tt, w);
  list_secrets = λ namespace label value w. (ok [], w);
}

abbrev syncs : SyncClient Statuses
syncs = record {
  get_sync = λ namespace name w. (ok owner, w);
  list_syncs = λ namespace w. (ok (owner ∷ []), w);
  update_sync = λ ss w. (ok ss, w);
  update_sync_status = λ deadline ss w. (ok ss, ss.status ∷ w);
}

abbrev vault : SecretReader Statuses
vault = record { get_latest = λ name secret w. (ok ("s3cret", "v1"), w) }

abbrev reconciler : Reconciler Statuses
reconciler = record {
  client = client;
  syncs = syncs;
  reader = some vault;
  api_reader = none;
  clock = record { now = λ w. (1000, w) };
  interval = pos 60;
  recorder = true;
  observe = λ o w. w;
}

itself : (ss : SecretSync) → Carries ss ss
itself ss = record { generation = refl; last_sync_time = refl; synced_version = refl }

kept :
    (ss u : SecretSync) (w w' v : Statuses)
    → ◌≡◌ {A = Result SecretSync × Statuses} (ok ss, w') (ok u, v)
    → Carries ss u
kept ss u w w' v e = let same : ss ≡ u = cc e in rw (← same) (itself ss)

syncs-SameStatus : SameStatus kube syncs
syncs-SameStatus = record {
  updated = λ ss u w v e. kept ss u w w v e;
  status_updated = λ d ss u w v e. kept ss u w (ss.status ∷ w) v e;
  with_finalizer = λ ss. record { generation = refl; last_sync_time = refl; synced_version = refl };
}

read_apart :
    (v : SecretReader Statuses)
    → reconciler.reader ≡ some v
    → (name secret : String) (w : Statuses) → (v.get_latest name secret w).1 ≡ w
read_apart v e name secret w = let same : vault ≡ v = cc e in rw (← same) refl

journal : Journal reconciler (writer_reader client none)
unfolding writer_reader
journal = record {
  statuses = λ w. w;
  stores = λ d ss w. inl refl;
  update_sync = λ ss w. refl;
  list_syncs = λ namespace w. refl;
  get_secret = λ namespace name w. refl;
  create_secret = λ s w. refl;
  update_secret = λ s w. refl;
  delete_secret = λ s w. refl;
  list_secrets = λ namespace key value w. refl;
  read_secret = λ namespace name w. refl;
  get_latest = λ v e name secret w. read_apart v e name secret w;
  now = λ w. refl;
  observe = λ o w. refl;
}

reconcile_live-IsSound_example :
    (added : List SecretSyncStatus) × (journal.statuses
        (reconcile_live kube reconciler owner unset target []).1
      ≡ added ++ journal.statuses [])
    × All (IsSound kube owner) added
reconcile_live-IsSound_example =
    reconcile_live-IsSound kube reconciler syncs-SameStatus journal owner unset target []
