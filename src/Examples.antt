-- ===== src/Examples.antt =====
-- Values on which the theorems are run: two SecretSyncs that claim one target, a cluster that keeps
-- its Secrets in a list, a vault, and a queue. The modules below apply each theorem to them.
mod Writer
mod Engine
mod Controller
mod Events
mod Azure
mod Lock
mod Reconcile
mod Removal
mod Rivals
mod Statuses
mod ApiServer
mod Concurrency
mod Atomic
mod Startup
mod Converges
use kvsynk8s.Base.{
  ℕ, String, ◌≡◌, refl, Bool, true, false, Option, none, some, Option-cases, inl, inr, List, [],
  ◌∷◌, str_eq, eq_refl, eq_iff, Bool-cases, if◌then◌else◌, ◌&&◌, arith,
}
use kvsynk8s.Errors.{Err, Result, ok, err, leaf, api, not_found, already_exists}
use kvsynk8s.Exec.{Exec}
use kvsynk8s.Api.{SecretSync, SecretSyncStatus, Secret, OwnerReference, unset, no_reason, in_sync}
use kvsynk8s.Kube.{
  Kube, KubeLaws, OwnerOutcome, owner_set, already_owned, Client, Reader, SecretReader, Clock,
}
use kvsynk8s.Sync.Writer.{frozen}
use kvsynk8s.Sync.Engine.{controller_owner_reference}

abbrev pub fresh_status : SecretSyncStatus
fresh_status = record {
  state = unset;
  last_sync_time = none;
  synced_version = "";
  reason = no_reason;
  message = [];
  observed_generation = 0;
  conditions = [];
}

abbrev pub owner : SecretSync
owner = record {
  namespace = "apps";
  name = "db";
  uid = "uid-1";
  generation = 1;
  creation_timestamp = 100;
  deletion_timestamp = none;
  finalizers = [];
  spec = record {
    vault = record { name = "prod"; secret = "db-password" };
    target = record { secret_name = ""; data_key = "" };
  };
  status = fresh_status;
}

-- claims the same target, later
abbrev pub rival : SecretSync
rival = record owner {
  name = "late";
  uid = "uid-2";
  creation_timestamp = 200;
  spec = record {
    vault = record { name = "prod"; secret = "db-password" };
    target = record { secret_name = "db"; data_key = "" };
  };
}

abbrev pub foreign : Secret
foreign = record {
  namespace = "apps";
  name = "db";
  resource_version = "7";
  labels = [];
  annotations = [];
  owner_references = [];
  kind = "Opaque";
  immutable = none;
  contents = [];
}

abbrev controller_of : List OwnerReference → Option OwnerReference
controller_of [] = none
controller_of (r ∷ rs) = let rest = controller_of rs in if frozen r.controller then some r else rest

abbrev own : SecretSync → List OwnerReference → Option OwnerReference → OwnerOutcome
own o refs none = owner_set (controller_owner_reference o ∷ [])
own o refs (some r) = if str_eq r.uid o.uid then owner_set refs else already_owned

abbrev pub kube : Kube
kube = record {
  get_controller_of = controller_of;
  set_controller_reference = λ o s. own o s.owner_references (controller_of s.owner_references);
  contains_finalizer = λ ss f. elim ss.finalizers [ [] ↦ false | g ∷ gs ↦ str_eq g f ];
  add_finalizer = λ ss f. record ss { finalizers = f ∷ ss.finalizers };
  remove_finalizer = λ ss f. record ss { finalizers = [] };
  set_status_condition = λ cs c. c ∷ [];
}

single : (r : OwnerReference) → r.controller ≡ some true → controller_of (r ∷ []) ≡ some r
single r e = rw e

given-owns :
    (o : SecretSync) (given refs : List OwnerReference) (r : OwnerReference)
    → controller_of given ≡ some r
    → own o given (some r) ≡ owner_set refs
    → (s : OwnerReference) × (controller_of refs ≡ some s) × (s.uid ≡ o.uid)
given-owns o given refs r e = elim (Bool-cases (str_eq r.uid o.uid)) [
  | inl y ↦
      rw y (λ h. let same : given ≡ refs = cc h in (r, rw (← same) e, (eq_iff r.uid o.uid).0 y))
  | inr n ↦ rw n (λ h. cc)
]

own-owns :
    (o : SecretSync) (given refs : List OwnerReference) (c : Option OwnerReference)
    → controller_of given ≡ c
    → own o given c ≡ owner_set refs
    → (r : OwnerReference) × (controller_of refs ≡ some r) × (r.uid ≡ o.uid)
unfolding controller_owner_reference
own-owns o given refs none e h =
    let same : controller_owner_reference o ∷ [] ≡ refs = cc h in
    (controller_owner_reference o, rw (← same) refl, refl)
own-owns o given refs (some r) e h = given-owns o given refs r e h

pub kube_laws : KubeLaws kube
kube_laws = record {
  controller_of_single = single;
  set_reference_owns =
      λ o s refs. own-owns o s.owner_references refs (controller_of s.owner_references) refl;
}

-- the Secrets of the cluster
abbrev pub Cluster : Type 0
Cluster = List Secret

abbrev find : String → String → Cluster → Result Secret
find ns name [] = err (leaf (api not_found))
find ns name (s ∷ ss) =
    let rest = find ns name ss in if str_eq s.namespace ns && str_eq s.name name then ok s else rest

abbrev replace : Secret → Cluster → Cluster
replace s [] = []
replace s (t ∷ ts) = let rest = replace s ts in if str_eq s.name t.name then s ∷ rest else t ∷ rest

abbrev without : Secret → Cluster → Cluster
without s [] = []
without s (t ∷ ts) = let rest = without s ts in if str_eq s.name t.name then rest else t ∷ rest

abbrev pub client : Client Cluster
client = record {
  get_secret = λ ns name c. (find ns name c, c);
  create_secret = λ s c. elim (find s.namespace s.name c) [
    | ok t ↦ (err (leaf (api already_exists)), c)
    | err e ↦ (ok tt, s ∷ c)
  ];
  update_secret = λ s c. (ok tt, replace s c);
  delete_secret = λ s c. (ok tt, without s c);
  list_secrets = λ ns key value c. (ok c, c);
}

-- a vault whose secret has this value, at version "v1"
abbrev pub vault : String → SecretReader Cluster
vault value = record { get_latest = λ v s c. (ok (value, "v1"), c) }

abbrev pub clock : Clock Cluster
clock = record { now = λ c. (1000, c) }
