-- ===== src/Controller/Reconcile/Inputs.antt =====
-- What `Reconcile` of internal/controller/secretsync_controller.go computes before it writes: the
-- target, the copy of it that was there, whether that needs a write, and the status of a failure
-- that it finds itself.
use kvsynk8s.Base.{
  String, Bool, true, false, not, ◌||◌, Option, none, some, [], ◌∷◌, Dict, get, str_eq,
}
use kvsynk8s.Message.{Message, text}
use kvsynk8s.Api.{SecretSync, SecretSyncStatus, failing, Reason, Secret}
use kvsynk8s.Kube.{Kube}
use kvsynk8s.Sync.Writer.{annotation_version, controller_owned_by}
use kvsynk8s.Controller.{resolve_target_name, resolve_data_key, equal_data}

-- The status of a failure that `Reconcile` finds itself.
unfoldable pub own_failure : SecretSync → Reason → Message → SecretSyncStatus
own_failure ss reason message = record {
  state = failing;
  last_sync_time = ss.status.last_sync_time;
  synced_version = ss.status.synced_version;
  reason = reason;
  message = message;
  observed_generation = ss.generation;
  conditions = [];
}

abbrev pub secret_at : SecretSync → String → String → Message
secret_at ss target rest =
    text "secret " ∷ text ss.namespace ∷ text "/" ∷ text target ∷ text rest ∷ []

-- `targetKey`, with `targetName` as its name, and `dataKey`: set once, from the fetched object.
pub record Target : Type 0 where
  pub namespace : String
  pub name : String
  pub data_key : String

unfoldable pub resolve_target : SecretSync → Target
resolve_target ss = record {
  namespace = ss.namespace;
  name = resolve_target_name ss;
  data_key = resolve_data_key ss;
}

-- The copy of the target before `Sync`: `priorVersion`, `priorData` and `priorOwned`.
pub record Prior : Type 0 where
  pub exists : Bool
  pub owned : Bool
  pub version : String
  pub contents : Dict String

unfoldable pub prior_of : Kube → SecretSync → Option Secret → Prior
prior_of k ss none = record { exists = false; owned = false; version = ""; contents = [] }
prior_of k ss (some s) = record {
  exists = true;
  owned = controller_owned_by k s ss;
  version = get annotation_version s.annotations;
  contents = s.contents;
}

-- `desired.Data`. `Sync` returns a Secret whenever it does not fail.
abbrev pub contents_of : Option Secret → Dict String
contents_of none = []
contents_of (some s) = s.contents

-- the gate of the write
unfoldable pub needs_write : Prior → String → Option Secret → Bool
needs_write prior version desired =
    not prior.exists
    || not prior.owned
    || not (str_eq prior.version version)
    || not (equal_data prior.contents (contents_of desired))
