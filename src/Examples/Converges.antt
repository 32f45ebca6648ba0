-- ===== src/Examples/Converges.antt =====
-- A reconcile on the store of one Secret: the target is not there yet, and another SecretSync claims
-- it too, later.
use kvsynk8s.Base.{
  eq_refl, ◌≡◌, refl, true, Option, none, some, [], ◌∷◌, Bool-cases, inl, inr, str_eq, eq_iff, pos,
}
use kvsynk8s.Errors.{ok}
use kvsynk8s.Api.{SecretSync, Secret, in_sync}
use kvsynk8s.Kube.{SyncClient, SecretReader}
use kvsynk8s.Sync.Writer.{new_secret}
use kvsynk8s.Sync.Writer.Quiet.{Request, creating, updating}
use kvsynk8s.Sync.Writer.Atomic.{filled}
use kvsynk8s.Sync.Engine.{sync_data_key, controller_owner_reference}
use kvsynk8s.Controller.{Reconciler, finalizer_name, resolve_target_name}
use kvsynk8s.Controller.Reconcile.{resolve_target}
use kvsynk8s.Controller.Reconcile.Keeps.{RestKeeps}
use kvsynk8s.Controller.Reconcile.Undisturbed.{OfType, Undisturbed}
use kvsynk8s.Examples.{owner, rival, kube, fresh_status}
use kvsynk8s.Examples.Atomic.{changed_type, one, one_reader, one_store}

abbrev steady_owner : SecretSync
steady_owner = record owner {
  finalizers = finalizer_name ∷ [];
  status = record fresh_status { state = in_sync };
}

abbrev syncs : SyncClient (Option Secret)
syncs = record {
  get_sync = λ ns name w. (ok steady_owner, w);
  list_syncs = λ ns w. (ok (steady_owner ∷ rival ∷ []), w);
  update_sync = λ ss w. (ok ss, w);
  update_sync_status = λ d ss w. (ok ss, w);
}

abbrev vault : SecretReader (Option Secret)
vault = record { get_latest = λ v s w. (ok ("s3cret", "v1"), w) }

abbrev reconciler : Reconciler (Option Secret)
reconciler = record {
  client = one;
  syncs = syncs;
  reader = some vault;
  api_reader = some one_reader;
  clock = record { now = λ w. (1000, w) };
  interval = pos 60;
  recorder = true;
  observe = λ o w. w;
}

rest_keeps : (o : Option Secret) → RestKeeps (λ w. w ≡ o) reconciler (resolve_target steady_owner)
unfolding resolve_target resolve_target_name
rest_keeps o = record {
  statuses = λ d ss. record { at = λ w h. h };
  rest = record {
    lists = λ ns key value. record { at = λ w h. h };
    deletes = λ s other. record {
      at = λ w h. elim (Bool-cases (str_eq s.name "db")) [
        | inl y ↦ absurd (other ((eq_iff s.name "db").0 y))
        | inr n ↦ rw n h
      ];
    };
    observes = λ o w h. h;
  };
}

one_accepts :
    (q : Request) (w : Option Secret) (s : Secret)
    → OfType w
    → s.kind ≡ "Opaque"
    → changed_type q w s ≡ none
one_accepts creating w s typed e = refl
one_accepts updating none s typed e = refl
one_accepts updating (some t) s typed e =
    let same : str_eq s.kind t.kind ≡ true = rw (e, typed) (eq_refl "Opaque") in rw same

undisturbed : Undisturbed kube reconciler steady_owner (resolve_target steady_owner) "s3cret" "v1"
unfolding resolve_target resolve_target_name one_store
undisturbed = record {
  fresh = one_reader;
  store = one_store;
  accepts = one_accepts;
  uncached = refl;
  vault = vault;
  vault_wired = refl;
  answers = λ w. refl;
  vault_apart = λ w. refl;
  clock_apart = λ w. refl;
  list_apart = λ w. refl;
  rest = rest_keeps;
}

abbrev filled_in : Secret
filled_in =
    record (filled kube steady_owner (sync_data_key steady_owner) "s3cret" "v1"
      (new_secret "apps" "db")) { owner_references = controller_owner_reference steady_owner ∷ [] }
