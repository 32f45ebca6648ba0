-- ===== src/Examples/Removal.antt =====
-- The deletion of a SecretSync at a target that holds at most one Secret.
use kvsynk8s.Base.{
  get, lookup, ◌≡◌, refl, false, Bool-cases, inl, inr, Option, none, some, [], ◌∷◌, if◌then◌else◌,
}
use kvsynk8s.Errors.{Result, ok, err, leaf, api, not_found, Err}
use kvsynk8s.Api.{Secret}
use kvsynk8s.Kube.{Client, SyncClient}
use kvsynk8s.Sync.Writer.{labeled, controller_owned_by}
use kvsynk8s.Sync.Engine.{controller_owner_reference}
use kvsynk8s.Controller.Removal.{reconcile_delete}
use kvsynk8s.Controller.Removal.Released.{TargetStore, reconcile_delete-releases}
use kvsynk8s.Examples.{owner, rival, foreign, kube}
use kvsynk8s.Examples.Reconcile.{deleted_owner}

abbrev absent : Result Secret
absent = err (leaf (api not_found))

-- what the cache shows of the stored Secret
unfoldable shown : Option Secret → Result Secret
shown none = absent
shown (some s) = if labeled s then ok s else absent

abbrev client : Client (Option Secret)
client = record {
  get_secret = λ namespace name w. (shown w, w);
  create_secret = λ s w. (ok tt, some s);
  update_secret = λ s w. (ok tt, some s);
  delete_secret = λ s w. (ok tt, none);
  list_secrets = λ namespace label value w. (ok [], w);
}

abbrev syncs : SyncClient (Option Secret)
syncs = record {
  get_sync = λ namespace name w. (ok owner, w);
  list_syncs = λ namespace w. (ok [], w);
  update_sync = λ ss w. (ok ss, w);
  update_sync_status = λ deadline ss w. (ok ss, w);
}

hidden :
    (w v : Option Secret) (e : Err) (s : Secret)
    → ◌≡◌ {A = Result Secret × Option Secret} (shown w, w) (err e, v)
    → v ≡ some s
    → labeled s ≡ false
unfolding shown
hidden none v e s a b = cc
hidden (some t) v e s a b = elim (Bool-cases (labeled t)) [
  | inl y ↦
      let b : ◌≡◌ {A = Result Secret × Option Secret} (ok t, some t) (err e, v) = rw y at a in cc
  | inr n ↦ cc (a, b, n)
]

visible :
    (w v : Option Secret) (s : Secret)
    → ◌≡◌ {A = Result Secret × Option Secret} (shown w, w) (ok s, v)
    → v ≡ some s
unfolding shown
visible none v s a =
    let b : ◌≡◌ {A = Result Secret × Option Secret} (absent, none) (ok s, v) = a in cc
visible (some t) v s a = elim (Bool-cases (labeled t)) [
  | inl y ↦
      let b : ◌≡◌ {A = Result Secret × Option Secret} (ok t, some t) (ok s, v) = rw y at a in cc
  | inr n ↦
      let b : ◌≡◌ {A = Result Secret × Option Secret} (absent, some t) (ok s, v) = rw n at a in cc
]

kept_at_target :
    (w v : Option Secret)
    → ◌≡◌ {A = Result (Unit {0}) × Option Secret} (ok tt, none) (ok tt, v)
    → v ≡ none
kept_at_target w v e = cc

store : TargetStore client syncs "apps" "db"
store = record {
  holds = λ w. w;
  found = visible;
  missing = λ w v e s a n b. hidden w v e s a b;
  removed = λ w v s h e. kept_at_target w v e;
  gone = λ w v s e h d n. cc;
  apart = λ ss w. refl;
}

-- the Secret of another SecretSync
abbrev others : Secret
others = record foreign {
  labels = ("app.kubernetes.io/managed-by", "kvsynk8s") ∷ [];
  owner_references = controller_owner_reference rival ∷ [];
}

reconcile_delete-releases_example : controller_owned_by kube others deleted_owner ≡ false
unfolding reconcile_delete shown labeled get lookup controller_owned_by controller_owner_reference
    store
reconcile_delete-releases_example =
    reconcile_delete-releases kube deleted_owner client syncs "apps" "db" store (some others)
      (some others) others refl refl refl refl
