-- ===== src/Controller/Reconcile/Orderly.antt =====
-- The calls on Secrets of a whole reconcile, from the Get of its object on. The controller has two
-- workers, and others write too: what they do between two calls of this reconcile is part of what
-- its calls do to the world, which may be anything here.
use kvsynk8s.Base.{String, ◌≡◌, refl, Bool-cases, inl, inr, Option, none, some, ℕ, pos, List, []}
use kvsynk8s.Errors.{Result, ok, err, errors_is, is_not_found}
use kvsynk8s.Exec.{continue, pure}
use kvsynk8s.Api.{SecretSync}
use kvsynk8s.Kube.{Kube}
use kvsynk8s.Sync.Writer.Trace.{Call, Traced, start}
use kvsynk8s.Controller.{Reconciler}
use kvsynk8s.Controller.Removal.{reconcile_delete}
use kvsynk8s.Controller.Removal.Safety.{AllRemovals, reconcile_delete-AllRemovals}
use kvsynk8s.Controller.Reconcile.{resolve_target, reconcile_found, dispatch, reconcile}
use kvsynk8s.Controller.Reconcile.Watched.{watched}
use kvsynk8s.Controller.Reconcile.Calls.{SameObject, AllSafe}
use kvsynk8s.Controller.Reconcile.Live.{reconcile_live-AllSafe}

-- Nothing is done for an object that could not be read. For one that is being deleted, only Secrets
-- that it controls are deleted and none is written. For any other, each request is safe.
abbrev pub OrderlyAt : Kube → SecretSync → Option ℕ → List Call → Type 0
OrderlyAt k ss (some t) calls = AllRemovals k ss (λ s. Unit {0}) calls
OrderlyAt k ss none calls = AllSafe k ss (resolve_target ss) calls

abbrev pub IsOrderly : Kube → Result SecretSync → List Call → Type 0
IsOrderly k (err x) calls = calls ≡ []
IsOrderly k (ok ss) calls = OrderlyAt k ss ss.deletion_timestamp calls

module _ {W : Type 0} (k : Kube) (r : Reconciler W) (same : SameObject k r.syncs) where
  then_none :
      (p : Result (Unit {0}) × Traced W)
      → (continue (λ (u : Unit {0}). pure (pos 0)) p.0 p.1).1.calls ≡ p.1.calls
  then_none (ok u, t) = refl
  then_none (err e, t) = refl

  reconcile_found-OrderlyAt :
      (ss : SecretSync) (leaving : Option ℕ) (v : W)
      → OrderlyAt k ss leaving (reconcile_found k (watched r) ss leaving (start v)).1.calls
  unfolding reconcile_found resolve_target
  reconcile_found-OrderlyAt ss none v =
      reconcile_live-AllSafe k r same ss (resolve_target ss) ss.status.state v
  reconcile_found-OrderlyAt ss (some t) v =
      let target = resolve_target ss in
      rw
        (then_none (
          reconcile_delete k (watched r).client (watched r).syncs ss target.namespace target.name
            (start v)))
        (reconcile_delete-AllRemovals k ss r.client r.syncs target.name v)

  dispatch-IsOrderly :
      (fetched : Result SecretSync) (v : W)
      → IsOrderly k fetched (dispatch k (watched r) fetched (start v)).1.calls
  unfolding dispatch
  dispatch-IsOrderly (err e) v = elim (Bool-cases (errors_is is_not_found e)) [
    | inl y ↦ rw y refl
    | inr n ↦ rw n refl
  ]
  dispatch-IsOrderly (ok ss) v = reconcile_found-OrderlyAt ss ss.deletion_timestamp v

  -- Whatever the cluster, the vault and the API server answer, a reconcile is orderly: one whose
  -- object cannot be read makes no call on a Secret; one of an object that is being deleted writes
  -- no Secret and deletes only Secrets that the object controls; any other makes only safe requests.
  -- An Update of the object, and the helper that adds the finalizer to it, are taken to give back
  -- its UID.
  pub reconcile-IsOrderly :
      (namespace name : String) (w : W)
      → IsOrderly k
          (r.syncs.get_sync namespace name w).0
          (reconcile k (watched r) namespace name (start w)).1.calls
  unfolding reconcile
  reconcile-IsOrderly namespace name w =
      let (fetched, v) = r.syncs.get_sync namespace name w in dispatch-IsOrderly fetched v
