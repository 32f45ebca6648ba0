-- ===== src/Controller/Removal/Safety.antt =====
-- Which Secrets the two removals delete, whatever the cluster answers.
use kvsynk8s.Base.{String, ◌≡◌, ◌≢◌, true, Bool-cases, inl, inr, List, [], ◌∷◌, str_eq, eq_iff}
use kvsynk8s.Errors.{Result, ok, err, errors_is, is_not_found}
use kvsynk8s.Exec.{Exec, pure, attempt, continue, rewrap}
use kvsynk8s.Api.{SecretSync, Secret}
use kvsynk8s.Kube.{Kube, Client, SyncClient}
use kvsynk8s.Sync.Writer.{controller_owned_by, label_managed_by, label_managed_by_value}
use kvsynk8s.Sync.Writer.Trace.{
  Call, looked, created, updated, deleted, Traced, start, traced, log_looks, after_look,
}
use kvsynk8s.Controller.{finalizer_name}
use kvsynk8s.Controller.Removal.{
  ignore_gone, delete_if_owned, delete_each, delete_stale_managed_secrets, remove_target,
  drop_finalizer, reconcile_delete,
}

abbrev pub quiet : {W A : Type 0} → Exec W A → Exec (Traced W) A
quiet m t = let (r, w) = m t.world in (r, record { world = w; calls = t.calls })

-- the calls on SecretSyncs, which leave no trace
abbrev pub untraced : {W : Type 0} → SyncClient W → SyncClient (Traced W)
untraced c = record {
  get_sync = λ ns name. quiet (c.get_sync ns name);
  list_syncs = λ ns. quiet (c.list_syncs ns);
  update_sync = λ ss. quiet (c.update_sync ss);
  update_sync_status = λ d ss. quiet (c.update_sync_status d ss);
}

module _ (k : Kube) (ss : SecretSync) (P : Secret → Type 0) where
  -- A call of a removal: nothing is written, and what is deleted belongs to `ss` and has `P`.
  abbrev pub IsRemoval : Call → Type 0
  IsRemoval (looked s) = Unit
  IsRemoval (created s) = ⊥
  IsRemoval (updated s) = ⊥
  IsRemoval (deleted s) = (controller_owned_by k s ss ≡ true) × P s

  abbrev pub AllRemovals : List Call → Type 0
  AllRemovals [] = Unit
  AllRemovals (c ∷ cs) = IsRemoval c × AllRemovals cs

  module _ {W : Type 0} (c : Client W) where
    -- the calls after a step
    abbrev KeepsTo : {A : Type 0} → Result A × Traced W → Type 0
    KeepsTo p = AllRemovals p.1.calls

    ignore_gone-KeepsTo :
        (r : Result (Unit {0})) (t : Traced W)
        → AllRemovals t.calls
        → KeepsTo (ignore_gone k (traced c) r t)
    unfolding ignore_gone
    ignore_gone-KeepsTo (ok u) t h = h
    ignore_gone-KeepsTo (err e) t h = elim (Bool-cases (errors_is is_not_found e)) [
      | inl y ↦ rw y h
      | inr n ↦ rw n h
    ]

    delete_if_owned-KeepsTo :
        (s : Secret) (t : Traced W)
        → P s
        → AllRemovals t.calls
        → KeepsTo (delete_if_owned k (traced c) ss s t)
    unfolding delete_if_owned
    delete_if_owned-KeepsTo s t p h = elim (Bool-cases (controller_owned_by k s ss)) [
      | inl y ↦ rw y (
          ignore_gone-KeepsTo (c.delete_secret s t.world).0
            (record { world = (c.delete_secret s t.world).1; calls = deleted s ∷ t.calls })
            ((y, p), h))
      | inr n ↦ rw n h
    ]

    -- what follows a step by `>>=`
    continue-KeepsTo :
        {A B : Type 0} (f : A → Exec (Traced W) B) (r : Result A) (t : Traced W)
        → AllRemovals t.calls
        → ((a : A) → KeepsTo (f a t))
        → KeepsTo (continue f r t)
    continue-KeepsTo f (ok a) t h g = g a
    continue-KeepsTo f (err e) t h g = h

    delete_each-KeepsTo :
        (target : String) (secrets : List Secret) (t : Traced W)
        → ((s : Secret) → s.name ≢ target → P s)
        → AllRemovals t.calls
        → KeepsTo (delete_each k (traced c) ss target secrets t)
    unfolding delete_each
    delete_each-KeepsTo target [] t p h = h
    delete_each-KeepsTo target (s ∷ rest) t p h = elim (Bool-cases (str_eq s.name target)) [
      | inl y ↦ rw y (delete_each-KeepsTo target rest t p h)
      | inr n ↦ rw n (
          let step = delete_if_owned k (traced c) ss s t in
          let other : s.name ≢ target = λ e. cc (n, (eq_iff s.name target).1 e) in
          let kept = delete_if_owned-KeepsTo s t (p s other) h in
          continue-KeepsTo (λ u. delete_each k (traced c) ss target rest) step.0 step.1 kept
            (λ u. delete_each-KeepsTo target rest step.1 p kept))
    ]

    log_looks-AllRemovals :
        (r : Result (List Secret)) (calls : List Call)
        → AllRemovals calls
        → AllRemovals (log_looks r calls)
    log_looks-AllRemovals (ok []) calls h = h
    log_looks-AllRemovals (ok (s ∷ ss)) calls h = (tt, log_looks-AllRemovals (ok ss) calls h)
    log_looks-AllRemovals (err e) calls h = h

    rewrap-KeepsTo :
        {A : Type 0} (r : Result A) (t : Traced W) → AllRemovals t.calls → KeepsTo (rewrap r t)
    rewrap-KeepsTo (ok a) t h = h
    rewrap-KeepsTo (err e) t h = h

    delete_stale-KeepsTo :
        (target : String) (w : W)
        → ((s : Secret) → s.name ≢ target → P s)
        → KeepsTo (delete_stale_managed_secrets k (traced c) ss target (start w))
    unfolding delete_stale_managed_secrets
    delete_stale-KeepsTo target w p =
        let (r, v) = c.list_secrets ss.namespace label_managed_by label_managed_by_value w in
        let t : Traced W = record { world = v; calls = log_looks r [] } in
        let kept = rewrap-KeepsTo r t (log_looks-AllRemovals r [] tt) in
        let listed = rewrap r t in
        continue-KeepsTo (delete_each k (traced c) ss target) listed.0 listed.1 kept
          (λ secrets. delete_each-KeepsTo target secrets listed.1 p kept)

    drop_finalizer-KeepsTo :
        (syncs : SyncClient W) (t : Traced W)
        → AllRemovals t.calls
        → KeepsTo (drop_finalizer k (traced c) (untraced syncs) ss t)
    unfolding drop_finalizer
    drop_finalizer-KeepsTo syncs t h =
        let (r, v) = syncs.update_sync (k.remove_finalizer ss finalizer_name) t.world in
        let u : Traced W = record { world = v; calls = t.calls } in
        let sent = rewrap r u in
        continue-KeepsTo (λ x. pure tt) sent.0 sent.1 (rewrap-KeepsTo r u h)
          (λ x. rewrap-KeepsTo r u h)

    remove_target-KeepsTo :
        (target : String) (t : Traced W)
        → ((s : Secret) → P s)
        → AllRemovals t.calls
        → KeepsTo
            (attempt ((traced c).get_secret ss.namespace target) (remove_target k (traced c) ss) t)
    unfolding remove_target
    remove_target-KeepsTo target t p h =
        after_look KeepsTo (c.get_secret ss.namespace target) (remove_target k (traced c) ss) t
          (λ e w. elim (Bool-cases (errors_is is_not_found e)) [ inl y ↦ rw y h | inr n ↦ rw n h ])
          (λ s w.
            delete_if_owned-KeepsTo s (record { world = w; calls = looked s ∷ t.calls }) (p s)
              (tt, h))

    reconcile_delete-KeepsTo :
        (syncs : SyncClient W) (target : String) (w : W)
        → ((s : Secret) → P s)
        → KeepsTo (reconcile_delete k (traced c) (untraced syncs) ss ss.namespace target (start w))
    unfolding reconcile_delete
    reconcile_delete-KeepsTo syncs target w p =
        elim (Bool-cases (k.contains_finalizer ss finalizer_name)) [
          | inr n ↦ rw n tt
          | inl y ↦ rw y (
              let removed =
                attempt ((traced c).get_secret ss.namespace target) (remove_target k (traced c) ss)
                  (start w) in
              let kept = remove_target-KeepsTo target (start w) p tt in
              continue-KeepsTo (λ u. drop_finalizer k (traced c) (untraced syncs) ss) removed.0
                removed.1 kept (λ u. drop_finalizer-KeepsTo syncs removed.1 kept))
        ]

-- The clean-up after a sync deletes only Secrets that the SecretSync controls and that have another
-- name than its current target, and writes nothing, whatever the cluster lists and answers.
pub delete_stale-AllRemovals :
    {W : Type 0} (k : Kube) (ss : SecretSync) (c : Client W) (target : String) (w : W)
    → AllRemovals k ss
        (λ s. s.name ≢ target)
        (delete_stale_managed_secrets k (traced c) ss target (start w)).1.calls
delete_stale-AllRemovals k ss c target w =
    delete_stale-KeepsTo k ss (λ s. s.name ≢ target) c target w (λ s n. n)

-- The deletion of a SecretSync deletes no Secret that it does not control, and writes none,
-- whatever the cluster answers.
pub reconcile_delete-AllRemovals :
    {W : Type 0} (k : Kube) (ss : SecretSync) (c : Client W) (syncs : SyncClient W)
    (target : String) (w : W)
    → AllRemovals k ss
        (λ s. Unit)
        (reconcile_delete k (traced c) (untraced syncs) ss ss.namespace target (start w)).1.calls
reconcile_delete-AllRemovals k ss c syncs target w =
    reconcile_delete-KeepsTo k ss (λ s. Unit) c syncs target w (λ s. tt)
