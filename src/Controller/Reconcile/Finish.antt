-- ===== src/Controller/Reconcile/Finish.antt =====
-- The calls on Secrets at the end of a reconcile: the status write and the clean-up.
use kvsynk8s.Base.{◌≡◌, ◌≢◌, ◌∙◌, true, ◌&&◌, Bool-cases, inl, inr, List, [], ◌∷◌, str_eq, eq_iff}
use kvsynk8s.Errors.{Result, ok, err, leaf, Leaf}
use kvsynk8s.Exec.{Exec, wrapped, ◌>>=◌}
use kvsynk8s.Exec.Triples.{
  Triple, Triple-pure, Triple-raise, Triple-given, Triple-bind, Triple-wrapped, Triple-post,
  Triple-if, Triple-keeps,
}
use kvsynk8s.Api.{SecretSync, SecretSyncStatus, SecretSyncState, Secret, is_in_sync, is_failing}
use kvsynk8s.Kube.{Kube, status_persist_deadline}
use kvsynk8s.Sync.Writer.{controller_owned_by, label_managed_by, label_managed_by_value}
use kvsynk8s.Sync.Writer.Trace.{Call, deleted, Traced, traced, log_looks}
use kvsynk8s.Controller.{
  Reconciler, record_sync_outcome, set_ready_condition, reconcile_interval, retried_with_backoff,
  finalizer_name,
}
use kvsynk8s.Controller.Removal.{
  ignore_gone, delete_if_owned, delete_each, delete_stale_managed_secrets,
}
use kvsynk8s.Controller.Reconcile.{Target, after_outcome, finish, lose_conflict, ensure_finalizer}
use kvsynk8s.Controller.Reconcile.Watched.{watched}
use kvsynk8s.Controller.Reconcile.Calls.{SameObject, Stays, Sofar, quiet-same, observe_all-Keeps}

module _ {W : Type 0} (k : Kube) (r : Reconciler W) (same : SameObject k r.syncs) (ss : SecretSync)
    (J : List Call → Type 0) where
  -- the object with the finalizer is the object
  pub ensure_finalizer-same :
      (a : SecretSync)
      → a.uid ≡ ss.uid
      → Triple
          (Sofar J)
          (ensure_finalizer k (watched r) a)
          (λ u t. (u.uid ≡ ss.uid) × Sofar J t)
          (Sofar J)
  unfolding ensure_finalizer
  ensure_finalizer-same a e =
      Triple-if (k.contains_finalizer a finalizer_name) _ _ (Triple-pure a (λ t h. (e, h))) (
        Triple-wrapped _ (
          Triple-post _
            (quiet-same J (k.add_finalizer a finalizer_name)
              (r.syncs.update_sync (k.add_finalizer a finalizer_name))
              (same.updated_uid (k.add_finalizer a finalizer_name)))
            (λ u t (g, h). (g ∙ same.finalizer_uid a ∙ e, h)) (λ t h. h)))

module _ {W : Type 0} (k : Kube) (r : Reconciler W) (same : SameObject k r.syncs) (ss : SecretSync)
    (target : Target) {J : List Call → Type 0} (stays : Stays k ss target J) where
  abbrev Now : Traced W → Type 0
  Now = Sofar J

  abbrev After : {A : Type 0} → A → Traced W → Type 0
  After a = Now

  -- the Secret is deleted when its controller has the UID of `ss`
  owned_by :
      (a : SecretSync) (s : Secret)
      → a.uid ≡ ss.uid
      → controller_owned_by k s a ≡ true
      → controller_owned_by k s ss ≡ true
  unfolding controller_owned_by
  owned_by a s e h = rw (← e) h

  ignore_gone-Stays :
      (a : Result (Unit {0})) → Triple Now (ignore_gone k (traced r.client) a) After Now
  unfolding ignore_gone
  ignore_gone-Stays (ok _) = Triple-pure _ (λ t h. h)
  ignore_gone-Stays (err e) = Triple-if _ _ _ (Triple-pure _ (λ t h. h)) (Triple-raise _ (λ t h. h))

  delete_if_owned-Stays :
      (a : SecretSync) (s : Secret)
      → a.uid ≡ ss.uid
      → s.name ≢ target.name
      → Triple Now (delete_if_owned k (traced r.client) a s) After Now
  unfolding delete_if_owned
  delete_if_owned-Stays a s e other = elim (Bool-cases (controller_owned_by k s a)) [
    | inr n ↦ rw n (Triple-pure _ (λ t h. h))
    | inl y ↦ rw y (record {
      at = λ t h.
          (ignore_gone-Stays (r.client.delete_secret s t.world).0).at
            (record { world = (r.client.delete_secret s t.world).1; calls = deleted s ∷ t.calls })
            (stays.gone s t.calls (owned_by a s e y) other h);
    })
  ]

  delete_each-Stays :
      (a : SecretSync) (secrets : List Secret)
      → a.uid ≡ ss.uid
      → Triple Now (delete_each k (traced r.client) a target.name secrets) After Now
  unfolding delete_each
  delete_each-Stays a [] e = Triple-pure _ (λ t h. h)
  delete_each-Stays a (s ∷ rest) e = elim (Bool-cases (str_eq s.name target.name)) [
    | inl y ↦ rw y (delete_each-Stays a rest e)
    | inr n ↦
        let other : s.name ≢ target.name = λ p. cc (n, (eq_iff s.name target.name).1 p) in
        rw n (Triple-bind _ _ (delete_if_owned-Stays a s e other) (λ _. delete_each-Stays a rest e))
  ]

  log_looks-stays : (a : Result (List Secret)) (calls : List Call) → J calls → J (log_looks a calls)
  log_looks-stays (ok []) calls h = h
  log_looks-stays (ok (s ∷ rest)) calls h = stays.read s _ (log_looks-stays (ok rest) calls h)
  log_looks-stays (err e) calls h = h

  delete_stale-Stays :
      (a : SecretSync)
      → a.uid ≡ ss.uid
      → Triple Now (delete_stale_managed_secrets k (traced r.client) a target.name) After Now
  unfolding delete_stale_managed_secrets
  delete_stale-Stays a e =
      Triple-bind _ _
        (Triple-wrapped _ (
          Triple-keeps
            ((traced r.client).list_secrets a.namespace label_managed_by label_managed_by_value)
            (record {
              at = λ t h.
                  log_looks-stays
                    (r.client.list_secrets a.namespace label_managed_by label_managed_by_value
                      t.world).0
                    t.calls h;
            })))
        (λ secrets. delete_each-Stays a secrets e)

  after_outcome-Stays :
      (a : SecretSync) (s : SecretSyncStatus)
      → a.uid ≡ ss.uid
      → Triple Now (after_outcome k (watched r) a target s) After Now
  unfolding after_outcome
  after_outcome-Stays a s e =
      Triple-bind _ _
        (Triple-if (is_in_sync s.state) _ _ (delete_stale-Stays a e) (Triple-pure tt (λ t h. h)))
        (λ _.
          Triple-if (is_failing s.state && retried_with_backoff s.reason) _ _
            (Triple-raise (leaf Leaf.plain) (λ t h. h))
            (Triple-pure (reconcile_interval r.interval) (λ t h. h)))

  -- a status write, and what follows it with the object that it gave back
  pub status-Stays :
      {A : Type 0} (a : SecretSync) (f : SecretSync → Exec (Traced W) A)
      → a.uid ≡ ss.uid
      → ((b : SecretSync) → b.uid ≡ ss.uid → Triple Now (f b) After Now)
      → Triple Now
          (wrapped ((watched r).syncs.update_sync_status status_persist_deadline a) >>= f)
          After
          Now
  status-Stays a f e after =
      Triple-bind _ _
        (Triple-wrapped _ (
          quiet-same J a (r.syncs.update_sync_status status_persist_deadline a)
            (same.status_uid status_persist_deadline a)))
        (λ b. Triple-given _ (λ g. after b (g ∙ e)))

  pub finish-Stays :
      (a : SecretSync) (previous : SecretSyncState) (s : SecretSyncStatus)
      → a.uid ≡ ss.uid
      → Triple Now (finish k (watched r) a previous target s) After Now
  unfolding finish
  finish-Stays a previous s e =
      status-Stays (record a { status = set_ready_condition k a s }) _ e
        (λ b g.
          Triple-bind _ _
            (Triple-keeps _ (
              observe_all-Keeps J k r (
                record_sync_outcome r.recorder b previous (set_ready_condition k a s) target.name)))
            (λ _. after_outcome-Stays b (set_ready_condition k a s) g))

  pub lose_conflict-Stays :
      (a : SecretSync) (previous : SecretSyncState)
      → a.uid ≡ ss.uid
      → Triple Now (lose_conflict k (watched r) a previous target) After Now
  unfolding lose_conflict
  lose_conflict-Stays a previous e = status-Stays _ _ e (λ b g.
      Triple-bind _ _
        (Triple-keeps _ (
          observe_all-Keeps J k r (record_sync_outcome r.recorder b previous b.status target.name)))
        (λ _. Triple-pure (reconcile_interval r.interval) (λ t h. h)))
