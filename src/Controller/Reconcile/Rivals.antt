-- ===== src/Controller/Reconcile/Rivals.antt =====
-- What a reconcile does while another SecretSync has the better claim on the target.
use kvsynk8s.Base.{[], ◌≡◌, refl, ◌∙◌, Bool, true, ap, some, List, any, if◌then◌else◌, ℤ}
use kvsynk8s.Errors.{Result, ok}
use kvsynk8s.Exec.{Exec, attempt, continue, ◌>>=◌}
use kvsynk8s.Exec.Triples.{
  Triple-always, Triple, Triple-pure, Triple-raise, Triple-given, Triple-post, Triple-attempt,
  Triple-bind, Triple-wrapped, Triple-if, Triple-known,
}
use kvsynk8s.Api.{SecretSync, SecretSyncState, is_unset, pending}
use kvsynk8s.Kube.{Kube, SyncClient, reconcile_deadline}
use kvsynk8s.Sync.Writer.Trace.{Call, start}
use kvsynk8s.Controller.{Reconciler, set_ready_condition, find_conflicting_owner, beats}
use kvsynk8s.Controller.Reconcile.Claims.{SameClaim, Champion, Rival, any-true, beats-Rival}
use kvsynk8s.Controller.Reconcile.{Target, with_target, mark_pending, reconcile_live, lose_conflict}
use kvsynk8s.Controller.Reconcile.Reports.{ReportsKeep, lose_conflict-Kept, watched-ReportsKeep}
use kvsynk8s.Controller.Reconcile.Watched.{watched}
use kvsynk8s.Controller.Reconcile.Calls.{Sofar, quiet-Keeps}
use kvsynk8s.Controller.Removal.Safety.{untraced}
use kvsynk8s.Exec.Keeps.{Keeps}

-- what the calls of a rival of `z` that are not on Secrets keep
pub record QuietKeeps {W : Type 0} (P : W → Type 0) (r : Reconciler W) (z : SecretSync)
    : Type 0 where
  pub reports : ReportsKeep P r
  pub lists : Keeps P (r.syncs.list_syncs (some z.namespace))

module _ {W : Type 0} {P : W → Type 0} (k : Kube) (r : Reconciler W) (z ss : SecretSync)
    (champion : Champion r.syncs z) (rival : Rival z ss) (quiet : QuietKeeps P r z) where
  mark_pending-Kept : Triple P (mark_pending k r ss) (λ a t. SameClaim a ss × P t) P
  unfolding mark_pending
  mark_pending-Kept =
      let fresh : SecretSync = record ss { status = record ss.status { state = pending } } in
      let marked : SecretSync = record fresh {
        status = set_ready_condition k fresh fresh.status;
      } in
      Triple-if (is_unset ss.status.state) _ _
        (Triple-wrapped _ (
          Triple-post _
            (Triple-known (λ a. SameClaim a marked)
              (r.syncs.update_sync_status reconcile_deadline marked)
              (quiet.reports.statuses reconcile_deadline marked)
              (champion.updated reconcile_deadline marked))
            (λ a t (s, h). (
              record {
                namespace = s.namespace;
                name = s.name;
                spec = s.spec;
                creation_timestamp = s.creation_timestamp;
              },
              h,
            ))
            (λ t h. h)))
        (Triple-pure ss (λ t h.
          (record { namespace = refl; name = refl; spec = refl; creation_timestamp = refl }, h)))

  -- a listing of the namespace shows that the object has lost
  shown_beaten :
      (a : SecretSync) (items : List SecretSync) (w v : W)
      → SameClaim a ss
      → r.syncs.list_syncs (some a.namespace) w ≡ (ok items, v)
      → any (beats a) items ≡ true
  shown_beaten a items w v same e =
      let there : a.namespace ≡ z.namespace = same.namespace ∙ rival.namespace in
      let (y, m, claim, live) = champion.listed w v items (rw there at e) in
      any-true (beats a) y items m (beats-Rival z y ss a rival claim live same)

  find_conflicting-Kept :
      (a : SecretSync)
      → SameClaim a ss
      → Triple P (find_conflicting_owner r.syncs a) (λ b t. (b ≡ true) × P t) P
  unfolding find_conflicting_owner
  find_conflicting-Kept a same =
      Triple-bind _ _
        (Triple-wrapped _ (
          Triple-known (λ items. any (beats a) items ≡ true) (r.syncs.list_syncs (some a.namespace))
            (rw (same.namespace, rival.namespace) quiet.lists)
            (λ items w v. shown_beaten a items w v same)))
        (λ items. Triple-given _ (λ beaten. Triple-pure _ (λ t h. (beaten, h))))

  -- a rival's reconcile keeps what those calls keep
  pub reconcile_live-Kept :
      (previous : SecretSyncState) (target : Target)
      → Triple P (reconcile_live k r ss previous target) (λ _. P) P
  unfolding reconcile_live
  reconcile_live-Kept previous target =
      Triple-attempt (mark_pending k r ss)
        (continue (λ a. find_conflicting_owner r.syncs a >>= decided a)) mark_pending-Kept
        (λ a. Triple-given _ (λ same.
          Triple-attempt (find_conflicting_owner r.syncs a) (continue (decided a))
            (find_conflicting-Kept a same)
            (λ conflicting.
              Triple-given _
                (λ lost. rw lost (lose_conflict-Kept k r quiet.reports a previous target)))
            (λ x. Triple-raise x (λ t h. h))))
        (λ x. Triple-raise x (λ t h. h))
    where
      decided : SecretSync → Bool → Exec W ℤ
      decided a conflicting =
          if conflicting
          then lose_conflict k r a previous target
          else attempt (r.client.get_secret target.namespace target.name)
              (with_target k r a previous target)

-- with the calls on Secrets kept, the champion is still one
traced-Champion :
    {W : Type 0} (c : SyncClient W) (z : SecretSync) → Champion c z → Champion (untraced c) z
traced-Champion {W} c z champion = record {
  listed = λ t v items e.
      champion.listed t.world (c.list_syncs (some z.namespace) t.world).1 items
        (pair (c.list_syncs (some z.namespace) t.world) items (ap (λ p. p.0) e));
  updated = λ d ss u t v e.
      champion.updated d ss u t.world (c.update_sync_status d ss t.world).1
        (pair (c.update_sync_status d ss t.world) u (ap (λ p. p.0) e));
}
  where
    pair : {A : Type 0} (p : Result A × W) (a : A) → p.0 ≡ ok a → p ≡ (ok a, p.1)
    pair (r, w) a e = ap (λ x. (x, w)) e

-- it makes no call on a Secret
reconcile_live-None :
    {W : Type 0} (k : Kube) (r : Reconciler W) (z ss : SecretSync) (calls : List Call)
    → Champion r.syncs z
    → Rival z ss
    → (previous : SecretSyncState) (target : Target)
    → Triple
        (Sofar (λ made. made ≡ calls))
        (reconcile_live k (watched r) ss previous target)
        (λ _. Sofar (λ made. made ≡ calls))
        (Sofar (λ made. made ≡ calls))
reconcile_live-None k r z ss calls champion rival previous target =
    reconcile_live-Kept k (watched r) z ss (traced-Champion r.syncs z champion) rival
      (record {
        reports = watched-ReportsKeep r (λ made. made ≡ calls);
        lists = quiet-Keeps (λ made. made ≡ calls) (r.syncs.list_syncs (some z.namespace));
      })
      previous target

-- Only the winner touches the target: a reconcile of an object makes no call on a Secret at all while
-- each listing of its namespace that succeeds shows another one that claims the same target, has
-- precedence, and has not been defeated itself. An update of the object's status is taken to give
-- back its name, namespace, spec and creation time.
reconcile_live-Rival :
    {W : Type 0} (k : Kube) (r : Reconciler W) (z ss : SecretSync) (previous : SecretSyncState)
    (target : Target) (w : W)
    → Champion r.syncs z
    → Rival z ss
    → (reconcile_live k (watched r) ss previous target (start w)).1.calls ≡ []
reconcile_live-Rival k r z ss previous target w champion rival =
    Triple-always (reconcile_live k (watched r) ss previous target)
      (reconcile_live-None k r z ss [] champion rival previous target) (start w) refl
