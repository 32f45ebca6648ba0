-- ===== src/Controller/Removal/Released.antt =====
-- What the deletion of a SecretSync leaves at its target, with an API server that does what it says.
use kvsynk8s.Base.{
  String, ◌≡◌, refl, sym, ◌∙◌, true, false, Bool-cases, inl, inr, Option, none, some,
}
use kvsynk8s.Errors.{Err, Result, ok, err, errors_is, is_not_found}
use kvsynk8s.Exec.{attempt, wrapped}
use kvsynk8s.Exec.Keeps.{Keeps, Keeps-bind, Keeps-wrapped, Keeps-pure}
use kvsynk8s.Exec.Triples.{Ends, Triple, Triple-bind, Triple-post, Triple-keeps}
use kvsynk8s.Api.{SecretSync, Secret}
use kvsynk8s.Kube.{Kube, Client, SyncClient}
use kvsynk8s.Sync.Writer.{labeled, controller_owned_by}
use kvsynk8s.Controller.{finalizer_name}
use kvsynk8s.Controller.Removal.{
  ignore_gone, delete_if_owned, remove_target, drop_finalizer, reconcile_delete,
}

-- The behaviour of the API server at one target, and of a manager's cache that is up to date with
-- it: `holds w` is the Secret that is stored there, and the cache shows the Secrets with the
-- managed-by label.
pub record TargetStore {W : Type 0} (c : Client W) (syncs : SyncClient W) (namespace name : String)
    : Type 0 where
  pub holds : W → Option Secret
  pub found : (w v : W) (s : Secret) → c.get_secret namespace name w ≡ (ok s, v) → holds v ≡ some s
  pub missing :
      (w v : W) (e : Err) (s : Secret)
      → c.get_secret namespace name w ≡ (err e, v)
      → errors_is is_not_found e ≡ true
      → holds v ≡ some s
      → labeled s ≡ false
  pub removed :
      (w v : W) (s : Secret) → holds w ≡ some s → c.delete_secret s w ≡ (ok tt, v) → holds v ≡ none
  pub gone :
      (w v : W) (s : Secret) (e : Err)
      → holds w ≡ some s
      → c.delete_secret s w ≡ (err e, v)
      → errors_is is_not_found e ≡ true
      → holds v ≡ none
  pub apart : (ss : SecretSync) (w : W) → holds (syncs.update_sync ss w).1 ≡ holds w

module _ {W : Type 0} (k : Kube) (ss : SecretSync) (c : Client W) (syncs : SyncClient W)
    (namespace name : String) (store : TargetStore c syncs namespace name) where
  -- no labeled Secret that the SecretSync controls is stored
  abbrev Released : W → Type 0
  Released w =
      (s : Secret) → store.holds w ≡ some s → labeled s ≡ true → controller_owned_by k s ss ≡ false

  abbrev Any : W → Type 0
  Any w = Unit

  Released-none : (w : W) → store.holds w ≡ none → Released w
  Released-none w e s h l = cc

  ignored :
      (w v : W) (s : Secret) (a : Result (Unit {0}))
      → store.holds w ≡ some s
      → c.delete_secret s w ≡ (a, v)
      → Ends (λ (u : Unit {0}). Released) Any (ignore_gone k c a v)
  unfolding ignore_gone
  ignored w v s (ok tt) held e = Released-none v (store.removed w v s held e)
  ignored w v s (err x) held e = elim (Bool-cases (errors_is is_not_found x)) [
    | inl y ↦ rw y (Released-none v (store.gone w v s x held e y))
    | inr n ↦ rw n tt
  ]

  deleted :
      (w : W) (s : Secret)
      → store.holds w ≡ some s
      → Ends (λ (u : Unit {0}). Released) Any (delete_if_owned k c ss s w)
  unfolding delete_if_owned
  deleted w s held = elim (Bool-cases (controller_owned_by k s ss)) [
    | inl y ↦ rw y (ignored w (c.delete_secret s w).1 s (c.delete_secret s w).0 held refl)
    | inr n ↦ rw n (λ u other l. let same : s ≡ u = cc (held, other) in rw (← same) n)
  ]

  target_removed :
      (w v : W) (a : Result Secret)
      → c.get_secret namespace name w ≡ (a, v)
      → Ends (λ (u : Unit {0}). Released) Any (remove_target k c ss a v)
  unfolding remove_target
  target_removed w v (ok s) e = deleted v s (store.found w v s e)
  target_removed w v (err x) e = elim (Bool-cases (errors_is is_not_found x)) [
    | inl y ↦ rw y (λ s held l. cc (l, store.missing w v x s e y held))
    | inr n ↦ rw n tt
  ]

  drop_finalizer-Keeps : Keeps Released (drop_finalizer k c syncs ss)
  unfolding drop_finalizer
  drop_finalizer-Keeps =
      Keeps-bind (wrapped (syncs.update_sync (k.remove_finalizer ss finalizer_name))) _
        (Keeps-wrapped _ (record {
          at =
              λ w h s held. h s (sym (store.apart (k.remove_finalizer ss finalizer_name) w) ∙ held);
        }))
        (λ u. Keeps-pure tt)

  reconcile_delete-Triple :
      k.contains_finalizer ss finalizer_name ≡ true
      → Triple Any (reconcile_delete k c syncs ss namespace name) (λ _. Released) Any
  unfolding reconcile_delete
  reconcile_delete-Triple held = rw held (
      Triple-bind (attempt (c.get_secret namespace name) (remove_target k c ss))
        (λ _. drop_finalizer k c syncs ss)
        (record {
          at = λ w h.
              target_removed w (c.get_secret namespace name w).1 (c.get_secret namespace name w).0
                refl;
        })
        (λ u. Triple-post _ (Triple-keeps _ drop_finalizer-Keeps) (λ x w h. h) (λ w h. tt)))

  -- With an API server and an up-to-date cache as in TargetStore, when the deletion of a SecretSync that has the
  -- finalizer succeeds, a labeled Secret that is still stored at its target is not controlled by it.
  pub reconcile_delete-releases :
      (w v : W) (s : Secret)
      → k.contains_finalizer ss finalizer_name ≡ true
      → reconcile_delete k c syncs ss namespace name w ≡ (ok tt, v)
      → store.holds v ≡ some s
      → labeled s ≡ true
      → controller_owned_by k s ss ≡ false
  reconcile_delete-releases w v s held e at_end l =
      let ended = (reconcile_delete-Triple held).at w tt in (rw e at ended) s at_end l
