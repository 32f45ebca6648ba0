-- ===== src/Controller/Reconcile/Calls.antt =====
-- When a call on a Secret that `Reconcile` makes is safe, and what its other calls leave of the calls
-- made so far.
use kvsynk8s.Base.{String, ◌≡◌, ◌≢◌, refl, true, List, [], ◌∷◌}
use kvsynk8s.Errors.{Result, ok, err}
use kvsynk8s.Exec.{Exec}
use kvsynk8s.Exec.Keeps.{Keeps}
use kvsynk8s.Exec.Triples.{Ends, Triple}
use kvsynk8s.Api.{SecretSync, Secret}
use kvsynk8s.Kube.{Kube, SyncClient, Deadline}
use kvsynk8s.Sync.Writer.{controller_owned_by}
use kvsynk8s.Sync.Writer.Trace.{Call, looked, created, updated, deleted, Traced}
use kvsynk8s.Sync.Writer.Right.{IsRight, AllRight}
use kvsynk8s.Controller.{finalizer_name, Observation, Reconciler}
use kvsynk8s.Controller.Removal.Safety.{quiet}
use kvsynk8s.Controller.Reconcile.{Target, observe_all}
use kvsynk8s.Controller.Reconcile.Watched.{watched}

-- The API server and the helpers give back the object that they were given: its UID stays.
pub record SameObject {W : Type 0} (k : Kube) (c : SyncClient W) : Type 0 where
  pub updated_uid : (ss u : SecretSync) (w v : W) → c.update_sync ss w ≡ (ok u, v) → u.uid ≡ ss.uid
  pub status_uid :
      (d : Deadline) (ss u : SecretSync) (w v : W)
      → c.update_sync_status d ss w ≡ (ok u, v)
      → u.uid ≡ ss.uid
  pub finalizer_uid : (ss : SecretSync) → (k.add_finalizer ss finalizer_name).uid ≡ ss.uid

module _ (k : Kube) (ss : SecretSync) (target : Target) where
  -- A call is safe, given the calls before it: a write is right for an object with the UID of `ss`,
  -- and a deleted Secret is controlled by `ss` and has another name than the target.
  abbrev pub IsSafe : Call → List Call → Type 0
  IsSafe (looked s) before = Unit
  IsSafe (created s) before =
      (held : SecretSync) × (value : String) × (version : String) × (held.uid ≡ ss.uid)
      × IsRight k held target.namespace target.name target.data_key value version (created s) before
  IsSafe (updated s) before =
      (held : SecretSync) × (value : String) × (version : String) × (held.uid ≡ ss.uid)
      × IsRight k held target.namespace target.name target.data_key value version (updated s) before
  IsSafe (deleted s) before = (controller_owned_by k s ss ≡ true) × (s.name ≢ target.name)

  abbrev pub AllSafe : List Call → Type 0
  AllSafe [] = Unit
  AllSafe (c ∷ cs) = IsSafe c cs × AllSafe cs

  -- what is right for `held` is safe
  pub right-safe :
      (held : SecretSync) (value version : String)
      → held.uid ≡ ss.uid
      → (calls : List Call)
      → AllRight k held target.namespace target.name target.data_key value version calls
      → AllSafe calls
  right-safe held value version same [] h = tt
  right-safe held value version same (looked s ∷ cs) (r, h) =
      (tt, right-safe held value version same cs h)
  right-safe held value version same (created s ∷ cs) (r, h) =
      ((held, value, version, same, r), right-safe held value version same cs h)
  right-safe held value version same (updated s ∷ cs) (r, h) =
      ((held, value, version, same, r), right-safe held value version same cs h)
  right-safe held value version same (deleted s ∷ cs) (r, h) = absurd r

-- no request has been sent yet
abbrev pub OnlyLooks : List Call → Type 0
OnlyLooks [] = Unit
OnlyLooks (looked s ∷ cs) = OnlyLooks cs
OnlyLooks (c ∷ cs) = ⊥

pub looks-safe :
    (k : Kube) (ss : SecretSync) (target : Target) (calls : List Call)
    → OnlyLooks calls
    → AllSafe k ss target calls
looks-safe k ss target [] h = tt
looks-safe k ss target (looked s ∷ cs) h = (tt, looks-safe k ss target cs h)
looks-safe k ss target (created s ∷ cs) h = absurd h
looks-safe k ss target (updated s ∷ cs) h = absurd h
looks-safe k ss target (deleted s ∷ cs) h = absurd h

pub looks-right :
    (k : Kube) (held : SecretSync) (namespace name data_key value version : String)
    (calls : List Call)
    → OnlyLooks calls
    → AllRight k held namespace name data_key value version calls
looks-right k held ns name key value version [] h = tt
looks-right k held ns name key value version (looked s ∷ cs) h =
    (tt, looks-right k held ns name key value version cs h)
looks-right k held ns name key value version (created s ∷ cs) h = absurd h
looks-right k held ns name key value version (updated s ∷ cs) h = absurd h
looks-right k held ns name key value version (deleted s ∷ cs) h = absurd h

-- A statement about the calls made so far.
module _ {W : Type 0} (J : List Call → Type 0) where
  abbrev pub Sofar : Traced W → Type 0
  Sofar t = J t.calls

  pub quiet-Keeps : {A : Type 0} (m : Exec W A) → Keeps Sofar (quiet m)
  quiet-Keeps m = record { at = λ t h. h }

  -- a call that makes no call on a Secret, with what is known of its value
  pub quiet-Triple :
      {A : Type 0} (Q : A → Type 0) (m : Exec W A)
      → ((a : A) (w v : W) → m w ≡ (ok a, v) → Q a)
      → Triple Sofar (quiet m) (λ a t. Q a × Sofar t) Sofar
  quiet-Triple {A} Q m known = record { at = λ t h. go t h (m t.world).0 (m t.world).1 refl }
    where
      go :
          (t : Traced W)
          → Sofar t
          → (r : Result A) (v : W) → m t.world ≡ (r, v)
          → Ends
              (λ (a : A) (t : Traced W). Q a × Sofar t)
              Sofar
              (r, record { world = v; calls = t.calls })
      go t h (ok a) v e = (known a t.world v e, h)
      go t h (err x) v e = h

  -- a call that gives back its object
  pub quiet-same :
      (ss : SecretSync) (m : Exec W SecretSync)
      → ((u : SecretSync) (w v : W) → m w ≡ (ok u, v) → u.uid ≡ ss.uid)
      → Triple Sofar (quiet m) (λ u t. (u.uid ≡ ss.uid) × Sofar t) Sofar
  quiet-same ss m same = quiet-Triple (λ u. u.uid ≡ ss.uid) m same

  pub observe_all-Keeps :
      (k : Kube) (r : Reconciler W) (os : List Observation)
      → Keeps Sofar (observe_all k (watched r) os)
  unfolding observe_all
  observe_all-Keeps k r [] = record { at = λ t h. h }
  observe_all-Keeps k r (o ∷ os) = record {
    at = λ t h.
        (observe_all-Keeps k r os).at (record { world = r.observe o t.world; calls = t.calls }) h;
  }

-- what holds of the calls made so far stays when a Secret is read, and when one is deleted that is
-- controlled by `ss` and is not the target
pub record Stays (k : Kube) (ss : SecretSync) (target : Target) (J : List Call → Type 0)
    : Type 0 where
  pub read : (s : Secret) (calls : List Call) → J calls → J (looked s ∷ calls)
  pub gone :
      (s : Secret) (calls : List Call)
      → controller_owned_by k s ss ≡ true
      → s.name ≢ target.name
      → J calls
      → J (deleted s ∷ calls)

pub AllSafe-Stays :
    (k : Kube) (ss : SecretSync) (target : Target) → Stays k ss target (AllSafe k ss target)
AllSafe-Stays k ss target = record {
  read = λ s calls h. (tt, h);
  gone = λ s calls mine other h. ((mine, other), h);
}
