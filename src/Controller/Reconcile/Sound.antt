-- ===== src/Controller/Reconcile/Sound.antt =====
-- Which statuses may be stored for a SecretSync, and the API server's history of them.
use kvsynk8s.Base.{String, ◌≡◌, refl, ◌⊎◌, Option, some, List, ◌∷◌}
use kvsynk8s.Errors.{ok}
use kvsynk8s.Api.{
  SecretSync, SecretSyncStatus, SecretSyncState, unset, pending, in_sync, failing, Condition,
  Secret,
}
use kvsynk8s.Kube.{Kube, Deadline, Reader, SecretReader, SyncClient}
use kvsynk8s.Sync.Engine.Fits.{Carries, FitsAt}
use kvsynk8s.Controller.{
  Reconciler, Observation, finalizer_name, ready_of, ready_condition, set_ready_condition,
}

-- the status fits the object, and its Ready condition is the one for it
abbrev pub IsSound : Kube → SecretSync → SecretSyncStatus → Type 0
IsSound k base s =
    FitsAt base s.state s
    × ((earlier : List Condition) × (s.conditions
          ≡ k.set_status_condition earlier (ready_condition s)))

FitsAt-conditions :
    (base : SecretSync) (x : SecretSyncState) (s : SecretSyncStatus) (cs : List Condition)
    → FitsAt base x s
    → FitsAt base x (record s { conditions = cs })
FitsAt-conditions base unset s cs h = h
FitsAt-conditions base pending s cs h = h
FitsAt-conditions base in_sync s cs h = h
FitsAt-conditions base failing s cs h = h

-- the Ready condition is not about the other conditions
ready_of-conditions :
    (x : SecretSyncState) (s : SecretSyncStatus) (cs : List Condition)
    → ready_of x (record s { conditions = cs }) ≡ ready_of x s
unfolding ready_of
ready_of-conditions unset s cs = refl
ready_of-conditions pending s cs = refl
ready_of-conditions in_sync s cs = refl
ready_of-conditions failing s cs = refl

pub set_ready-IsSound :
    (k : Kube) (base a : SecretSync) (s : SecretSyncStatus)
    → FitsAt base s.state s
    → IsSound k base (set_ready_condition k a s)
unfolding set_ready_condition ready_condition
set_ready-IsSound k base a s h =
    let cs = k.set_status_condition a.status.conditions (ready_condition s) in
    (
      FitsAt-conditions base s.state s cs h,
      (a.status.conditions, rw (ready_of-conditions s.state s cs) refl),
    )

-- The API server gives back the object that it stored: the generation, and the last good time and
-- version, stay.
pub record SameStatus {W : Type 0} (k : Kube) (c : SyncClient W) : Type 0 where
  pub updated : (ss u : SecretSync) (w v : W) → c.update_sync ss w ≡ (ok u, v) → Carries ss u
  pub status_updated :
      (d : Deadline) (ss u : SecretSync) (w v : W)
      → c.update_sync_status d ss w ≡ (ok u, v)
      → Carries ss u
  pub with_finalizer : (ss : SecretSync) → Carries ss (k.add_finalizer ss finalizer_name)

-- The statuses that the API server has stored for an object, the latest first. A status write adds
-- its status or none; no other call adds any.
pub record Journal {W : Type 0} (r : Reconciler W) (reader : Reader W) : Type 0 where
  pub statuses : W → List SecretSyncStatus
  pub stores :
      (d : Deadline) (ss : SecretSync) (w : W)
      → (statuses (r.syncs.update_sync_status d ss w).1 ≡ ss.status ∷ statuses w)
        ⊎ (statuses (r.syncs.update_sync_status d ss w).1 ≡ statuses w)
  pub update_sync : (ss : SecretSync) (w : W) → statuses (r.syncs.update_sync ss w).1 ≡ statuses w
  pub list_syncs :
      (namespace : Option String) (w : W) → statuses (r.syncs.list_syncs namespace w).1 ≡ statuses w
  pub get_secret :
      (namespace name : String) (w : W)
      → statuses (r.client.get_secret namespace name w).1 ≡ statuses w
  pub create_secret : (s : Secret) (w : W) → statuses (r.client.create_secret s w).1 ≡ statuses w
  pub update_secret : (s : Secret) (w : W) → statuses (r.client.update_secret s w).1 ≡ statuses w
  pub delete_secret : (s : Secret) (w : W) → statuses (r.client.delete_secret s w).1 ≡ statuses w
  pub list_secrets :
      (namespace key value : String) (w : W)
      → statuses (r.client.list_secrets namespace key value w).1 ≡ statuses w
  pub read_secret :
      (namespace name : String) (w : W)
      → statuses (reader.get_secret namespace name w).1 ≡ statuses w
  pub get_latest :
      (v : SecretReader W)
      → r.reader ≡ some v
      → (vault secret : String) (w : W) → statuses (v.get_latest vault secret w).1 ≡ statuses w
  pub now : (w : W) → statuses (r.clock.now w).1 ≡ statuses w
  pub observe : (o : Observation) (w : W) → statuses (r.observe o w) ≡ statuses w
