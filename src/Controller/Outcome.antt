-- ===== src/Controller/Outcome.antt =====
-- What `recordSyncOutcome` of internal/controller/secretsync_controller.go lets an operator see.
use kvsynk8s.Base.{ℕ, suc, String, ◌≡◌, refl, Bool, true, false, List, [], ◌∷◌, if◌then◌else◌}
use kvsynk8s.Api.{SecretSync, SecretSyncStatus, SecretSyncState, unset, pending, in_sync, failing}
use kvsynk8s.Controller.Metrics.{record_sync_result}
use kvsynk8s.Controller.{Observation, event, counted, logged, outcome_of, record_sync_outcome}

-- how many increments of the counter, and how many Kubernetes Events
abbrev pub counts : List Observation → ℕ
counts [] = 0
counts (counted c ∷ os) = suc (counts os)
counts (event w r m ∷ os) = counts os
counts (logged t f ∷ os) = counts os

abbrev pub events : List Observation → ℕ
events [] = 0
events (counted c ∷ os) = events os
events (event w r m ∷ os) = suc (events os)
events (logged t f ∷ os) = events os

-- a state in which a reconcile ends
abbrev pub is_outcome : SecretSyncState → Bool
is_outcome in_sync = true
is_outcome failing = true
is_outcome _ = false

outcome_of-once :
    (x : SecretSyncState) (recorder : Bool) (ss : SecretSync) (previous : SecretSyncState)
    (s : SecretSyncStatus) (target : String)
    → (counts (outcome_of x recorder ss previous s target) ≡ (if is_outcome x then 1 else 0))
      × (events (outcome_of x recorder ss previous s target)
          ≡ (if is_outcome x then (if recorder then 1 else 0) else 0))
unfolding outcome_of record_sync_result
outcome_of-once in_sync true ss failing s target = (refl, refl)
outcome_of-once in_sync true ss unset s target = (refl, refl)
outcome_of-once in_sync true ss pending s target = (refl, refl)
outcome_of-once in_sync true ss in_sync s target = (refl, refl)
outcome_of-once in_sync false ss failing s target = (refl, refl)
outcome_of-once in_sync false ss unset s target = (refl, refl)
outcome_of-once in_sync false ss pending s target = (refl, refl)
outcome_of-once in_sync false ss in_sync s target = (refl, refl)
outcome_of-once failing true ss previous s target = (refl, refl)
outcome_of-once failing false ss previous s target = (refl, refl)
outcome_of-once unset recorder ss previous s target = (refl, refl)
outcome_of-once pending recorder ss previous s target = (refl, refl)

-- A reconcile that ends in `InSync` or `Failing` is counted exactly once, and shown in exactly one
-- Kubernetes Event if a recorder is wired; in another state nothing is counted or shown.
record_sync_outcome-once :
    (recorder : Bool) (ss : SecretSync) (previous : SecretSyncState) (s : SecretSyncStatus)
    (target : String)
    → (counts (record_sync_outcome recorder ss previous s target)
        ≡ (if is_outcome s.state then 1 else 0))
      × (events (record_sync_outcome recorder ss previous s target)
          ≡ (if is_outcome s.state then (if recorder then 1 else 0) else 0))
unfolding record_sync_outcome
record_sync_outcome-once recorder ss previous s target =
    outcome_of-once s.state recorder ss previous s target
