-- ===== src/Controller/Status.antt =====
-- What the reconciler reports: the Ready condition, the defaults it shares with the engine, and the
-- interval.
use kvsynk8s.Base.{
  String, ◌≡◌, ◌≢◌, refl, true, eq_iff, ℤ, pos, negsuc, positive, arith, if◌then◌else◌,
}
use kvsynk8s.Api.{
  SecretSync, SecretSyncStatus, SecretSyncState, in_sync, failing, condition_true, condition_false,
  condition_unknown, ConditionStatus,
}
use kvsynk8s.Sync.Engine.{sync_target_name, sync_data_key}
use kvsynk8s.Controller.{
  unknown_if_empty, ready_of, ready_condition, resolve_target_name, resolve_data_key,
  reconcile_interval, default_reconcile_interval,
}

unknown_if_empty-ne : (s : String) → unknown_if_empty s ≢ ""
unknown_if_empty-ne s e = ground (arith, eq_iff s "", eq_iff "Unknown" "", e)

-- the state for which each status of the condition stands
abbrev pub state_status : SecretSyncState → ConditionStatus
state_status in_sync = condition_true
state_status failing = condition_false
state_status _ = condition_unknown

ready_of-status : (x : SecretSyncState) (s : SecretSyncStatus) → (ready_of x s).0 ≡ state_status x
unfolding ready_of
ready_of-status in_sync s = refl
ready_of-status _ s = refl

-- The Ready condition is true exactly for `InSync`, false for `Failing` and unknown otherwise; it
-- has the generation of the status; and its reason is never empty, whatever the status holds.
ready_condition_lem :
    (s : SecretSyncStatus)
    → ((ready_condition s).status ≡ state_status s.state)
      × ((ready_condition s).observed_generation ≡ s.observed_generation)
      × ((ready_condition s).reason ≢ "")
unfolding ready_condition
ready_condition_lem s =
    (ready_of-status s.state s, refl, unknown_if_empty-ne (ready_of s.state s).1)

-- The reconciler and the engine resolve the same target name and the same data key.
pub defaults_agree :
    (ss : SecretSync)
    → (resolve_target_name ss ≡ sync_target_name ss) × (resolve_data_key ss ≡ sync_data_key ss)
unfolding resolve_target_name resolve_data_key sync_target_name sync_data_key
defaults_agree ss = (ground arith, ground arith)

-- The interval of the periodic reconcile is positive, whatever is configured, and a positive one is
-- used as it is.
pub reconcile_interval-positive :
    (d : ℤ)
    → (positive (reconcile_interval d) ≡ true)
      × (reconcile_interval d ≡ (if positive d then d else default_reconcile_interval))
unfolding reconcile_interval
reconcile_interval-positive (pos n) = (ground arith, refl)
reconcile_interval-positive (negsuc n) = (refl, refl)
