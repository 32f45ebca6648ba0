-- ===== src/Controller.antt =====
-- internal/controller/secretsync_controller.go: the reconciler and what it decides with.
-- `Reconcile` itself is in Controller/Reconcile.antt, deletion in Controller/Removal.antt.
pub mod Metrics
pub mod Removal
pub mod Reconcile
pub mod Precedence
pub mod Status
pub mod Gate
pub mod Outcome
pub mod Setup
use kvsynk8s.Base.{
  ℕ, String, Bool, true, false, ◌&&◌, ◌||◌, not, Option, none, some, List, [], ◌∷◌, ◌++◌, Dict,
  lookup, str_eq, length, any, str_lt, ltb, ◌==◌, if◌then◌else◌, ℤ, pos, positive, map,
}
use kvsynk8s.Errors.{Err, Result, ok, err, errors_is, is_target_conflict, is_target_immutable}
use kvsynk8s.Message.{Message, text, quoted}
use kvsynk8s.Exec.{Exec, pure, attempt, wrapped, ◌>>=◌}
use kvsynk8s.Api.{
  SecretSync, SecretSyncStatus, SecretSyncState, in_sync, failing, unset, pending, Reason,
  reason_text, Condition, ConditionStatus, condition_true, condition_false, condition_unknown,
  is_failing, Secret, target_conflict, transient_error, secret_write_failed, authentication_failed,
}
use kvsynk8s.Kube.{Kube, Client, Reader, SyncClient, SecretReader, Clock}
use kvsynk8s.Controller.Metrics.{SyncCount, record_sync_result}

abbrev pub finalizer_name : String
finalizer_name = "kvsynk8s.io/secretsync-finalizer"

-- 4 h, in nanoseconds
abbrev pub default_reconcile_interval : ℤ
default_reconcile_interval = pos 14400000000000

-- What a reconcile lets an operator see besides the status.
pub data Observation : Type 0 where
  -- a Kubernetes Event: whether it is a warning, its reason, its message
  event : Bool → String → Message → Observation
  counted : SyncCount → Observation
  logged : String → List (String × Message) → Observation

-- `Reader` and `APIReader` are `none` when nil; `recorder` says whether a Recorder is wired.
pub record Reconciler (W : Type 0) : Type 0 where
  pub client : Client W
  pub syncs : SyncClient W
  pub reader : Option (SecretReader W)
  pub api_reader : Option (Reader W)
  pub clock : Clock W
  pub interval : ℤ
  pub recorder : Bool
  pub observe : Observation → W → W

unfoldable pub reconcile_interval : ℤ → ℤ
reconcile_interval d = if positive d then d else default_reconcile_interval

unfoldable pub resolve_target_name : SecretSync → String
resolve_target_name ss =
    if not (str_eq ss.spec.target.secret_name "") then ss.spec.target.secret_name else ss.name

unfoldable pub resolve_data_key : SecretSync → String
resolve_data_key ss =
    if not (str_eq ss.spec.target.data_key "")
    then ss.spec.target.data_key
    else ss.spec.vault.secret

unfoldable pub takes_precedence : SecretSync → SecretSync → Bool
takes_precedence a b =
    if not (a.creation_timestamp == b.creation_timestamp)
    then ltb a.creation_timestamp b.creation_timestamp
    else str_lt a.name b.name

-- `other.Status.State == Failing && other.Status.Reason == TargetConflict`
abbrev pub defeated : SecretSyncState → Reason → Bool
defeated failing target_conflict = true
defeated failing _ = false
defeated _ _ = false

-- one round of the loop of `findConflictingOwner`
unfoldable pub beats : SecretSync → SecretSync → Bool
beats owner other =
    if str_eq other.name owner.name
    then false
    else if not (str_eq (resolve_target_name other) (resolve_target_name owner))
    then false
    else if defeated other.status.state other.status.reason
    then false
    else takes_precedence other owner

unfoldable pub find_conflicting_owner : {W : Type 0} → SyncClient W → SecretSync → Exec W Bool
unfolding beats
find_conflicting_owner c owner = do
  items ← wrapped (c.list_syncs (some owner.namespace))
  pure (any (beats owner) items)

unfoldable pub is_terminal_write_error : Err → Bool
is_terminal_write_error e = errors_is is_target_conflict e || errors_is is_target_immutable e

unfoldable pub retried_with_backoff : Reason → Bool
retried_with_backoff transient_error = true
retried_with_backoff secret_write_failed = true
retried_with_backoff authentication_failed = true
retried_with_backoff _ = false

abbrev unknown_if_empty : String → String
unknown_if_empty s = if str_eq s "" then "Unknown" else s

ready_of : SecretSyncState → SecretSyncStatus → ConditionStatus × String × Message
ready_of in_sync s =
    (condition_true, "Synced", text "synced version " ∷ quoted s.synced_version ∷ [])
ready_of failing s = (condition_false, reason_text s.reason, s.message)
ready_of _ s = (condition_unknown, "Pending", text "no sync attempt has completed yet" ∷ [])

-- The condition that `setReadyCondition` hands to `meta.SetStatusCondition`.
unfoldable pub ready_condition : SecretSyncStatus → Condition
unfolding ready_of
ready_condition s =
    let (status, reason, message) = ready_of s.state s in
    record {
      kind = "Ready";
      status = status;
      observed_generation = s.observed_generation;
      last_transition_time = none;
      reason = unknown_if_empty reason;
      message = message;
    }

unfoldable pub set_ready_condition : Kube → SecretSync → SecretSyncStatus → SecretSyncStatus
set_ready_condition k ss s = record s {
  conditions = k.set_status_condition ss.status.conditions (ready_condition s);
}

-- `recordEvent`
abbrev record_event : Bool → Bool → String → Message → List Observation
record_event recorder warning reason message =
    if recorder then event warning reason message ∷ [] else []

abbrev identity : SecretSync → List (String × Message)
identity ss =
    ("namespace", text ss.namespace ∷ [])
    ∷ ("name", text ss.name ∷ [])
    ∷ ("vault", text ss.spec.vault.name ∷ [])
    ∷ ("secret", text ss.spec.vault.secret ∷ [])
    ∷ []

outcome_of :
    SecretSyncState
    → Bool
    → SecretSync
    → SecretSyncState
    → SecretSyncStatus
    → String
    → List Observation
outcome_of in_sync recorder ss previous s target =
    (record_event recorder false "Synced" (
      text "synced secret "
      ∷ quoted ss.spec.vault.secret
      ∷ text " (version "
      ∷ quoted s.synced_version
      ∷ text ") from vault "
      ∷ quoted ss.spec.vault.name
      ∷ text " into "
      ∷ text ss.namespace
      ∷ text "/"
      ∷ text target
      ∷ []))
    ++ (map counted (record_sync_result in_sync Reason.no_reason)
        ++ (if is_failing previous
            then logged "SecretSync recovered"
                (identity ss ++ ("version", text s.synced_version ∷ []) ∷ [])
              ∷ []
            else []))
outcome_of failing recorder ss previous s target =
    (record_event recorder true "SyncFailed" (text (reason_text s.reason) ∷ text ": " ∷ s.message))
    ++ (map counted (record_sync_result failing s.reason)
        ++ (logged "SecretSync is failing" (
              identity ss
              ++ ("reason", text (reason_text s.reason) ∷ []) ∷ ("message", s.message) ∷ [])
            ∷ []))
outcome_of _ recorder ss previous s target = []

unfoldable pub record_sync_outcome :
    Bool → SecretSync → SecretSyncState → SecretSyncStatus → String → List Observation
unfolding outcome_of record_sync_result
record_sync_outcome recorder ss previous s target = outcome_of s.state recorder ss previous s target

abbrev holds_pair : Dict String → String × String → Bool
holds_pair m (key, v) = elim (lookup key m) [ none ↦ false | some w ↦ str_eq v w ]

abbrev all_in : Dict String → Dict String → Bool
all_in [] m = true
all_in (p ∷ ps) m = let rest = all_in ps m in if holds_pair m p then rest else false

-- `maps.EqualFunc(a, b, bytes.Equal)`
unfoldable pub equal_data : Dict String → Dict String → Bool
equal_data a b = if length a == length b then all_in a b else false
