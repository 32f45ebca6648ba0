-- ===== src/Api.antt =====
-- api/v1alpha1/secretsync_types.go, and the fields of the Kubernetes objects that the code reads
-- or writes. Times are seconds; `none` is the zero `metav1.Time`. Generations and times are int64
-- that the API server counts up, so they are numbers here.
use kvsynk8s.Base.{ℕ, String, Bool, Option, List, Dict, true, false}
use kvsynk8s.Message.{Message}

pub record VaultSpec : Type 0 where
  pub name : String
  pub secret : String

-- Empty fields ask for the defaults.
pub record TargetSpec : Type 0 where
  pub secret_name : String
  pub data_key : String

pub record SecretSyncSpec : Type 0 where
  pub vault : VaultSpec
  pub target : TargetSpec

-- `unset` is the empty string of a new object.
pub data SecretSyncState : Type 0 where
  unset pending in_sync failing : SecretSyncState

-- The machine-readable reasons; `no_reason` is the empty string, `other` any text that the
-- operator does not write itself.
pub data Reason : Type 0 where
  no_reason secret_not_found access_denied authentication_failed target_conflict target_immutable :
      Reason
  source_deleted source_disabled secret_write_failed transient_error : Reason
  other : String → Reason

abbrev pub reason_text : Reason → String
reason_text no_reason = ""
reason_text secret_not_found = "SecretNotFound"
reason_text access_denied = "AccessDenied"
reason_text authentication_failed = "AuthenticationFailed"
reason_text target_conflict = "TargetConflict"
reason_text target_immutable = "TargetImmutable"
reason_text source_deleted = "SourceDeleted"
reason_text source_disabled = "SourceDisabled"
reason_text secret_write_failed = "SecretWriteFailed"
reason_text transient_error = "TransientError"
reason_text (other s) = s

pub data ConditionStatus : Type 0 where
  condition_true condition_false condition_unknown : ConditionStatus

-- metav1.Condition
pub record Condition : Type 0 where
  pub kind : String
  pub status : ConditionStatus
  pub observed_generation : ℕ
  pub last_transition_time : Option ℕ
  pub reason : String
  pub message : Message

pub record SecretSyncStatus : Type 0 where
  pub state : SecretSyncState
  pub last_sync_time : Option ℕ
  pub synced_version : String
  pub reason : Reason
  pub message : Message
  pub observed_generation : ℕ
  pub conditions : List Condition

pub record SecretSync : Type 0 where
  pub namespace : String
  pub name : String
  pub uid : String
  pub generation : ℕ
  pub creation_timestamp : ℕ
  pub deletion_timestamp : Option ℕ
  pub finalizers : List String
  pub spec : SecretSyncSpec
  pub status : SecretSyncStatus

-- metav1.OwnerReference
pub record OwnerReference : Type 0 where
  pub api_version : String
  pub kind : String
  pub name : String
  pub uid : String
  pub controller : Option Bool
  pub block_owner_deletion : Option Bool

-- corev1.Secret
pub record Secret : Type 0 where
  pub namespace : String
  pub name : String
  pub resource_version : String
  pub labels : Dict String
  pub annotations : Dict String
  pub owner_references : List OwnerReference
  pub kind : String
  pub immutable : Option Bool
  pub contents : Dict String

abbrev pub is_in_sync : SecretSyncState → Bool
is_in_sync in_sync = true
is_in_sync _ = false

abbrev pub is_failing : SecretSyncState → Bool
is_failing failing = true
is_failing _ = false

abbrev pub is_unset : SecretSyncState → Bool
is_unset unset = true
is_unset _ = false
