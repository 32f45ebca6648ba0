-- ===== src/Controller/Metrics.antt =====
-- internal/controller/metrics.go: the counter of sync outcomes and the collector of states.
pub mod Totals
use kvsynk8s.Base.{
  Bool, true, false, ℕ, zero, suc, ◌+◌, String, Option, none, some, List, [], ◌∷◌, str_eq, ltb,
  if◌then◌else◌,
}
use kvsynk8s.Api.{SecretSync, SecretSyncState, unset, in_sync, failing, Reason, reason_text}

-- The labels of one increment of `kvsynk8s_sync_total`.
pub record SyncCount : Type 0 where
  pub result : String
  pub reason : String

unfoldable pub record_sync_result : SecretSyncState → Reason → List SyncCount
record_sync_result in_sync _ = record { result = "success"; reason = "None" } ∷ []
record_sync_result failing r =
    record {
      result = "failure";
      reason = if str_eq (reason_text r) "" then "Unknown" else reason_text r;
    }
    ∷ []
record_sync_result _ _ = []

-- the state under which an object is counted: a new object is `Pending`
abbrev pub counted_state : SecretSync → SecretSyncState
counted_state ss = elim ss.status.state [ unset ↦ SecretSyncState.pending | s ↦ s ]

unfoldable pub same_state : SecretSyncState → SecretSyncState → Bool
same_state unset unset = true
same_state SecretSyncState.pending SecretSyncState.pending = true
same_state in_sync in_sync = true
same_state failing failing = true
same_state _ _ = false

-- The map `counts`, one series for each key.
abbrev pub StateCounts : Type 0
StateCounts = List (SecretSyncState × ℕ)

-- `counts[state]++`: a key that is missing is added
count_state : SecretSyncState → StateCounts → StateCounts
unfolding same_state
count_state s [] = (s, 1) ∷ []
count_state s ((key, n) ∷ counts) =
    let rest = count_state s counts in
    if same_state key s then (key, n + 1) ∷ counts else (key, n) ∷ rest

-- The running minimum `oldest`, with 0 for "none yet".
older : ℕ → Option ℕ → ℕ
older oldest none = oldest
older zero (some synced) = synced
older (suc n) (some synced) = if ltb synced (suc n) then synced else suc n

older_of : SecretSyncState → ℕ → Option ℕ → ℕ
unfolding older
older_of in_sync oldest synced = older oldest synced
older_of _ oldest synced = oldest

-- The loop of `Collect`.
unfoldable pub collect_from : StateCounts → ℕ → List SecretSync → StateCounts × ℕ
unfolding count_state older_of
collect_from counts oldest [] = (counts, oldest)
collect_from counts oldest (item ∷ items) =
    collect_from (count_state (counted_state item) counts)
      (older_of (counted_state item) oldest item.status.last_sync_time) items

-- the map before the loop
abbrev no_counts : StateCounts
no_counts = (SecretSyncState.pending, 0) ∷ (in_sync, 0) ∷ (failing, 0) ∷ []

-- What `Collect` emits: the counts, and the oldest time unless it is 0.
pub record Collected : Type 0 where
  pub counts : StateCounts
  pub oldest : Option ℕ

emitted : ℕ → Option ℕ
emitted zero = none
emitted (suc n) = some (suc n)

-- `none` for the whole answer: no reader is published yet, or the List failed.
unfoldable pub collect : Option (List SecretSync) → Option Collected
unfolding collect_from emitted
collect none = none
collect (some items) =
    let (counts, oldest) = collect_from no_counts 0 items in
    some (record { counts = counts; oldest = emitted oldest })
