-- ===== src/Sync/Engine.antt =====
-- internal/sync/engine.go. `Sync` changes its argument `existing` in place on the write path and
-- returns it; the model returns the changed Secret, which the caller reads from there alone.
pub mod Frame
pub mod Fits
pub mod Keeps
pub mod Steady
pub mod Unread
pub mod Answered
pub mod Idempotent
use kvsynk8s.Base.{
  ℕ, String, Bool, true, false, ◌&&◌, Option, none, some, List, [], ◌∷◌, ◌++◌, get, str_eq,
  if◌then◌else◌,
}
use kvsynk8s.Errors.{
  Err, Result, ok, err, leaf, Leaf, errors_is, is_secret_not_found, is_secret_disabled,
  is_access_denied, is_auth_failure, is_transient,
}
use kvsynk8s.Message.{Message, text, quoted}
use kvsynk8s.Exec.{Exec, pure, raise, attempt}
use kvsynk8s.Api.{
  SecretSync, SecretSyncStatus, SecretSyncState, Reason, Secret, OwnerReference, in_sync, failing,
  no_reason, target_conflict, source_deleted, source_disabled, transient_error,
  authentication_failed,
}
use kvsynk8s.Kube.{Kube, Clock, SecretReader}
use kvsynk8s.Sync.Writer.{
  annotation_version, labeled, controller_owned_by, populate_managed_secret,
  managed_secret_data_matches, new_secret,
}

abbrev pub or_default : String → String → String
or_default given fallback = if str_eq given "" then fallback else given

-- the defaults at the top of `Sync`
unfoldable pub sync_data_key : SecretSync → String
sync_data_key owner = or_default owner.spec.target.data_key owner.spec.vault.secret

unfoldable pub sync_target_name : SecretSync → String
sync_target_name owner = or_default owner.spec.target.secret_name owner.name

unfoldable pub controller_owner_reference : SecretSync → OwnerReference
controller_owner_reference owner = record {
  api_version = "kvsynk8s.io/v1alpha1";
  kind = "SecretSync";
  name = owner.name;
  uid = owner.uid;
  controller = some true;
  block_owner_deletion = some true;
}

-- `secret %q in vault %q …`
abbrev about : SecretSync → String → String → String → Message
about owner before between after =
    text before
    ∷ quoted owner.spec.vault.secret
    ∷ text between
    ∷ quoted owner.spec.vault.name
    ∷ text after
    ∷ []

unfoldable pub classify_reader_error : Err → SecretSync → Bool → Reason × Message
classify_reader_error e owner managed =
    if errors_is is_secret_not_found e
    then (if managed
        then (
          source_deleted,
          about owner "secret " " in vault " " no longer exists; keeping last synced value",
        )
        else (Reason.secret_not_found, about owner "secret " " not found in vault " ""))
    else if errors_is is_secret_disabled e
    then (if managed
        then (
          source_disabled,
          about owner "secret " " in vault " " is disabled; keeping last synced value",
        )
        else (source_disabled, about owner "secret " " in vault " " is disabled"))
    else if errors_is is_access_denied e
    then (Reason.access_denied, about owner "access denied reading secret " " from vault " "")
    else if errors_is is_auth_failure e
    then (
      authentication_failed,
      about owner "could not authenticate to Azure to read secret " " from vault " "",
    )
    else if errors_is is_transient e
    then (transient_error, about owner "transient error reading secret " " from vault " "")
    else (transient_error, about owner "unclassified error reading secret " " from vault " "")

-- The status that every path starts from: the last good time and version are carried forward.
unfoldable pub carried_status : SecretSync → SecretSyncStatus
carried_status owner = record {
  state = SecretSyncState.unset;
  last_sync_time = owner.status.last_sync_time;
  synced_version = owner.status.synced_version;
  reason = no_reason;
  message = [];
  observed_generation = owner.generation;
  conditions = [];
}

abbrev pub failing_status : SecretSyncStatus → Reason × Message → SecretSyncStatus
failing_status s (r, m) = record s { state = failing; reason = r; message = m }

-- FR-012: the message of the conflict with the Secret that is there, if there is one
unfoldable pub ownership_conflict : Kube → SecretSync → Option Secret → Option Message
ownership_conflict k owner none = none
ownership_conflict k owner (some existing) =
    let place = text owner.namespace ∷ text "/" ∷ text (sync_target_name owner) ∷ [] in
    if labeled existing
    then elim (k.get_controller_of existing.owner_references) [
      | none ↦ none
      | some ref ↦
          (if str_eq ref.uid owner.uid
            then none
            else some
                (text "secret " ∷ place ++ text " is already owned by another SecretSync" ∷ []))
    ]
    else some (text "secret " ∷ place ++ text " already exists and is not managed by kvsynk8s" ∷ [])

-- labeled, and controlled by this owner
unfoldable pub managed_by : Kube → SecretSync → Option Secret → Bool
managed_by k owner none = false
managed_by k owner (some existing) = labeled existing && controller_owned_by k existing owner

-- the test of the idempotent skip
unfoldable pub up_to_date : Kube → SecretSync → Option Secret → String → String → Bool
up_to_date k owner none value version = false
up_to_date k owner (some existing) value version =
    managed_by k owner (some existing)
    && str_eq (get annotation_version existing.annotations) version
    && managed_secret_data_matches existing (sync_data_key owner) value

abbrev pub or_new : SecretSync → Option Secret → Secret
or_new owner none = new_secret owner.namespace (sync_target_name owner)
or_new owner (some existing) = existing

-- the Secret of the write path
unfoldable pub desired_secret : SecretSync → Option Secret → String → String → Secret
desired_secret owner existing value version =
    record (populate_managed_secret (or_new owner existing) owner (sync_data_key owner) value
      version) { owner_references = controller_owner_reference owner ∷ [] }

abbrev pub synced_status : SecretSyncStatus → String → ℕ → SecretSyncStatus
synced_status s version now = record s {
  state = in_sync;
  synced_version = version;
  last_sync_time = some now;
}

module _ {W : Type 0} (k : Kube) (clock : Clock W) where
  -- `Sync` after the read of the vault
  unfoldable pub settle :
      SecretSync
      → Option Secret
      → Result (String × String)
      → Exec W (SecretSyncStatus × Option Secret)
  settle owner existing (err e) w = (
    ok (
      failing_status (carried_status owner)
          (classify_reader_error e owner (managed_by k owner existing)),
      existing,
    ),
    w,
  )
  settle owner existing (ok (value, version)) w =
      let (now, v) = clock.now w in
      let status = synced_status (carried_status owner) version now in
      if up_to_date k owner existing value version
      then (ok (status, existing), v)
      else (ok (status, some (desired_secret owner existing value version)), v)

  -- `Sync` after the nil check of the reader and the conflict check
  read_and_settle :
      SecretReader W
      → SecretSync
      → Option Secret
      → Option Message
      → Exec W (SecretSyncStatus × Option Secret)
  read_and_settle reader owner existing (some message) =
      pure (failing_status (carried_status owner) (target_conflict, message), existing)
  read_and_settle reader owner existing none =
      attempt (reader.get_latest owner.spec.vault.name owner.spec.vault.secret)
        (settle owner existing)

  unfoldable pub sync :
      Option (SecretReader W)
      → SecretSync
      → Option Secret
      → Exec W (SecretSyncStatus × Option Secret)
  unfolding read_and_settle
  sync none owner existing = raise (leaf Leaf.plain)
  sync (some reader) owner existing =
      read_and_settle reader owner existing (ownership_conflict k owner existing)
