-- ===== src/Kube.antt =====
-- What the operator calls and does not implement: the API server through controller-runtime's
-- client, helpers of apimachinery and controllerutil, and Key Vault. All are parameters; the
-- records of laws say what the code relies on of their documented behaviour.
use kvsynk8s.Base.{ℕ, String, Bool, true, Option, some, List, [], ◌∷◌, ◌≡◌}
use kvsynk8s.Exec.{Exec}
use kvsynk8s.Api.{SecretSync, Secret, OwnerReference, Condition}

-- The result of `controllerutil.SetControllerReference`: the owner references that it leaves on
-- the object, an `AlreadyOwnedError`, or another error.
pub data OwnerOutcome : Type 0 where
  owner_set : List OwnerReference → OwnerOutcome
  already_owned owner_rejected : OwnerOutcome

pub record Kube : Type 0 where
  -- metav1.GetControllerOf, which reads the owner references
  pub get_controller_of : List OwnerReference → Option OwnerReference
  pub set_controller_reference : SecretSync → Secret → OwnerOutcome
  pub contains_finalizer : SecretSync → String → Bool
  pub add_finalizer : SecretSync → String → SecretSync
  pub remove_finalizer : SecretSync → String → SecretSync
  -- meta.SetStatusCondition
  pub set_status_condition : List Condition → Condition → List Condition

pub record KubeLaws (k : Kube) : Type 0 where
  -- a single reference that says it is the controller is the controller
  pub controller_of_single :
      (r : OwnerReference) → r.controller ≡ some true → k.get_controller_of (r ∷ []) ≡ some r
  -- after `SetControllerReference` has succeeded the object's controller is the owner
  pub set_reference_owns :
      (o : SecretSync) (s : Secret) (refs : List OwnerReference)
      → k.set_controller_reference o s ≡ owner_set refs
      → (r : OwnerReference) × (k.get_controller_of refs ≡ some r) × (r.uid ≡ o.uid)

-- Calls on Secrets. `get_secret` and `list_secrets` read the manager's cache.
pub record Client (W : Type 0) : Type 0 where
  pub get_secret : String → String → Exec W Secret
  pub create_secret : Secret → Exec W (Unit {0})
  pub update_secret : Secret → Exec W (Unit {0})
  pub delete_secret : Secret → Exec W (Unit {0})
  -- in a namespace, with the label that the code asks for
  pub list_secrets : String → String → String → Exec W (List Secret)

-- The uncached reader, mgr.GetAPIReader().
pub record Reader (W : Type 0) : Type 0 where
  pub get_secret : String → String → Exec W Secret

-- Whether a status is written under the deadline of the reconcile, or detached from it.
pub data Deadline : Type 0 where
  reconcile_deadline status_persist_deadline : Deadline

-- Calls on SecretSyncs. An update gives the object back as the API server returned it.
pub record SyncClient (W : Type 0) : Type 0 where
  pub get_sync : String → String → Exec W SecretSync
  pub list_syncs : Option String → Exec W (List SecretSync)
  pub update_sync : SecretSync → Exec W SecretSync
  pub update_sync_status : Deadline → SecretSync → Exec W SecretSync

-- azure.SecretReader: the value and the version of the latest secret.
pub record SecretReader (W : Type 0) : Type 0 where
  pub get_latest : String → String → Exec W (String × String)

-- metav1.Now and time.Now, in seconds
pub record Clock (W : Type 0) : Type 0 where
  pub now : W → ℕ × W
