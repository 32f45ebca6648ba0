-- ===== src/Controller/Removal.antt =====
-- `reconcileDelete` and `deleteStaleManagedSecrets` of
-- internal/controller/secretsync_controller.go.
pub mod Safety
pub mod Released
use kvsynk8s.Base.{String, Bool, true, false, not, ◌&&◌, List, [], ◌∷◌, str_eq, if◌then◌else◌}
use kvsynk8s.Errors.{Err, Result, ok, err, wrap, errors_is, is_not_found}
use kvsynk8s.Exec.{Exec, pure, raise, attempt, wrapped, ◌>>=◌, ◌>>◌}
use kvsynk8s.Api.{SecretSync, Secret}
use kvsynk8s.Kube.{Kube, Client, SyncClient}
use kvsynk8s.Sync.Writer.{controller_owned_by, label_managed_by, label_managed_by_value}
use kvsynk8s.Controller.{finalizer_name}

module _ {W : Type 0} (k : Kube) (client : Client W) where
  -- a Delete that may find the Secret gone already
  unfoldable pub ignore_gone : Result (Unit {0}) → Exec W (Unit {0})
  ignore_gone (ok _) = pure tt
  ignore_gone (err e) = if errors_is is_not_found e then pure tt else raise (wrap e)

  unfoldable pub delete_if_owned : SecretSync → Secret → Exec W (Unit {0})
  unfolding ignore_gone
  delete_if_owned ss secret =
      if controller_owned_by k secret ss
      then attempt (client.delete_secret secret) ignore_gone
      else pure tt

  -- the switch of `reconcileDelete` on the Get of the target
  remove_target : SecretSync → Result Secret → Exec W (Unit {0})
  unfolding delete_if_owned
  remove_target ss (ok secret) = delete_if_owned ss secret
  remove_target ss (err e) = if errors_is is_not_found e then pure tt else raise (wrap e)

  -- `RemoveFinalizer` and the Update
  drop_finalizer : SyncClient W → SecretSync → Exec W (Unit {0})
  drop_finalizer syncs ss = do
    updated ← wrapped (syncs.update_sync (k.remove_finalizer ss finalizer_name))
    pure tt

  unfoldable pub reconcile_delete : SyncClient W → SecretSync → String → String → Exec W (Unit {0})
  unfolding remove_target drop_finalizer
  reconcile_delete syncs ss namespace target =
      if not (k.contains_finalizer ss finalizer_name) then pure tt else do
        attempt (client.get_secret namespace target) (remove_target ss)
        drop_finalizer syncs ss

  -- the loop over the listed Secrets
  unfoldable pub delete_each : SecretSync → String → List Secret → Exec W (Unit {0})
  unfolding delete_if_owned
  delete_each ss current_target [] = pure tt
  delete_each ss current_target (secret ∷ rest) =
      let later = delete_each ss current_target rest in
      if str_eq secret.name current_target then later else delete_if_owned ss secret >> later

  unfoldable pub delete_stale_managed_secrets : SecretSync → String → Exec W (Unit {0})
  unfolding delete_each
  delete_stale_managed_secrets ss current_target = do
    items ← wrapped (client.list_secrets ss.namespace label_managed_by label_managed_by_value)
    delete_each ss current_target items
