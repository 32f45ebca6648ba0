-- ===== src/Sync/Writer.antt =====
-- internal/sync/writer.go. A method gets the world through the client's calls; `w.Client` and
-- `w.reader()` are the section's parameters, and `create_or_update` makes the nil check.
pub mod Managed
pub mod Shape
pub mod Trace
pub mod Keeps
pub mod Server
pub mod Concurrency
pub mod Quiet
pub mod Atomic
pub mod Verdicts
pub mod Bounded
pub mod Tally
pub mod Right
pub mod Safety
use kvsynk8s.Base.{
  String, Bool, true, false, ◌&&◌, ◌||◌, Option, none, some, List, [], ◌∷◌, Dict, lookup, put, get,
  str_eq, length, ◌==◌, if◌then◌else◌,
}
use kvsynk8s.Errors.{
  Err, Result, ok, err, leaf, wrap, Leaf, errors_is, is_not_found, is_already_exists, is_conflict,
  is_invalid,
}
use kvsynk8s.Exec.{Exec, pure, raise, attempt, wrapped, ◌>>=◌}
use kvsynk8s.Api.{SecretSync, Secret}
pub use kvsynk8s.Sync.Writer.Managed.{
  label_managed_by, label_managed_by_value, annotation_vault, annotation_secret, annotation_version,
  frozen,
}
unfoldable pub use kvsynk8s.Sync.Writer.Managed.{
  labeled, controller_owned_by, writable, populate_managed_secret, managed_secret_data_matches,
  immutable_blocks_write, new_secret,
}
use kvsynk8s.Kube.{Kube, OwnerOutcome, owner_set, already_owned, owner_rejected, Client, Reader}

module _ {W : Type 0} (k : Kube) (client : Client W) (reader : Reader W) where
  -- what follows the SetControllerReference of `apply_update`
  store_update : OwnerOutcome → Secret → Exec W (Unit {0})
  store_update (owner_set refs) secret =
      wrapped (client.update_secret (record secret { owner_references = refs }))
  store_update already_owned secret = raise (wrap (leaf Leaf.target_conflict))
  store_update owner_rejected secret = raise (wrap (leaf Leaf.plain))

  unfoldable pub apply_update : SecretSync → Secret → String → String → String → Exec W (Unit {0})
  unfolding store_update
  apply_update owner existing data_key value version =
      if immutable_blocks_write existing data_key value
      then raise (wrap (leaf Leaf.target_immutable))
      else let secret = populate_managed_secret existing owner data_key value version in
        store_update (k.set_controller_reference owner secret) secret

  unfoldable pub fresh_copy : String → String → Exec W Secret
  fresh_copy namespace name = reader.get_secret namespace name

  -- `recover_conflict` once the object has been read again
  rewrite_current : SecretSync → String → String → String → Secret → Exec W (Unit {0})
  rewrite_current owner data_key value version current =
      if writable k current owner
      then apply_update owner current data_key value version
      else raise (wrap (leaf Leaf.target_conflict))

  unfoldable pub recover_conflict :
      SecretSync → String → String → String → String → String → Exec W (Unit {0})
  unfolding rewrite_current
  recover_conflict owner namespace name data_key value version = do
    current ← wrapped (fresh_copy namespace name)
    rewrite_current owner data_key value version current

  -- `classify_invalid` once the object has been read again
  settle_invalid : String → String → Err → Result Secret → Exec W (Unit {0})
  settle_invalid data_key value invalid_err (err e) = raise invalid_err
  settle_invalid data_key value invalid_err (ok current) =
      if immutable_blocks_write current data_key value
      then raise (wrap (leaf Leaf.target_immutable))
      else raise invalid_err

  unfoldable pub classify_invalid : String → String → String → String → Err → Exec W (Unit {0})
  unfolding settle_invalid
  classify_invalid namespace name data_key value invalid_err =
      attempt (fresh_copy namespace name) (settle_invalid data_key value invalid_err)

  -- the switch of `update` on the error of `apply_update`
  answer_update :
      SecretSync → Secret → String → String → String → Result (Unit {0}) → Exec W (Unit {0})
  answer_update owner existing data_key value version (ok _) = pure tt
  answer_update owner existing data_key value version (err e) =
      if errors_is is_conflict e
      then recover_conflict owner existing.namespace existing.name data_key value version
      else if errors_is is_invalid e
      then classify_invalid existing.namespace existing.name data_key value e
      else raise e

  unfoldable pub update : SecretSync → Secret → String → String → String → Exec W (Unit {0})
  unfolding answer_update
  update owner existing data_key value version =
      attempt (apply_update owner existing data_key value version)
        (answer_update owner existing data_key value version)

  -- `recover_already_exists` once the object has been read again
  update_current : SecretSync → String → String → String → Secret → Exec W (Unit {0})
  update_current owner data_key value version current =
      if writable k current owner
      then update owner current data_key value version
      else raise (wrap (leaf Leaf.target_conflict))

  unfoldable pub recover_already_exists :
      SecretSync → String → String → String → String → String → Exec W (Unit {0})
  unfolding update_current
  recover_already_exists owner namespace name data_key value version = do
    current ← wrapped (reader.get_secret namespace name)
    update_current owner data_key value version current

  -- what `create` does with the error of the client's Create
  answer_create :
      SecretSync
      → String
      → String
      → String
      → String
      → String
      → Result (Unit {0})
      → Exec W (Unit {0})
  answer_create owner namespace name data_key value version (ok _) = pure tt
  answer_create owner namespace name data_key value version (err e) =
      if errors_is is_already_exists e
      then recover_already_exists owner namespace name data_key value version
      else raise (wrap e)

  store_create :
      SecretSync
      → String
      → String
      → String
      → String
      → String
      → OwnerOutcome
      → Secret
      → Exec W (Unit {0})
  unfolding answer_create
  store_create owner namespace name data_key value version (owner_set refs) secret =
      attempt (client.create_secret (record secret { owner_references = refs }))
        (answer_create owner namespace name data_key value version)
  store_create owner namespace name data_key value version _ secret = raise (wrap (leaf Leaf.plain))

  unfoldable pub create :
      SecretSync → String → String → String → String → String → Exec W (Unit {0})
  unfolding store_create
  create owner namespace name data_key value version =
      let secret =
        populate_managed_secret (new_secret namespace name) owner data_key value version in
      store_create owner namespace name data_key value version
        (k.set_controller_reference owner secret) secret

  -- the switch of `create_or_update` on the cached Get
  answer_get :
      SecretSync → String → String → String → String → String → Result Secret → Exec W (Unit {0})
  answer_get owner namespace name data_key value version (err e) =
      if errors_is is_not_found e
      then create owner namespace name data_key value version
      else raise (wrap e)
  answer_get owner namespace name data_key value version (ok existing) =
      if writable k existing owner
      then update owner existing data_key value version
      else raise (wrap (leaf Leaf.target_conflict))

  unfoldable pub write_target :
      SecretSync → String → String → String → String → String → Exec W (Unit {0})
  unfolding answer_get
  write_target owner namespace name data_key value version =
      attempt (client.get_secret namespace name)
        (answer_get owner namespace name data_key value version)

-- `nil` fields are `none`.
pub record SecretWriter (W : Type 0) : Type 0 where
  pub client : Option (Client W)
  pub reader : Option (Reader W)

-- `w.reader()`: the uncached reader when wired, the client otherwise
unfoldable pub writer_reader : {W : Type 0} → Client W → Option (Reader W) → Reader W
writer_reader client (some r) = r
writer_reader client none = record { get_secret = client.get_secret }

create_with :
    {W : Type 0} (k : Kube)
    → Option (Client W)
    → Option (Reader W)
    → SecretSync
    → String
    → String
    → String
    → String
    → String
    → Exec W (Unit {0})
create_with k none reader owner namespace name data_key value version = raise (leaf Leaf.plain)
create_with k (some client) reader owner namespace name data_key value version =
    write_target k client (writer_reader client reader) owner namespace name data_key value version

unfoldable pub create_or_update :
    {W : Type 0}
    → Kube
    → SecretWriter W
    → SecretSync
    → String
    → String
    → String
    → String
    → String
    → Exec W (Unit {0})
unfolding create_with
create_or_update k w owner namespace name data_key value version =
    create_with k w.client w.reader owner namespace name data_key value version
