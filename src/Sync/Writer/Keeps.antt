-- ===== src/Sync/Writer/Keeps.antt =====
-- What every call keeps, `CreateOrUpdate` keeps.
use kvsynk8s.Base.{String, Option, some}
use kvsynk8s.Errors.{Err, Result, ok, err}
use kvsynk8s.Exec.Keeps.{Keeps, Keeps-attempt, Keeps-bind, Keeps-wrapped, keeps_rules}
use kvsynk8s.Api.{SecretSync, Secret}
use kvsynk8s.Kube.{Kube, OwnerOutcome, owner_set, already_owned, owner_rejected, Client, Reader}
use kvsynk8s.Sync.Writer.{
  store_update, apply_update, fresh_copy, rewrite_current, recover_conflict, settle_invalid,
  classify_invalid, update_current, answer_update, update, recover_already_exists, answer_create,
  store_create, create, answer_get, write_target, writer_reader, create_with, create_or_update,
}

-- each call on Secrets that the writer makes keeps `P`
pub record CallsKeep {W : Type 0} (P : W → Type 0) (c : Client W) (r : Reader W) : Type 0 where
  pub gets : (namespace name : String) → Keeps P (c.get_secret namespace name)
  pub creates : (s : Secret) → Keeps P (c.create_secret s)
  pub updates : (s : Secret) → Keeps P (c.update_secret s)
  pub reads : (namespace name : String) → Keeps P (r.get_secret namespace name)

module _ {W : Type 0} {P : W → Type 0} (k : Kube) (c : Client W) (r : Reader W)
    (calls : CallsKeep P c r) (owner : SecretSync) (data_key value version : String) where
  store_update-Keeps : (o : OwnerOutcome) (s : Secret) → Keeps P (store_update k c r o s)
  unfolding store_update
  store_update-Keeps (owner_set refs) s = Keeps-wrapped _ (calls.updates _)
  store_update-Keeps already_owned s = search keeps_rules
  store_update-Keeps owner_rejected s = search keeps_rules

  apply_update-Keeps : (s : Secret) → Keeps P (apply_update k c r owner s data_key value version)
  unfolding apply_update
  apply_update-Keeps s = search (keeps_rules, store_update-Keeps)

  rewrite_current-Keeps :
      (s : Secret) → Keeps P (rewrite_current k c r owner data_key value version s)
  unfolding rewrite_current
  rewrite_current-Keeps s = search (keeps_rules, apply_update-Keeps)

  fresh_copy-Keeps : (namespace name : String) → Keeps P (fresh_copy k c r namespace name)
  unfolding fresh_copy
  fresh_copy-Keeps namespace name = calls.reads namespace name

  recover_conflict-Keeps :
      (namespace name : String)
      → Keeps P (recover_conflict k c r owner namespace name data_key value version)
  unfolding recover_conflict
  recover_conflict-Keeps namespace name =
      search (keeps_rules, fresh_copy-Keeps, rewrite_current-Keeps)

  settle_invalid-Keeps :
      (e : Err) (a : Result Secret) → Keeps P (settle_invalid k c r data_key value e a)
  unfolding settle_invalid
  settle_invalid-Keeps e (ok s) = search keeps_rules
  settle_invalid-Keeps e (err _) = search keeps_rules

  classify_invalid-Keeps :
      (namespace name : String) (e : Err)
      → Keeps P (classify_invalid k c r namespace name data_key value e)
  unfolding classify_invalid
  classify_invalid-Keeps namespace name e =
      search (keeps_rules, fresh_copy-Keeps, settle_invalid-Keeps)

  answer_update-Keeps :
      (s : Secret) (a : Result (Unit {0}))
      → Keeps P (answer_update k c r owner s data_key value version a)
  unfolding answer_update
  answer_update-Keeps s (ok _) = search keeps_rules
  answer_update-Keeps s (err e) =
      search (keeps_rules, recover_conflict-Keeps, classify_invalid-Keeps)

  update-Keeps : (s : Secret) → Keeps P (update k c r owner s data_key value version)
  unfolding update
  update-Keeps s = search (keeps_rules, apply_update-Keeps, answer_update-Keeps)

  update_current-Keeps :
      (s : Secret) → Keeps P (update_current k c r owner data_key value version s)
  unfolding update_current
  update_current-Keeps s = search (keeps_rules, update-Keeps)

  recover_already_exists-Keeps :
      (namespace name : String)
      → Keeps P (recover_already_exists k c r owner namespace name data_key value version)
  unfolding recover_already_exists
  recover_already_exists-Keeps namespace name =
      Keeps-bind _ _ (Keeps-wrapped _ (calls.reads namespace name)) update_current-Keeps

  answer_create-Keeps :
      (namespace name : String) (a : Result (Unit {0}))
      → Keeps P (answer_create k c r owner namespace name data_key value version a)
  unfolding answer_create
  answer_create-Keeps namespace name (ok _) = search keeps_rules
  answer_create-Keeps namespace name (err e) = search (keeps_rules, recover_already_exists-Keeps)

  store_create-Keeps :
      (namespace name : String) (o : OwnerOutcome) (s : Secret)
      → Keeps P (store_create k c r owner namespace name data_key value version o s)
  unfolding store_create
  store_create-Keeps namespace name (owner_set refs) s =
      Keeps-attempt _ _ (calls.creates _) (answer_create-Keeps namespace name)
  store_create-Keeps namespace name already_owned s = search keeps_rules
  store_create-Keeps namespace name owner_rejected s = search keeps_rules

  create-Keeps :
      (namespace name : String) → Keeps P (create k c r owner namespace name data_key value version)
  unfolding create
  create-Keeps namespace name = store_create-Keeps namespace name _ _

  answer_get-Keeps :
      (namespace name : String) (a : Result Secret)
      → Keeps P (answer_get k c r owner namespace name data_key value version a)
  unfolding answer_get
  answer_get-Keeps namespace name (ok s) = search (keeps_rules, update-Keeps)
  answer_get-Keeps namespace name (err e) = search (keeps_rules, create-Keeps)

  pub write_target-Keeps :
      (namespace name : String)
      → Keeps P (write_target k c r owner namespace name data_key value version)
  unfolding write_target
  write_target-Keeps namespace name =
      Keeps-attempt _ _ (calls.gets namespace name) (answer_get-Keeps namespace name)

-- `CreateOrUpdate` with a client keeps what every call through it keeps.
pub create_or_update-Keeps :
    {W : Type 0} {P : W → Type 0} (k : Kube) (c : Client W) (r : Option (Reader W))
    (owner : SecretSync) (namespace name data_key value version : String)
    → CallsKeep P c (writer_reader c r)
    → Keeps P (
        create_or_update k
          (record { client = some c; reader = r })
          owner
          namespace
          name
          data_key
          value
          version)
unfolding create_or_update create_with
create_or_update-Keeps k c r owner namespace name data_key value version calls =
    write_target-Keeps k c (writer_reader c r) calls owner data_key value version namespace name
