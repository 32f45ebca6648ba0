-- ===== src/Sync/Writer/Bounded.antt =====
-- What `CreateOrUpdate` adds to a measure of requests.
use kvsynk8s.Base.{ℕ, ◌+◌, String, arith}
use kvsynk8s.Errors.{Err, Result, ok, err}
use kvsynk8s.Exec.Costs.{
  Costs, Costs-pure, Costs-raise, Costs-weaken, Costs-attempt, Costs-wrapped, Costs-bind, Costs-if,
}
use kvsynk8s.Api.{SecretSync, Secret}
use kvsynk8s.Kube.{Kube, OwnerOutcome, owner_set, already_owned, owner_rejected, Client, Reader}
use kvsynk8s.Sync.Writer.{
  store_update, apply_update, fresh_copy, rewrite_current, recover_conflict, settle_invalid,
  classify_invalid, update_current, answer_update, update, recover_already_exists, answer_create,
  store_create, create, answer_get, write_target,
}

-- what each request adds to a measure
pub record CallsCost {W : Type 0} (size : W → ℕ) (c : Client W) (r : Reader W)
    (get fresh made put : ℕ) : Type 0 where
  pub gets : (namespace name : String) → Costs size get (c.get_secret namespace name)
  pub reads : (namespace name : String) → Costs size fresh (r.get_secret namespace name)
  pub creates : (s : Secret) → Costs size made (c.create_secret s)
  pub updates : (s : Secret) → Costs size put (c.update_secret s)

module _ {W : Type 0} {size : W → ℕ} (k : Kube) (c : Client W) (r : Reader W)
    {get fresh made put : ℕ} (costs : CallsCost size c r get fresh made put) (owner : SecretSync)
    (data_key value version : String) where
  store_update-Costs : (o : OwnerOutcome) (s : Secret) → Costs size put (store_update k c r o s)
  unfolding store_update
  store_update-Costs (owner_set refs) s = Costs-wrapped put _ (costs.updates _)
  store_update-Costs already_owned s = Costs-raise put _
  store_update-Costs owner_rejected s = Costs-raise put _

  apply_update-Costs :
      (s : Secret) → Costs size put (apply_update k c r owner s data_key value version)
  unfolding apply_update
  apply_update-Costs s = Costs-if put _ _ _ (Costs-raise put _) (store_update-Costs _ _)

  rewrite_current-Costs :
      (s : Secret) → Costs size put (rewrite_current k c r owner data_key value version s)
  unfolding rewrite_current
  rewrite_current-Costs s = Costs-if put _ _ _ (apply_update-Costs s) (Costs-raise put _)

  fresh_copy-Costs : (namespace name : String) → Costs size fresh (fresh_copy k c r namespace name)
  unfolding fresh_copy
  fresh_copy-Costs namespace name = costs.reads namespace name

  recover_conflict-Costs :
      (namespace name : String)
      → Costs size
          (fresh + put)
          (recover_conflict k c r owner namespace name data_key value version)
  unfolding recover_conflict
  recover_conflict-Costs namespace name =
      Costs-bind fresh put _ _ (Costs-wrapped fresh _ (fresh_copy-Costs namespace name))
        rewrite_current-Costs

  settle_invalid-Costs :
      (e : Err) (a : Result Secret) → Costs size put (settle_invalid k c r data_key value e a)
  unfolding settle_invalid
  settle_invalid-Costs e (ok s) = Costs-if put _ _ _ (Costs-raise put _) (Costs-raise put _)
  settle_invalid-Costs e (err _) = Costs-raise put _

  classify_invalid-Costs :
      (namespace name : String) (e : Err)
      → Costs size (fresh + put) (classify_invalid k c r namespace name data_key value e)
  unfolding classify_invalid
  classify_invalid-Costs namespace name e =
      Costs-attempt fresh put _ _ (fresh_copy-Costs namespace name) (settle_invalid-Costs e)

  answer_update-Costs :
      (s : Secret) (a : Result (Unit {0}))
      → Costs size (fresh + put) (answer_update k c r owner s data_key value version a)
  unfolding answer_update
  answer_update-Costs s (ok _) = Costs-pure (fresh + put) _
  answer_update-Costs s (err e) =
      Costs-if (fresh + put) _ _ _ (recover_conflict-Costs _ _)
        (Costs-if (fresh + put) _ _ _ (classify_invalid-Costs _ _ e) (Costs-raise (fresh + put) _))

  update-Costs :
      (s : Secret) → Costs size (put + (fresh + put)) (update k c r owner s data_key value version)
  unfolding update
  update-Costs s =
      Costs-attempt put (fresh + put) _ _ (apply_update-Costs s) (answer_update-Costs s)

  abbrev retry : ℕ
  retry = fresh + (put + (fresh + put))

  update_current-Costs :
      (s : Secret)
      → Costs size (put + (fresh + put)) (update_current k c r owner data_key value version s)
  unfolding update_current
  update_current-Costs s =
      Costs-if (put + (fresh + put)) _ _ _ (update-Costs s) (Costs-raise (put + (fresh + put)) _)

  recover_already_exists-Costs :
      (namespace name : String)
      → Costs size retry (recover_already_exists k c r owner namespace name data_key value version)
  unfolding recover_already_exists
  recover_already_exists-Costs namespace name =
      Costs-bind fresh (put + (fresh + put)) _ _
        (Costs-wrapped fresh _ (costs.reads namespace name)) update_current-Costs

  answer_create-Costs :
      (namespace name : String) (a : Result (Unit {0}))
      → Costs size retry (answer_create k c r owner namespace name data_key value version a)
  unfolding answer_create
  answer_create-Costs namespace name (ok _) = Costs-pure retry _
  answer_create-Costs namespace name (err e) =
      Costs-if retry _ _ _ (recover_already_exists-Costs namespace name) (Costs-raise retry _)

  store_create-Costs :
      (namespace name : String) (o : OwnerOutcome) (s : Secret)
      → Costs size
          (made + retry)
          (store_create k c r owner namespace name data_key value version o s)
  unfolding store_create
  store_create-Costs namespace name (owner_set refs) s =
      Costs-attempt made retry _ _ (costs.creates _) (answer_create-Costs namespace name)
  store_create-Costs namespace name already_owned s = Costs-raise (made + retry) _
  store_create-Costs namespace name owner_rejected s = Costs-raise (made + retry) _

  create-Costs :
      (namespace name : String)
      → Costs size (made + retry) (create k c r owner namespace name data_key value version)
  unfolding create
  create-Costs namespace name = store_create-Costs namespace name _ _

  answer_get-Costs :
      (namespace name : String) (a : Result Secret)
      → Costs size (made + retry) (answer_get k c r owner namespace name data_key value version a)
  unfolding answer_get
  answer_get-Costs namespace name (ok s) =
      Costs-if (made + retry) _ _ _
        (Costs-weaken (made + retry) (put + (fresh + put)) _ (update-Costs s) (omega arith))
        (Costs-raise (made + retry) _)
  answer_get-Costs namespace name (err e) =
      Costs-if (made + retry) _ _ _ (create-Costs namespace name) (Costs-raise (made + retry) _)

  pub write_target-Costs :
      (namespace name : String)
      → Costs size
          (get + (made + retry))
          (write_target k c r owner namespace name data_key value version)
  unfolding write_target
  write_target-Costs namespace name =
      Costs-attempt get (made + retry) _ _ (costs.gets namespace name)
        (answer_get-Costs namespace name)
