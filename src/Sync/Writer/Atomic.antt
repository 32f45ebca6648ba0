-- ===== src/Sync/Writer/Atomic.antt =====
-- `CreateOrUpdate` (internal/sync/writer.go) beside what it stands for: one decision on what the
-- cluster holds at the target, while no other writer comes between the calls.
use kvsynk8s.Base.{
  String, ◌≡◌, refl, true, false, Bool-cases, inl, inr, Option, none, some, Option-cases, List,
  if◌then◌else◌, ◌⊎◌,
}
use kvsynk8s.Errors.{
  Err, Result, ok, err, leaf, wrap, wrap_both, Leaf, target_conflict, target_immutable, plain,
  errors_is, is_conflict, is_invalid,
}
use kvsynk8s.Api.{SecretSync, Secret, OwnerReference}
use kvsynk8s.Kube.{Kube, OwnerOutcome, owner_set, already_owned, owner_rejected, Client, Reader}
use kvsynk8s.Sync.Writer.Quiet.{Request, creating, updating, QuietStore}
use kvsynk8s.Sync.Writer.{
  labeled, writable, immutable_blocks_write, populate_managed_secret, new_secret, store_update,
  apply_update, update, answer_update, update_current, recover_already_exists, answer_create,
  store_create, create, answer_get, write_target, classify_invalid, settle_invalid, fresh_copy,
}

-- what becomes of a write
pub data Verdict : Type 0 where
  stores : Secret → Verdict
  refuses : Leaf → Verdict

abbrev pub owned_verdict : OwnerOutcome → Secret → Verdict
owned_verdict (owner_set refs) s = stores (record s { owner_references = refs })
owned_verdict already_owned s = refuses target_conflict
owned_verdict owner_rejected s = refuses plain

-- what `errors.Is` finds first in an error
abbrev pub root : Err → Leaf
root (leaf l) = l
root (wrap e) = root e
root (wrap_both a b) = root a

module _ (k : Kube) (owner : SecretSync) (data_key value version : String) where
  abbrev pub filled : Secret → Secret
  filled s = populate_managed_secret s owner data_key value version

  -- over the Secret that is there
  unfoldable pub verdict_over : Secret → Verdict
  verdict_over s =
      if writable k s owner
      then (if immutable_blocks_write s data_key value
          then refuses target_immutable
          else owned_verdict (k.set_controller_reference owner (filled s)) (filled s))
      else refuses target_conflict

  -- the specification: one look, and one decision
  unfoldable pub verdict : String → String → Option Secret → Verdict
  unfolding verdict_over
  verdict namespace name none =
      owned_verdict (k.set_controller_reference owner (filled (new_secret namespace name)))
        (filled (new_secret namespace name))
  verdict namespace name (some s) = verdict_over s

module _ {W : Type 0} {c : Client W} {r : Reader W} {namespace name : String}
    (store : QuietStore c r namespace name) where
  -- a run from `w` does what the verdict says: it stores that Secret, or it refuses and nothing is
  -- changed
  abbrev pub AsDecided : W → Verdict → Result (Unit {0}) × W → Type 0
  AsDecided w (stores s) p =
      (given : String) × (p.0 ≡ ok tt)
      × (store.holds p.1 ≡ some (record s { resource_version = given }))
  AsDecided w (refuses l) p = (e : Err) × (p.0 ≡ err e) × (root e ≡ l) × (p.1 ≡ w)

  -- what is stored at the target has its name
  abbrev pub AtTarget : Option Secret → Type 0
  AtTarget none = Unit
  AtTarget (some s) = (s.namespace ≡ namespace) × (s.name ≡ name)

  -- a Create is of a Secret with the target's name, an Update of the one that the verdict stores
  abbrev Sent : Request → Verdict → Secret → Type 0
  Sent creating x s = AtTarget (some s)
  Sent updating x s = x ≡ stores s

  -- it returns the error with which the server turned down what was sent, a Secret of the managed
  -- type, and nothing is changed
  abbrev pub Refused : W → Verdict → Result (Unit {0}) × W → Type 0
  Refused w v p =
      (q : Request) × (x : Err) × (s : Secret) × (e : Err) × (p.0 ≡ err x)
      × (root x ≡ root e)
      × (store.refusal q w s ≡ some e)
      × Sent q v s
      × (s.kind ≡ "Opaque")
      × (p.1 ≡ w)

  abbrev pub Meets : W → Verdict → Result (Unit {0}) × W → Type 0
  Meets w x p = AsDecided w x p ⊎ Refused w x p

  module _ (k : Kube) (owner : SecretSync) (data_key value version : String) (w : W)
      (placed : AtTarget (store.holds w)) where
    -- what `update` returns for an Update that the server turned down
    turned_down :
        (s : Secret) (e : Err)
        → store.holds w ≡ some s
        → immutable_blocks_write s data_key value ≡ false
        → errors_is is_conflict e ≡ false
        → answer_update k c r owner s data_key value version (err (wrap e)) w ≡ (err (wrap e), w)
    unfolding answer_update classify_invalid settle_invalid fresh_copy errors_is
    turned_down s e held free other = elim (Bool-cases (errors_is is_invalid e)) [
      | inr n ↦ rw (other, n) refl
      | inl y ↦
          let (at_namespace, at_name) = rw held at placed in
          rw (other, y, at_namespace, at_name, store.reads w s held, free) refl
    ]

    stored-Meets :
        (s : Secret) (o : OwnerOutcome)
        → store.holds w ≡ some s
        → immutable_blocks_write s data_key value ≡ false
        → Meets w (owned_verdict o (filled k owner data_key value version s)) (
            answer_update k c r owner s data_key value version
              (store_update k c r o (filled k owner data_key value version s) w).0
              (store_update k c r o (filled k owner data_key value version s) w).1)
    unfolding store_update answer_update populate_managed_secret errors_is
    stored-Meets s (owner_set refs) held free =
        let new : Secret = record (populate_managed_secret s owner data_key value version) {
          owner_references = refs;
        } in
        elim (Option-cases (store.refusal updating w new)) [
          | inl accepted ↦
              let (v, given, e, h) = store.updates w new s accepted held refl refl refl in
              rw e (inl (given, refl, h))
          | inr (x, refused) ↦
              let (e, other) = store.update_refused w new s x held refl refused in
              rw (e, turned_down s x held free other)
                (inr (updating, wrap x, new, x, refl, refl, refused, refl, refl, refl))
        ]
    stored-Meets s already_owned held free = inl (wrap (leaf target_conflict), refl, refl, refl)
    stored-Meets s owner_rejected held free = inl (wrap (leaf plain), refl, refl, refl)

    update-Meets :
        (s : Secret)
        → store.holds w ≡ some s
        → writable k s owner ≡ true
        → Meets w
            (verdict_over k owner data_key value version s)
            (update k c r owner s data_key value version w)
    unfolding update apply_update verdict_over answer_update errors_is
    update-Meets s held may = elim (Bool-cases (immutable_blocks_write s data_key value)) [
      | inl y ↦ rw (may, y) (inl (wrap (leaf target_immutable), refl, refl, refl))
      | inr n ↦ rw (may, n) (stored-Meets s _ held n)
    ]

    update_current-Meets :
        (s : Secret)
        → store.holds w ≡ some s
        → Meets w
            (verdict_over k owner data_key value version s)
            (update_current k c r owner data_key value version s w)
    unfolding update_current verdict_over
    update_current-Meets s held = elim (Bool-cases (writable k s owner)) [
      | inl y ↦ rw y (rw (y, verdict_over) at (update-Meets s held y))
      | inr n ↦ rw n (inl (wrap (leaf target_conflict), refl, refl, refl))
    ]

    module _ (refs : List OwnerReference)
        (new_owned : k.set_controller_reference owner
            (filled k owner data_key value version (new_secret namespace name))
          ≡ owner_set refs) where
      abbrev fresh : Secret
      fresh = record (filled k owner data_key value version (new_secret namespace name)) {
        owner_references = refs;
      }

      -- a Create that the server turned down
      create-Refused :
          (x : Verdict) (e : Err)
          → store.refusal creating w fresh ≡ some e
          → Refused w x (create k c r owner namespace name data_key value version w)
      unfolding create store_create answer_create populate_managed_secret new_secret
      create-Refused x e refused =
          let (called, other) = store.create_refused w fresh e refused in
          rw (new_owned, called, other)
            (creating, wrap e, fresh, e, refl, refl, refused, (refl, refl), refl, refl)

      create_absent-Meets :
          store.holds w ≡ none
          → Meets w
              (verdict k owner data_key value version namespace name none)
              (create k c r owner namespace name data_key value version w)
      unfolding create store_create answer_create verdict populate_managed_secret new_secret
      create_absent-Meets held = elim (Option-cases (store.refusal creating w fresh)) [
        | inl accepted ↦
            let (v, given, e, h) = store.creates w fresh accepted held refl refl in
            rw (new_owned, e) (inl (given, refl, h))
        | inr (x, refused) ↦ inr (create-Refused _ x refused)
      ]

      create_present-Meets :
          (s : Secret)
          → store.holds w ≡ some s
          → Meets w
              (verdict_over k owner data_key value version s)
              (create k c r owner namespace name data_key value version w)
      unfolding create store_create answer_create recover_already_exists populate_managed_secret
          new_secret
      create_present-Meets s held = elim (Option-cases (store.refusal creating w fresh)) [
        | inl accepted ↦
            let (e, there, called) = store.exists w fresh s accepted held refl refl in
            rw (new_owned, called, there, store.reads w s held) (update_current-Meets s held)
        | inr (x, refused) ↦ inr (create-Refused _ x refused)
      ]

      -- While nobody else writes, with a cache that is up to date, `CreateOrUpdate` is one decision on
      -- what is stored at the target, whether the cache shows it or filters it out: an absent Secret
      -- is created; one that is not writable, is held by immutability, or has another controller is
      -- left as it is, with the error that says so; any other is replaced by its managed shape. Or the
      -- API server turns down, for a reason of its own, a Create under the target's name or the Update
      -- that was decided on, of a Secret of type Opaque: then an error with that cause is returned and
      -- nothing is changed. What is stored is taken to have the target's name, and a new Secret to
      -- accept the owner reference.
      pub write_target-Meets :
          Meets w
            (verdict k owner data_key value version namespace name (store.holds w))
            (write_target k c r owner namespace name data_key value version w)
      unfolding write_target answer_get verdict
      write_target-Meets = elim (Option-cases (store.holds w)) [
        | inl none_held ↦
            let (e, missing, called) = store.absent w none_held in
            rw (none_held, called, missing) (create_absent-Meets none_held)
        | inr (s, held) ↦ elim (Bool-cases (labeled s)) [
          | inl y ↦
              rw (held, store.cached w s held y, labeled-writable s y)
                (rw (labeled-writable s y, verdict_over) at
                  (update-Meets s held (labeled-writable s y)))
          | inr n ↦
              let (e, missing, called) = store.filtered w s held n in
              rw (held, called, missing) (create_present-Meets s held)
        ]
      ]
        where
          labeled-writable : (s : Secret) → labeled s ≡ true → writable k s owner ≡ true
          labeled-writable s y = unfold writable in (rw y refl)
