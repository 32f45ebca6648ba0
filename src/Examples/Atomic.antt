-- ===== src/Examples/Atomic.antt =====
-- The writer's specification on a store that is one Secret or none.
use kvsynk8s.Base.{
  Bool-cases, inl, inr, true, false, ◌≤◌, ◌≡◌, refl, Option, none, some, [], ◌∷◌, str_eq, eq_refl,
  if◌then◌else◌,
}
use kvsynk8s.Errors.{
  Err, invalid, is_conflict, Result, ok, err, leaf, api, not_found, already_exists, conflict,
  errors_is,
}
use kvsynk8s.Api.{Secret}
use kvsynk8s.Kube.{Client, Reader, owner_set}
use kvsynk8s.Sync.Writer.Tally.{tallied_client, tallied_reader, none_sent, create_or_update-stops}
use kvsynk8s.Sync.Writer.{
  create_or_update, labeled, write_target, populate_managed_secret, new_secret,
}
use kvsynk8s.Sync.Writer.Quiet.{Request, creating, updating, QuietStore}
use kvsynk8s.Sync.Writer.Atomic.{Meets, verdict, write_target-Meets}
use kvsynk8s.Sync.Engine.{controller_owner_reference}
use kvsynk8s.Examples.{foreign, owner, kube}

abbrev get_from : Option Secret → Result Secret
get_from none = err (leaf (api not_found))
get_from (some s) = ok s

abbrev get_cached : Option Secret → Result Secret
get_cached none = err (leaf (api not_found))
get_cached (some s) = if labeled s then ok s else err (leaf (api not_found))

abbrev insert : Secret → Option Secret → Result (Unit {0}) × Option Secret
insert s none = (ok tt, some (record s { resource_version = "1" }))
insert s (some t) = (err (leaf (api already_exists)), some t)

abbrev pub changed_type : Request → Option Secret → Secret → Option Err
changed_type creating held s = none
changed_type updating none s = none
changed_type updating (some t) s = if str_eq s.kind t.kind then none else some (leaf (api invalid))

abbrev replace : Secret → Option Secret → Result (Unit {0}) × Option Secret
replace s none = (err (leaf (api not_found)), none)
replace s (some t) =
    if str_eq s.resource_version t.resource_version
    then (if str_eq s.kind t.kind
        then (ok tt, some (record s { resource_version = "2" }))
        else (err (leaf (api invalid)), some t))
    else (err (leaf (api conflict)), some t)

abbrev pub one : Client (Option Secret)
one = record {
  get_secret = λ ns name w. (get_cached w, w);
  create_secret = insert;
  update_secret = replace;
  delete_secret = λ s w. if str_eq s.name "db" then (ok tt, none) else (ok tt, w);
  list_secrets = λ ns key value w. (ok [], w);
}

abbrev pub one_reader : Reader (Option Secret)
one_reader = record { get_secret = λ ns name w. (get_from w, w) }

one_new-owned :
    kube.set_controller_reference owner
      (populate_managed_secret (new_secret "apps" "db") owner "db-password" "s3cret" "v1")
    ≡ owner_set (controller_owner_reference owner ∷ [])
unfolding populate_managed_secret new_secret
one_new-owned = refl

pub same_type :
    (s t : Secret) → changed_type updating (some t) s ≡ none → str_eq s.kind t.kind ≡ true
same_type s t e = elim (Bool-cases (str_eq s.kind t.kind)) [
  | inl y ↦ y
  | inr n ↦ let refused : some (leaf (api invalid)) ≡ none = rw n at e in cc refused
]

pub one_update_refused :
    (w : Option Secret) (s t : Secret) (e : Err)
    → w ≡ some t
    → s.resource_version ≡ t.resource_version
    → changed_type updating w s ≡ some e
    → (replace s w ≡ (err e, w)) × (errors_is is_conflict e ≡ false)
unfolding errors_is
one_update_refused w s t e held same refused = elim (Bool-cases (str_eq s.kind t.kind)) [
  | inl y ↦ let none_refused : none ≡ some e = rw (held, y) at refused in cc none_refused
  | inr n ↦
      let invalid_one : some (leaf (api invalid)) ≡ some e = rw (held, n) at refused in
      let error : leaf (api invalid) ≡ e = cc invalid_one in
      rw (held, same, eq_refl t.resource_version, n, ← error) (refl, refl)
]

unfoldable pub one_store : QuietStore one one_reader "apps" "db"
unfolding errors_is
one_store = record {
  holds = λ w. w;
  refusal = changed_type;
  cached = λ w s held y. rw (held, y) refl;
  filtered = λ w s held n. (leaf (api not_found), refl, (rw (held, n) refl));
  absent = λ w held. (leaf (api not_found), refl, (rw held refl));
  reads = λ w s held. rw held refl;
  create_refused = λ w s e never. cc;
  update_refused = one_update_refused;
  creates =
      λ w s _ held _ _. (some (record s { resource_version = "1" }), "1", (rw held refl), refl);
  exists = λ w s t _ held _ _. (leaf (api already_exists), refl, (rw held refl));
  updates = λ w s t accepted held _ _ e. (
    some (record s { resource_version = "2" }),
    "2",
    (rw (held, e, eq_refl t.resource_version, same_type s t (rw held at accepted)) refl),
    refl,
  );
}

-- the label was taken away, so the cache does not show it, but it is still controlled by `owner`
abbrev unlabeled : Secret
unlabeled = record foreign { owner_references = controller_owner_reference owner ∷ [] }

write_target-Meets_example :
    Meets one_store
      (some unlabeled)
      (verdict kube owner "db-password" "s3cret" "v1" "apps" "db" (some unlabeled))
      (write_target kube one one_reader owner "apps" "db" "db-password" "s3cret" "v1"
        (some unlabeled))
unfolding one_store
write_target-Meets_example =
    write_target-Meets one_store kube owner "db-password" "s3cret" "v1" (some unlabeled)
      (refl, refl) (controller_owner_reference owner ∷ []) one_new-owned

create_or_update-stops_example :
    let done =
      (create_or_update kube
        (record { client = some (tallied_client one); reader = some (tallied_reader one_reader) })
        owner
        "apps"
        "db"
        "db-password"
        "s3cret"
        "v1"
        (none_sent (some unlabeled))).1 in
    (done.gets ≤ 1) × (done.creates ≤ 1) × (done.reads ≤ 2) × (done.updates ≤ 2)
create_or_update-stops_example =
    create_or_update-stops kube one one_reader owner "apps" "db" "db-password" "s3cret" "v1"
      (some unlabeled)
