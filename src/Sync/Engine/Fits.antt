-- ===== src/Sync/Engine/Fits.antt =====
-- Which statuses fit the object that they are for, and that those of `Sync` do.
use kvsynk8s.Base.{ℕ, String, ◌≡◌, ◌≢◌, refl, Bool, Bool-cases, inl, inr, Option, none, some, arith}
use kvsynk8s.Errors.{Err, Result, ok, err}
use kvsynk8s.Message.{Message}
use kvsynk8s.Api.{
  SecretSync, SecretSyncStatus, SecretSyncState, unset, pending, in_sync, failing, no_reason,
  Secret,
}
use kvsynk8s.Kube.{Kube, SecretReader, Clock}
use kvsynk8s.Sync.Engine.{
  classify_reader_error, carried_status, managed_by, settle, read_and_settle, sync, up_to_date,
  ownership_conflict,
}

-- `a` has the generation and the last good time and version of `base`.
pub record Carries (base a : SecretSync) : Type 0 where
  pub generation : a.generation ≡ base.generation
  pub last_sync_time : a.status.last_sync_time ≡ base.status.last_sync_time
  pub synced_version : a.status.synced_version ≡ base.status.synced_version

-- What the fields of a status for `base` say together, for each state. The state is never empty.
-- `InSync` has a time and no reason; `Failing` has a reason, and the last good time and version;
-- both observe the generation.
abbrev pub FitsAt : SecretSync → SecretSyncState → SecretSyncStatus → Type 0
FitsAt base unset s = ⊥
FitsAt base pending s =
    (s.last_sync_time ≡ base.status.last_sync_time)
    × (s.synced_version ≡ base.status.synced_version)
FitsAt base in_sync s =
    (s.reason ≡ no_reason)
    × (s.observed_generation ≡ base.generation)
    × ((t : ℕ) × (s.last_sync_time ≡ some t))
FitsAt base failing s =
    (s.reason ≢ no_reason)
    × (s.observed_generation ≡ base.generation)
    × (s.last_sync_time ≡ base.status.last_sync_time)
    × (s.synced_version ≡ base.status.synced_version)

-- an error is never put down to nothing
classify-ne :
    (e : Err) (owner : SecretSync) (managed : Bool)
    → (classify_reader_error e owner managed).0 ≢ no_reason
unfolding classify_reader_error
classify-ne e owner managed h = ground arith

module _ {W : Type 0} (k : Kube) (clock : Clock W) (base owner : SecretSync)
    (c : Carries base owner) (existing : Option Secret) where
  abbrev pub FitsIfOk : Result (SecretSyncStatus × Option Secret) → Type 0
  FitsIfOk (err e) = Unit
  FitsIfOk (ok p) = FitsAt base p.0.state p.0

  settle-Fits :
      (a : Result (String × String)) (w : W) → FitsIfOk (settle k clock owner existing a w).0
  unfolding settle carried_status
  settle-Fits (err e) w = (
    classify-ne e owner (managed_by k owner existing),
    c.generation,
    c.last_sync_time,
    c.synced_version,
  )
  settle-Fits (ok (value, version)) w =
      elim (Bool-cases (up_to_date k owner existing value version)) [
        | inl y ↦ rw y (refl, c.generation, ((clock.now w).0, refl))
        | inr n ↦ rw n (refl, c.generation, ((clock.now w).0, refl))
      ]

  read_and_settle-Fits :
      (reader : SecretReader W) (conflict : Option Message) (w : W)
      → FitsIfOk (read_and_settle k clock reader owner existing conflict w).0
  unfolding read_and_settle carried_status
  read_and_settle-Fits reader (some m) w =
      (λ e. cc, c.generation, c.last_sync_time, c.synced_version)
  read_and_settle-Fits reader none w =
      let (a, v) = reader.get_latest owner.spec.vault.name owner.spec.vault.secret w in
      settle-Fits a v

  pub sync-Fits :
      (reader : Option (SecretReader W)) (w : W) → FitsIfOk (sync k clock reader owner existing w).0
  unfolding sync
  sync-Fits none w = tt
  sync-Fits (some reader) w = read_and_settle-Fits reader (ownership_conflict k owner existing) w
