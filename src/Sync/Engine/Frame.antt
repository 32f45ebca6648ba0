-- ===== src/Sync/Engine/Frame.antt =====
-- What the results of `Sync` keep of its arguments, and what they hold of the secret value.
use kvsynk8s.Base.{String, ◌≡◌, refl, Bool-cases, Option-cases, inl, inr, Option, none, some, arith}
use kvsynk8s.Errors.{Result, ok, err}
use kvsynk8s.Message.{Message}
use kvsynk8s.Api.{SecretSync, SecretSyncStatus, Secret, failing}
use kvsynk8s.Kube.{Kube, Clock, SecretReader}
use kvsynk8s.Sync.Engine.{
  carried_status, ownership_conflict, up_to_date, settle, read_and_settle, sync,
}

module _ {W : Type 0} (k : Kube) (clock : Clock W) (owner : SecretSync)
    (existing : Option Secret) where
  -- The Secret comes back as it was, with the last good time and version.
  abbrev pub IsKept : SecretSyncStatus × Option Secret → Type 0
  IsKept p =
      (p.1 ≡ existing)
      × (p.0.last_sync_time ≡ owner.status.last_sync_time)
      × (p.0.synced_version ≡ owner.status.synced_version)
      × (p.0.observed_generation ≡ owner.generation)

  abbrev KeepsIfFailing : Result (SecretSyncStatus × Option Secret) → Type 0
  KeepsIfFailing (err e) = Unit
  KeepsIfFailing (ok p) = p.0.state ≡ failing → IsKept p

  settle-IsKept :
      (a : Result (String × String)) (w : W) → KeepsIfFailing (settle k clock owner existing a w).0
  unfolding settle carried_status
  settle-IsKept (err e) w = λ f. (refl, refl, refl, refl)
  settle-IsKept (ok (value, version)) w =
      elim (Bool-cases (up_to_date k owner existing value version)) [
        | inl y ↦ rw y (λ f. cc)
        | inr n ↦ rw n (λ f. cc)
      ]

  read_and_settle-IsKept :
      (reader : SecretReader W) (c : Option Message) (w : W)
      → KeepsIfFailing (read_and_settle k clock reader owner existing c w).0
  unfolding read_and_settle carried_status
  read_and_settle-IsKept reader (some m) w = λ f. (refl, refl, refl, refl)
  read_and_settle-IsKept reader none w =
      let (a, v) = reader.get_latest owner.spec.vault.name owner.spec.vault.secret w in
      settle-IsKept a v

  sync-KeepsIfFailing :
      (reader : Option (SecretReader W)) (w : W)
      → KeepsIfFailing (sync k clock reader owner existing w).0
  unfolding sync
  sync-KeepsIfFailing none w = tt
  sync-KeepsIfFailing (some reader) w =
      read_and_settle-IsKept reader (ownership_conflict k owner existing) w

  -- Whatever fails (a conflict over the target or the read of the vault), a `failing` result
  -- returns the Secret exactly as it was and keeps the last good time and version.
  pub sync_failing-IsKept :
      (reader : Option (SecretReader W)) (w : W) (p : SecretSyncStatus × Option Secret)
      → (sync k clock reader owner existing w).0 ≡ ok p
      → p.0.state ≡ failing
      → IsKept p
  sync_failing-IsKept reader w p e = rw e at (sync-KeepsIfFailing reader w)

  abbrev pub status_of : Result (SecretSyncStatus × Option Secret) → Option SecretSyncStatus
  status_of (err e) = none
  status_of (ok p) = some p.0

  settle-status :
      (u v version : String) (w : W)
      → status_of (settle k clock owner existing (ok (u, version)) w).0
        ≡ status_of (settle k clock owner existing (ok (v, version)) w).0
  unfolding settle
  settle-status u v version w = ground (
    arith,
    Bool-cases (up_to_date k owner existing u version),
    Bool-cases (up_to_date k owner existing v version),
  )

  -- The status does not depend on the secret value: two vaults that answer with the same version
  -- and leave the same world give the same status, whatever values they hold.
  pub sync-hides_value :
      (r s : SecretReader W) (u v version : String) (w w' : W)
      → r.get_latest owner.spec.vault.name owner.spec.vault.secret w ≡ (ok (u, version), w')
      → s.get_latest owner.spec.vault.name owner.spec.vault.secret w ≡ (ok (v, version), w')
      → status_of (sync k clock (some r) owner existing w).0
        ≡ status_of (sync k clock (some s) owner existing w).0
  unfolding sync read_and_settle
  sync-hides_value r s u v version w w' p q =
      elim (Option-cases (ownership_conflict k owner existing)) [
        | inl n ↦ rw (n, p, q) (settle-status u v version w')
        | inr (m, y) ↦ rw y
      ]
