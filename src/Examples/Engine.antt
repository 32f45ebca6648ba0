-- ===== src/Examples/Engine.antt =====
-- The engine's theorems on the example cluster.
use kvsynk8s.Base.{◌≡◌, refl, some, none, [], Option, get, lookup}
use kvsynk8s.Sync.Writer.{labeled}
use kvsynk8s.Errors.{ok, err}
use kvsynk8s.Api.{SecretSyncStatus, Secret}
use kvsynk8s.Sync.Engine.{ownership_conflict, sync, carried_status}
use kvsynk8s.Sync.Engine.Frame.{IsKept, status_of, sync_failing-IsKept, sync-hides_value}
use kvsynk8s.Examples.{owner, foreign, kube, clock, vault}

-- the result of a sync into a Secret that is not managed
abbrev refused : SecretSyncStatus × Option Secret
refused = elim (sync kube clock (some (vault "s3cret")) owner (some foreign) []).0 [
  | ok p ↦ p
  | err e ↦ (carried_status owner, none)
]

sync_failing-IsKept_example : IsKept kube clock owner (some foreign) refused
unfolding sync ownership_conflict labeled get lookup
sync_failing-IsKept_example =
    sync_failing-IsKept kube clock owner (some foreign) (some (vault "s3cret")) [] refused refl refl

sync-hides_value_example :
    status_of kube clock owner none (sync kube clock (some (vault "old")) owner none []).0
    ≡ status_of kube clock owner none (sync kube clock (some (vault "new")) owner none []).0
sync-hides_value_example =
    sync-hides_value kube clock owner none (vault "old") (vault "new") "old" "new" "v1" [] [] refl
      refl
