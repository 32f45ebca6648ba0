-- ===== src/Sync/Writer/Quiet.antt =====
-- The store of one Secret that nobody else writes, for `CreateOrUpdate` (internal/sync/writer.go). Its
-- cache holds only Secrets with the managed-by label, as `ManagedSecretCacheOptions`
-- (internal/controller/secretsync_controller.go) asks.
use kvsynk8s.Base.{String, ◌≡◌, true, false, Option, none, some}
use kvsynk8s.Errors.{Err, ok, err, errors_is, is_not_found, is_already_exists, is_conflict}
use kvsynk8s.Api.{Secret}
use kvsynk8s.Kube.{Client, Reader}
use kvsynk8s.Sync.Writer.{labeled}

-- how a Secret is sent
pub data Request : Type 0 where
  creating updating : Request

-- The documented behaviour of the API server and of the manager's cache at one target, while nobody
-- else writes. `holds w` is the Secret that is stored there; `refusal q w s` is the error with which
-- the server turns down such a request to store `s` for a reason of its own: validation, which a
-- changed type fails, admission, or a quota. It is neither of the two errors that say that another
-- object is in the way.
pub record QuietStore {W : Type 0} (c : Client W) (r : Reader W) (namespace name : String)
    : Type 0 where
  pub holds : W → Option Secret
  pub refusal : Request → W → Secret → Option Err
  pub cached :
      (w : W) (s : Secret)
      → holds w ≡ some s
      → labeled s ≡ true
      → c.get_secret namespace name w ≡ (ok s, w)
  pub filtered :
      (w : W) (s : Secret)
      → holds w ≡ some s
      → labeled s ≡ false
      → (e : Err) × (errors_is is_not_found e ≡ true) × (c.get_secret namespace name w ≡ (err e, w))
  pub absent :
      (w : W)
      → holds w ≡ none
      → (e : Err) × (errors_is is_not_found e ≡ true) × (c.get_secret namespace name w ≡ (err e, w))
  pub reads : (w : W) (s : Secret) → holds w ≡ some s → r.get_secret namespace name w ≡ (ok s, w)
  pub create_refused :
      (w : W) (s : Secret) (e : Err)
      → refusal creating w s ≡ some e
      → (c.create_secret s w ≡ (err e, w)) × (errors_is is_already_exists e ≡ false)
  pub update_refused :
      (w : W) (s t : Secret) (e : Err)
      → holds w ≡ some t
      → s.resource_version ≡ t.resource_version
      → refusal updating w s ≡ some e
      → (c.update_secret s w ≡ (err e, w)) × (errors_is is_conflict e ≡ false)
  -- what is stored gets a version from the server
  pub creates :
      (w : W) (s : Secret)
      → refusal creating w s ≡ none
      → holds w ≡ none
      → s.namespace ≡ namespace
      → s.name ≡ name
      → (v : W) × (given : String) × (c.create_secret s w ≡ (ok tt, v))
        × (holds v ≡ some (record s { resource_version = given }))
  pub exists :
      (w : W) (s t : Secret)
      → refusal creating w s ≡ none
      → holds w ≡ some t
      → s.namespace ≡ namespace
      → s.name ≡ name
      → (e : Err) × (errors_is is_already_exists e ≡ true) × (c.create_secret s w ≡ (err e, w))
  pub updates :
      (w : W) (s t : Secret)
      → refusal updating w s ≡ none
      → holds w ≡ some t
      → s.namespace ≡ t.namespace
      → s.name ≡ t.name
      → s.resource_version ≡ t.resource_version
      → (v : W) × (given : String) × (c.update_secret s w ≡ (ok tt, v))
        × (holds v ≡ some (record s { resource_version = given }))
