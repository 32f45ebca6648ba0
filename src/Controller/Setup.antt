-- ===== src/Controller/Setup.antt =====
-- How the controller is set up: `SetupWithManager` and `ManagedSecretCacheOptions` of
-- internal/controller/secretsync_controller.go and `registerSyncMetrics` of
-- internal/controller/metrics.go. The builder of controller-runtime gets a record of what it is
-- told; label selectors are a parameter.
use kvsynk8s.Base.{
  ℕ, String, ◌≡◌, refl, ◌∙◌, Bool, true, false, Option, none, some, List, [], ◌∷◌, Dict, lookup,
  get, get-put, get-lookup, str_eq, Option-cases, Bool-cases, ◌++◌, inl, inr, if◌then◌else◌,
}
use kvsynk8s.Api.{SecretSync, Secret}
use kvsynk8s.Kube.{Client, SyncClient, Reader}
use kvsynk8s.Sync.Writer.{
  label_managed_by, label_managed_by_value, labeled, populate_managed_secret,
}
use kvsynk8s.Controller.{Reconciler}

abbrev Labels : Type 0
Labels = List (String × String)

-- cache.Options, by the kind of the objects: the label selector of each kind that has one
pub record CacheOptions : Type 0 where
  pub by_object : Dict Labels

unfoldable pub managed_secret_cache_options : CacheOptions
managed_secret_cache_options = record {
  by_object = ("Secret", (label_managed_by, label_managed_by_value) ∷ []) ∷ [];
}

-- labels.SelectorFromSet and `Matches`
pub record Selectors : Type 0 where
  pub matches : Labels → Dict String → Bool

abbrev pub has_label : Option String → String → Bool
has_label none value = false
has_label (some got) value = str_eq got value

pub record SelectorLaws (s : Selectors) : Type 0 where
  -- a set of one label selects the objects that have it with that value
  pub one_label :
      (key value : String) (labels : Dict String)
      → s.matches ((key, value) ∷ []) labels ≡ has_label (lookup key labels) value

abbrev selected : Selectors → Option Labels → Dict String → Bool
selected s none labels = true
selected s (some wanted) labels = s.matches wanted labels

-- whether a cache with these options holds a Secret
abbrev pub shown : Selectors → CacheOptions → Secret → Bool
shown s options secret = selected s (lookup "Secret" options.by_object) secret.labels

-- `stateReader`, whether `registerSyncMetricsOnce` has run, and what `MustRegister` was given
pub record SyncMetrics (R : Type 0) : Type 0 where
  pub state_reader : Option R
  pub once : Bool
  pub registered : List String

abbrev register_collectors : {R : Type 0} → SyncMetrics R → SyncMetrics R
register_collectors m = record m {
  once = true;
  registered = "syncTotal" ∷ "stateCollector" ∷ m.registered;
}

unfoldable pub register_sync_metrics : {R : Type 0} → R → SyncMetrics R → SyncMetrics R
register_sync_metrics reader m =
    let published = record m { state_reader = some reader } in
    if m.once then published else register_collectors published

abbrev pub max_concurrent_reconciles : ℕ
max_concurrent_reconciles = 2

-- what the manager lends: GetClient, for Secrets and for SecretSyncs, and GetAPIReader
pub record Manager (W : Type 0) : Type 0 where
  pub client : Client W
  pub syncs : SyncClient W
  pub api_reader : Reader W

-- what the builder is told: For, Owns, WithOptions, Named, and whether there is a
-- WatchesRawSource on the channel of the listener
pub record Blueprint : Type 0 where
  pub watched : String
  pub owned : List String
  pub max_concurrent : ℕ
  pub name : String
  pub watches_events : Bool

abbrev or_managed : {A : Type 0} → Option A → A → Option A
or_managed none a = some a
or_managed (some b) a = some b

-- The reconciler and the builder that `Complete` is called on; `sync_events` says whether the
-- channel is not nil.
unfoldable pub setup_with_manager :
    {W : Type 0}
    → Manager W
    → Bool
    → Reconciler W
    → SyncMetrics (Client W)
    → Reconciler W × Blueprint × SyncMetrics (Client W)
unfolding register_sync_metrics
setup_with_manager mgr sync_events r metrics = (
  record r { recorder = true; api_reader = or_managed r.api_reader mgr.api_reader },
  record {
    watched = "SecretSync";
    owned = "Secret" ∷ [];
    max_concurrent = max_concurrent_reconciles;
    name = "secretsync";
    watches_events = sync_events;
  },
  register_sync_metrics mgr.client metrics,
)

-- a missing label reads as the empty text, which is not the value
read_back :
    (labels : Dict String)
    → has_label (lookup label_managed_by labels) label_managed_by_value
      ≡ str_eq (get label_managed_by labels) label_managed_by_value
read_back labels = elim (Option-cases (lookup label_managed_by labels)) [
  | inl e ↦ rw (get-lookup label_managed_by labels, e) refl
  | inr (v, e) ↦ rw (get-lookup label_managed_by labels, e) refl
]

secrets_only :
    (s : Selectors) (secret : Secret)
    → shown s managed_secret_cache_options secret
      ≡ s.matches ((label_managed_by, label_managed_by_value) ∷ []) secret.labels
unfolding managed_secret_cache_options lookup
secrets_only s secret = refl

populate-labeled :
    (secret : Secret) (owner : SecretSync) (data_key value version : String)
    → labeled (populate_managed_secret secret owner data_key value version) ≡ true
unfolding labeled populate_managed_secret
populate-labeled secret owner data_key value version =
    rw (get-put label_managed_by label_managed_by label_managed_by_value secret.labels) refl

label_test :
    (t : Secret) → has_label (lookup label_managed_by t.labels) label_managed_by_value ≡ labeled t
unfolding labeled
label_test t = read_back t.labels

-- The manager's cache holds exactly the Secrets that the writer takes for labeled, among them every
-- Secret that the writer has filled in.
pub managed_cache-labeled :
    (s : Selectors)
    → SelectorLaws s
    → (secret : Secret) (owner : SecretSync) (data_key value version : String)
    → (shown s managed_secret_cache_options secret ≡ labeled secret)
      × (shown s managed_secret_cache_options
            (populate_managed_secret secret owner data_key value version)
          ≡ true)
managed_cache-labeled s laws secret owner data_key value version = (
  cached secret,
  cached (populate_managed_secret secret owner data_key value version)
      ∙ populate-labeled secret owner data_key value version,
)
  where
    cached : (t : Secret) → shown s managed_secret_cache_options t ≡ labeled t
    cached t =
        secrets_only s t
        ∙ laws.one_label label_managed_by label_managed_by_value t.labels
        ∙ label_test t

-- however often the controller is set up, in the order given
pub setups :
    {W : Type 0} → List (Manager W) → Reconciler W → SyncMetrics (Client W) → SyncMetrics (Client W)
unfolding setup_with_manager
setups [] r m = m
setups (mgr ∷ mgrs) r m = let (_, _, n) = setup_with_manager mgr true r m in setups mgrs r n

abbrev both_collectors : List String
both_collectors = "syncTotal" ∷ "stateCollector" ∷ []

-- what was registered goes with whether it was
IsOnce : {R : Type 0} → SyncMetrics R → Type 0
IsOnce m = m.registered ≡ (if m.once then both_collectors else [])

register_sync_metrics-IsOnce :
    {R : Type 0} (reader : R) (m : SyncMetrics R)
    → IsOnce m
    → (IsOnce (register_sync_metrics reader m))
      × ((register_sync_metrics reader m).once ≡ true)
      × ((register_sync_metrics reader m).state_reader ≡ some reader)
unfolding IsOnce register_sync_metrics
register_sync_metrics-IsOnce reader m held = elim (Bool-cases m.once) [
  | inl y ↦ rw y ((rw y at held), refl, refl)
  | inr n ↦ rw n (rw (rw n at held) refl, refl, refl)
]

setups-last :
    {W : Type 0} (mgrs : List (Manager W)) (last : Manager W) (r : Reconciler W)
    (m : SyncMetrics (Client W))
    → IsOnce m
    → ((setups (mgrs ++ (last ∷ [])) r m).registered ≡ both_collectors)
      × ((setups (mgrs ++ (last ∷ [])) r m).state_reader ≡ some last.client)
unfolding setups setup_with_manager IsOnce
setups-last [] last r m held =
    let (h, y, latest) = register_sync_metrics-IsOnce last.client m held in (rw y at h, latest)
setups-last (mgr ∷ mgrs) last r m held =
    setups-last mgrs last r _ (register_sync_metrics-IsOnce mgr.client m held).0

-- However often the controller is set up in one process, the two collectors are registered once, and
-- a scrape lists through the client of the latest manager.
pub setups-once :
    {W : Type 0} (mgrs : List (Manager W)) (last : Manager W) (r : Reconciler W)
    → let m =
        setups
          (mgrs ++ (last ∷ []))
          r
          (record { state_reader = none; once = false; registered = [] }) in
      (m.registered ≡ "syncTotal" ∷ "stateCollector" ∷ []) × (m.state_reader ≡ some last.client)
unfolding IsOnce
setups-once mgrs last r = setups-last mgrs last r _ refl
