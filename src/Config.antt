-- ===== src/Config.antt =====
-- cmd/main.go: the values that the operator is started with, and what it logs of them. The
-- environment, package flag and `time.ParseDuration` are parameters. Durations are in nanoseconds.
use kvsynk8s.Base.{
  String, ◌≡◌, refl, Bool, true, false, Option, none, some, List, [], ◌∷◌, str_eq, ℤ, pos, negsuc,
  positive, if◌then◌else◌, arith,
}
use kvsynk8s.Controller.{reconcile_interval}
use kvsynk8s.Azure.Redact.{Url, UrlLib, has_query, redact_url, redact_url-hides}

-- os.Getenv, time.ParseDuration, and package flag after Parse: the names that flag.Visit goes
-- through, and the value of each flag, by its name and its default
pub record Environment : Type 0 where
  pub getenv : String → String
  pub parse_duration : String → Option ℤ
  pub visited : List String
  pub string_var : String → String → String
  pub bool_var : String → Bool → Bool
  pub duration_var : String → ℤ → ℤ

visit_for : String → Bool → List String → Bool
visit_for name supplied [] = supplied
visit_for name supplied (f ∷ fs) = visit_for name (if str_eq f name then true else supplied) fs

unfoldable pub flag_was_supplied : Environment → String → Bool
unfolding visit_for
flag_was_supplied env name = visit_for name false env.visited

-- the flag has no default
unfoldable pub register_queue_url_flag : Environment → String
register_queue_url_flag env = env.string_var "queue-url" ""

abbrev pub default_reconcile_interval : ℤ
default_reconcile_interval = pos 14400000000000

abbrev or_fallback : ℤ → Option ℤ → ℤ
or_fallback fallback none = fallback
or_fallback fallback (some d) = d

unfoldable pub duration_from_env : Environment → String → ℤ → ℤ
duration_from_env env key fallback =
    if str_eq (env.getenv key) ""
    then fallback
    else or_fallback fallback (env.parse_duration (env.getenv key))

unfoldable pub effective_reconcile_interval : ℤ → ℤ × Bool
effective_reconcile_interval configured =
    if positive configured then (configured, false) else (default_reconcile_interval, true)

unfoldable pub queue_url_from_env : Environment → String → String
unfolding flag_was_supplied
queue_url_from_env env supplied =
    if flag_was_supplied env "queue-url" then supplied else env.getenv "QUEUE_URL"

-- a value of a log line
pub data Logged : Type 0 where
  text : String → Logged
  duration : ℤ → Logged

abbrev pub KeyValues : Type 0
KeyValues = List (String × Logged)

module _ {H : Type 0} (urls : UrlLib H) where
  unfoldable pub config_log_key_values : String → ℤ → String → KeyValues
  unfolding redact_url
  config_log_key_values queue_url interval client_id =
      ("queueURL", text (redact_url urls queue_url).0)
      ∷ ("reconcileInterval", duration interval)
      ∷ ("azureClientID", text client_id)
      ∷ []

  -- the warning, `[]` when there is none, and the line that the listener is enabled
  unfoldable pub queue_listener_log_key_values : String → KeyValues × KeyValues
  unfolding redact_url
  queue_listener_log_key_values queue_url =
      let (safe, had_query) = redact_url urls queue_url in
      (if had_query then ("queueURL", text safe) ∷ [] else [], ("queueURL", text safe) ∷ [])

  -- No startup line shows a token of the queue's URL: for two URLs that differ only in user
  -- information, query or fragment, all the lines are the same.
  pub startup_log-hides :
      (raw secret client_id : String) (interval : ℤ) (u v : Url H)
      → str_eq raw "" ≡ false
      → str_eq secret "" ≡ false
      → urls.parse raw ≡ some u
      → urls.parse secret ≡ some v
      → u.place ≡ v.place
      → has_query urls u ≡ has_query urls v
      → (config_log_key_values raw interval client_id
          ≡ config_log_key_values secret interval client_id)
        × (queue_listener_log_key_values raw ≡ queue_listener_log_key_values secret)
  unfolding config_log_key_values queue_listener_log_key_values
  startup_log-hides raw secret client_id interval u v m n p q same both =
      let alike = redact_url-hides urls raw secret u v m n p q same both in rw alike (refl, refl)

-- The interval that the startup line reports is the one at which the controller runs, both for the
-- configured value and for the one that replaces it.
pub effective-runs :
    (configured : ℤ)
    → (reconcile_interval (effective_reconcile_interval configured).0
        ≡ (effective_reconcile_interval configured).0)
      × (reconcile_interval configured ≡ (effective_reconcile_interval configured).0)
unfolding effective_reconcile_interval reconcile_interval
effective-runs (pos n) = (ground arith, ground arith)
effective-runs (negsuc n) = (refl, refl)
