-- ===== src/Main.antt =====
-- `main` of cmd/main.go: from the flags to the start of the manager. What it calls of libraries is
-- one parameter, which answers each request; the manager and the listener's calls are values that
-- the libraries give; `GetConfigOrDie`, which ends the process by itself, is not modelled. Logging is
-- kept as a list of lines, the latest first.
pub mod Launch
pub mod Plan
pub mod Runs
pub mod Secrecy
use kvsynk8s.Base.{
  String, Bool, true, false, not, ◌||◌, Option, none, some, List, [], ◌∷◌, str_eq, ℤ, if◌then◌else◌,
}
use kvsynk8s.Errors.{Err, Result, ok, err}
use kvsynk8s.Exec.{Exec, pure, raise, attempt, wrapped, ◌>>◌}
use kvsynk8s.Kube.{Client, SecretReader, Clock}
use kvsynk8s.Controller.{Observation, Reconciler}
use kvsynk8s.Controller.Setup.{
  CacheOptions, managed_secret_cache_options, SyncMetrics, Manager, Blueprint, setup_with_manager,
}
use kvsynk8s.Azure.Redact.{UrlLib}
use kvsynk8s.Events.Listener.{Listener}
use kvsynk8s.Events.Registration.{new_listener}
use kvsynk8s.Config.{
  Environment, KeyValues, text, duration, default_reconcile_interval, duration_from_env,
  effective_reconcile_interval, register_queue_url_flag, queue_url_from_env, config_log_key_values,
  queue_listener_log_key_values,
}

-- the directory, certificate name and key name of a server
pub record Certificate : Type 0 where
  pub path : String
  pub name : String
  pub key : String

pub record Flags : Type 0 where
  pub metrics_addr : String
  pub probe_addr : String
  pub enable_leader_election : Bool
  pub queue_url : String
  pub reconcile_interval : ℤ
  pub azure_client_id : String
  pub secure_metrics : Bool
  pub webhook_cert : Certificate
  pub metrics_cert : Certificate
  pub enable_http2 : Bool

unfoldable pub parse_flags : Environment → Flags
unfolding register_queue_url_flag duration_from_env
parse_flags env = record {
  metrics_addr = env.string_var "metrics-bind-address" "0";
  probe_addr = env.string_var "health-probe-bind-address" ":8081";
  enable_leader_election = env.bool_var "leader-elect" false;
  queue_url = register_queue_url_flag env;
  reconcile_interval =
      env.duration_var "reconcile-interval"
        (duration_from_env env "RECONCILE_INTERVAL" default_reconcile_interval);
  azure_client_id = env.string_var "azure-client-id" (env.getenv "AZURE_CLIENT_ID");
  secure_metrics = env.bool_var "metrics-secure" true;
  webhook_cert = record {
    path = env.string_var "webhook-cert-path" "";
    name = env.string_var "webhook-cert-name" "tls.crt";
    key = env.string_var "webhook-cert-key" "tls.key";
  };
  metrics_cert = record {
    path = env.string_var "metrics-cert-path" "";
    name = env.string_var "metrics-cert-name" "tls.crt";
    key = env.string_var "metrics-cert-key" "tls.key";
  };
  enable_http2 = env.bool_var "enable-http2" false;
}

-- what a function on `tls.Config` makes of its `NextProtos`; the line that it logs is left out
abbrev TlsOption : Type 0
TlsOption = List String → List String

abbrev disable_http2 : TlsOption
disable_http2 protos = "http/1.1" ∷ []

unfoldable pub tls_opts : Flags → List TlsOption
tls_opts f = if not f.enable_http2 then disable_http2 ∷ [] else []

-- webhook.Options; "" and a `none` are what an option is when it is not set
pub record WebhookOptions : Type 0 where
  pub tls : List TlsOption
  pub cert : Option Certificate

pub record MetricsOptions : Type 0 where
  pub bind_address : String
  pub secure_serving : Bool
  pub tls : List TlsOption
  -- whether the FilterProvider asks for authentication and authorization
  pub authenticated : Bool
  pub cert : Option Certificate

pub record ManagerOptions : Type 0 where
  pub metrics : MetricsOptions
  pub webhook : WebhookOptions
  pub health_probe_bind_address : String
  pub cache : CacheOptions
  pub leader_election : Bool
  pub leader_election_id : String

abbrev provided : Certificate → Option Certificate
provided c = if str_eq c.path "" then none else some c

unfoldable pub webhook_server_options : Flags → WebhookOptions
unfolding tls_opts
webhook_server_options f = record { tls = tls_opts f; cert = provided f.webhook_cert }

unfoldable pub metrics_server_options : Flags → MetricsOptions
unfolding tls_opts
metrics_server_options f = record {
  bind_address = f.metrics_addr;
  secure_serving = f.secure_metrics;
  tls = tls_opts f;
  authenticated = f.secure_metrics;
  cert = provided f.metrics_cert;
}

-- `--leader-elect` is accepted and not used
unfoldable pub manager_options : Flags → ManagerOptions
unfolding webhook_server_options metrics_server_options managed_secret_cache_options
manager_options f = record {
  metrics = metrics_server_options f;
  webhook = webhook_server_options f;
  health_probe_bind_address = f.probe_addr;
  cache = managed_secret_cache_options;
  leader_election = false;
  leader_election_id = "cd7454d8.io";
}

-- What `main` asks of libraries; `V` is the world of the reconciler and of the listener.
pub data Request (V : Type 0) : Type 0 where
  set_env : String → String → Request V
  new_manager : ManagerOptions → Request V
  -- azidentity.NewDefaultAzureCredential
  default_credential : Request V
  -- azqueue.NewQueueClient
  new_queue_client : String → Request V
  -- mgr.Add
  add_runnable : Listener V → Request V
  -- the builder's Complete
  complete : Blueprint → Reconciler V → Request V
  add_healthz_check add_readyz_check : String → Request V
  start_manager : Request V

pub record Host (W V : Type 0) : Type 0 where
  pub perform : Request V → Exec W (Unit {0})
  pub manager : Manager V
  -- the reader over the credential, and the clock and observer of the reconciler
  pub secret_reader : SecretReader V
  pub clock : Clock V
  pub observe : Observation → V → V
  -- the calls of the listener
  pub calls : Listener V

pub data Line : Type 0 where
  info : String → KeyValues → Line
  failed : Option Err → String → KeyValues → Line

pub record Process (W V : Type 0) : Type 0 where
  pub world : W
  pub log : List Line
  pub metrics : SyncMetrics (Client V)
