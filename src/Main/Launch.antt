-- ===== src/Main/Launch.antt =====
-- The steps of `main` (cmd/main.go) after the flags are parsed, `NewSecretReader`
-- (internal/azure/keyvault.go) and `NewQueueSource` (internal/azure/queue.go). An error is an
-- os.Exit(1), and a return the end of `main`.
use Prim.Native.String.{◌++◌}
use kvsynk8s.Base.{String, Bool, false, not, Option, none, some, [], ◌∷◌, str_eq, ℤ, if◌then◌else◌}
use kvsynk8s.Errors.{Result, ok, err}
use kvsynk8s.Exec.{Exec, pure, raise, attempt, wrapped, ◌>>◌}
use kvsynk8s.Controller.{Reconciler}
use kvsynk8s.Controller.Setup.{setup_with_manager}
use kvsynk8s.Azure.Redact.{Url, UrlLib}
use kvsynk8s.Events.Registration.{new_listener}
use kvsynk8s.Config.{
  Environment, KeyValues, text, duration, effective_reconcile_interval, queue_url_from_env,
  config_log_key_values, queue_listener_log_key_values,
}
use kvsynk8s.Main.{
  Certificate, Flags, parse_flags, manager_options, Request, set_env, new_manager,
  default_credential, new_queue_client, add_runnable, complete, add_healthz_check, add_readyz_check,
  start_manager, Host, Line, info, failed, Process,
}

abbrev non_positive_reconcile_interval_message : String
non_positive_reconcile_interval_message =
    "Configured reconcile interval is not positive and is being ignored. The periodic reconcile cannot be turned off: it is the safety net for missed events, vault-side deletions and in-cluster drift. Set a positive duration, e.g. 4h."

abbrev unparseable_queue_url_message : String
unparseable_queue_url_message =
    "Configured queue URL cannot be parsed as a URL (the value is not shown: it may contain a SAS token). Fix --queue-url/QUEUE_URL. The operator keeps running: queue delivery will not work until this is fixed, but every SecretSync still converges through periodic reconciliation."

abbrev queue_sas_warning : String
queue_sas_warning =
    "Configured queue URL has a query string; it is redacted from logs. If it is a SAS token it is not used: this operator always authenticates with DefaultAzureCredential. Configure the queue URL without one."

module _ {W V : Type 0} (host : Host W V) where
  abbrev Setup : Type 0
  Setup = Exec (Process W V) (Unit {0})

  -- setupLog
  abbrev pub write : Line → Setup
  write line p = (ok tt, record p { log = line ∷ p.log })

  abbrev pub call : Request V → Setup
  call request p = let (r, w) = host.perform request p.world in (r, record p { world = w })

  -- `if err != nil { setupLog.Error(err, message); os.Exit(1) }`
  abbrev pub fail_with : String → KeyValues → Result (Unit {0}) → Setup
  fail_with message details (ok _) = pure tt
  fail_with message details (err e) = write (failed (some e) message details) >> raise e

  abbrev pub or_exit : Setup → String → KeyValues → Setup
  or_exit m message details = attempt m (fail_with message details)

  abbrev pub when : Bool → Setup → Setup
  when b m = if b then m else pure tt

  -- the warning about an interval that is replaced
  unfoldable pub warn_interval : ℤ → Setup
  unfolding effective_reconcile_interval
  warn_interval configured =
      let (effective, substituted) = effective_reconcile_interval configured in
      when substituted (
        write (
          failed none non_positive_reconcile_interval_message
            (("configured", duration configured) ∷ ("using", duration effective) ∷ [])))

  unfoldable pub pass_client_id : String → Setup
  pass_client_id client_id = when (not (str_eq client_id "")) (
      or_exit (call (set_env "AZURE_CLIENT_ID" client_id))
        "Failed to set AZURE_CLIENT_ID environment variable" [])

  unfoldable pub report_certificate : String → String → Certificate → Setup
  report_certificate message server c = when (not (str_eq c.path "")) (
      write (
        info message (
          (server ++ "-cert-path", text c.path)
          ∷ (server ++ "-cert-name", text c.name)
          ∷ (server ++ "-cert-key", text c.key)
          ∷ [])))

  unfoldable pub new_secret_reader : Setup
  new_secret_reader = wrapped (call default_credential)

  unfoldable pub new_queue_source : String → Setup
  new_queue_source queue_url =
      wrapped (call default_credential) >> wrapped (call (new_queue_client queue_url))

  -- the warning about a query in the URL
  abbrev pub warn_query : KeyValues → Setup
  warn_query [] = pure tt
  warn_query (v ∷ vs) = write (info queue_sas_warning (v ∷ vs))

  -- the reconciler as `main` writes it
  unfoldable pub reconciler : ℤ → Reconciler V
  reconciler interval = record {
    client = host.manager.client;
    syncs = host.manager.syncs;
    reader = some host.secret_reader;
    api_reader = none;
    clock = host.clock;
    interval = interval;
    recorder = false;
    observe = host.observe;
  }

  unfoldable pub create_controller : ℤ → Bool → Setup
  unfolding reconciler setup_with_manager
  create_controller interval sync_events p =
      let (r, blueprint, metrics) =
        setup_with_manager host.manager sync_events (reconciler interval) p.metrics in
      or_exit (call (complete blueprint r)) "Failed to create controller"
        (("controller", text "secretsync") ∷ []) (record p { metrics = metrics })

  unfoldable pub run_manager : Setup
  run_manager =
      or_exit (call (add_healthz_check "healthz")) "Failed to set up health check" []
      >> (or_exit (call (add_readyz_check "readyz")) "Failed to set up ready check" []
          >> (write (info "Starting manager" [])
              >> or_exit (call start_manager) "Failed to run manager" []))

  module _ {H : Type 0} (urls : UrlLib H) where
    abbrev pub warn_parsed : Option (Url H) → Setup
    warn_parsed none = write (failed none unparseable_queue_url_message [])
    warn_parsed (some u) = pure tt

    unfoldable pub check_queue_url : String → Setup
    check_queue_url queue_url =
        when (not (str_eq queue_url "")) (warn_parsed (urls.parse queue_url))

    -- the branch of `main` with a queue URL
    unfoldable pub start_listener : String → Setup
    unfolding queue_listener_log_key_values new_queue_source new_listener
    start_listener queue_url =
        let (warning, enabled) = queue_listener_log_key_values urls queue_url in
        warn_query warning
        >> (or_exit (new_queue_source queue_url) "Failed to create storage queue source" []
            >> (or_exit (call (add_runnable (new_listener host.calls)))
                  "Failed to register queue listener" []
                >> write (info "Queue listener enabled" enabled)))

    unfoldable pub listen : String → Setup
    unfolding start_listener
    listen queue_url =
        if not (str_eq queue_url "")
        then start_listener queue_url
        else write (info "No queue URL configured; relying on periodic reconciliation only" [])

    -- `main` once the flags are parsed and QUEUE_URL is applied
    unfoldable pub launch : Flags → String → Setup
    unfolding warn_interval check_queue_url pass_client_id report_certificate new_secret_reader
        listen create_controller run_manager effective_reconcile_interval config_log_key_values
    launch f queue_url =
        let interval = (effective_reconcile_interval f.reconcile_interval).0 in
        warn_interval f.reconcile_interval
        >> (check_queue_url queue_url
            >> (pass_client_id f.azure_client_id
                >> (write (
                      info "Operator configuration"
                        (config_log_key_values urls queue_url interval f.azure_client_id))
                    >> (report_certificate
                          "Initializing webhook certificate watcher using provided certificates"
                          "webhook" f.webhook_cert
                        >> (report_certificate
                              "Initializing metrics certificate watcher using provided certificates"
                              "metrics" f.metrics_cert
                            >> (or_exit (call (new_manager (manager_options f)))
                                  "Failed to start manager" []
                                >> (or_exit new_secret_reader
                                      "Failed to create key vault secret reader" []
                                    >> (listen queue_url
                                        >> (create_controller interval (not (str_eq queue_url ""))
                                            >> run_manager)))))))))

    unfoldable pub main : Environment → Setup
    unfolding launch
    main env = let f = parse_flags env in launch f (queue_url_from_env env f.queue_url)
