-- ===== src/Main/Runs.antt =====
-- `main` (cmd/main.go) sends the requests of its configuration.
use kvsynk8s.Base.{
  String, ◌≡◌, refl, Bool, true, false, Bool-cases, inl, inr, not, Option, none, some, [], ◌∷◌,
  str_eq, ℤ, arith,
}
use kvsynk8s.Exec.{◌>>◌}
use kvsynk8s.Azure.Redact.{Url, UrlLib}
use kvsynk8s.Config.{effective_reconcile_interval, KeyValues, config_log_key_values}
use kvsynk8s.Main.{
  info, new_manager, default_credential, Certificate, Flags, Host, Process, manager_options,
}
use kvsynk8s.Main.Launch.{
  warn_parsed, warn_interval, check_queue_url, pass_client_id, report_certificate,
  new_secret_reader, new_queue_source, warn_query, start_listener, listen, reconciler,
  create_controller, run_manager, launch,
}
use kvsynk8s.Main.Plan.{
  run_plan, client_id_plan, listener_plan, controller_plan, plan, outcome, Follows, Follows-pure,
  Follows-write, Follows-seq, Follows-if, Follows-call, Follows-warn, Follows-wrapped, Follows-both,
  blueprint, wired,
}

module _ {W V : Type 0} (host : Host W V) where
  warn_interval-Follows : (i : ℤ) → Follows host (warn_interval host i) []
  unfolding warn_interval
  warn_interval-Follows i = Follows-warn host _ _

  pass_client_id-Follows :
      (id : String) → Follows host (pass_client_id host id) (client_id_plan host id)
  unfolding pass_client_id client_id_plan
  pass_client_id-Follows id = elim (Bool-cases (str_eq id "")) [
    | inl y ↦ rw y (Follows-pure host)
    | inr n ↦ rw n (Follows-call host _ _ _)
  ]

  report_certificate-Follows :
      (message server : String) (c : Certificate)
      → Follows host (report_certificate host message server c) []
  unfolding report_certificate
  report_certificate-Follows message server c = Follows-warn host _ _

  warn_query-Follows : (warning : KeyValues) → Follows host (warn_query host warning) []
  warn_query-Follows [] = Follows-pure host
  warn_query-Follows (v ∷ vs) = Follows-write host _

  module _ {H : Type 0} (urls : UrlLib H) where
    check_queue_url-Follows : (url : String) → Follows host (check_queue_url host urls url) []
    unfolding check_queue_url
    check_queue_url-Follows url =
        Follows-if host (not (str_eq url "")) (λ _. parsed (urls.parse url))
          (λ _. Follows-pure host)
      where
        parsed : (o : Option (Url H)) → Follows host (warn_parsed host urls o) []
        parsed none = Follows-write host _
        parsed (some u) = Follows-pure host

    start_listener-Follows :
        (url : String)
        → str_eq url "" ≡ false
        → Follows host (start_listener host urls url) (listener_plan host url)
    unfolding start_listener listener_plan new_queue_source
    start_listener-Follows url n = rw n (
        Follows-seq host (warn_query-Follows _) (
          Follows-seq host
            (Follows-both host _ _ _ (Follows-wrapped host _ _) (Follows-wrapped host _ _))
            (Follows-seq host (Follows-call host _ _ _) (Follows-write host _))))

    listener_plan-empty : (url : String) → str_eq url "" ≡ true → listener_plan host url ≡ []
    unfolding listener_plan
    listener_plan-empty url y = rw y refl

    listen-Follows : (url : String) → Follows host (listen host urls url) (listener_plan host url)
    unfolding listen
    listen-Follows url =
        Follows-if host (not (str_eq url "")) (λ y. start_listener-Follows url (ground arith))
          (λ n. rw (listener_plan-empty url (ground arith)) (Follows-write host _))

    create_controller-Follows :
        (i : ℤ) (watches : Bool)
        → Follows host
            (create_controller host i watches >> run_manager host)
            (controller_plan host i watches)
    unfolding create_controller run_manager controller_plan blueprint wired reconciler
    create_controller-Follows i watches =
        Follows-seq host
          (record { at = λ p. (Follows-call host _ _ _).at (record p { metrics = _ }) })
          (Follows-seq host (Follows-call host _ _ _) (
            Follows-seq host (Follows-call host _ _ _)
              (Follows-seq host (Follows-write host _) (Follows-call host _ _ _))))

    launch-steps :
        (f : Flags) (queue_url : String)
        → Follows host (launch host urls f queue_url) (plan host f queue_url)
    unfolding launch plan new_secret_reader
    launch-steps f queue_url = Follows-seq host (warn_interval-Follows f.reconcile_interval) (
        Follows-seq host (check_queue_url-Follows queue_url) (
          Follows-seq host (pass_client_id-Follows f.azure_client_id) (
            Follows-seq host
              (Follows-write host (
                info "Operator configuration" (
                  config_log_key_values urls queue_url
                    (effective_reconcile_interval f.reconcile_interval).0 f.azure_client_id)))
              (Follows-seq host
                (report_certificate-Follows
                  "Initializing webhook certificate watcher using provided certificates" "webhook"
                  f.webhook_cert)
                (Follows-seq host
                  (report_certificate-Follows
                    "Initializing metrics certificate watcher using provided certificates" "metrics"
                    f.metrics_cert)
                  (Follows-seq host
                    (Follows-call host (new_manager (manager_options f)) "Failed to start manager"
                      [])
                    (Follows-seq host
                      (Follows-wrapped host default_credential
                        "Failed to create key vault secret reader")
                      (Follows-seq host (listen-Follows queue_url) (
                        create_controller-Follows
                          (effective_reconcile_interval f.reconcile_interval).0
                          (not (str_eq queue_url "")))))))))))

    -- `main` sends the requests that its configuration asks for, in the order of the plan, up to the
    -- first that fails. It returns when none has failed, and otherwise exits with status 1 under
    -- that request's message. Neither a queue URL that cannot be parsed nor an interval that is not
    -- positive ends it.
    pub launch-Follows :
        (f : Flags) (queue_url : String) (p : Process W V)
        → outcome host (launch host urls f queue_url p)
          ≡ run_plan host (plan host f queue_url) p.world
    launch-Follows f queue_url p = (launch-steps f queue_url).at p
