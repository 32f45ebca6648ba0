-- ===== src/Main/Secrecy.antt =====
-- What `main` (cmd/main.go) shows of the queue's URL, which may carry a SAS token.
use kvsynk8s.Base.{String, ◌≡◌, refl, sym, ◌∙◌, ap, false, some, str_eq}
use kvsynk8s.Exec.{Exec, wrapped, ◌>>◌}
use kvsynk8s.Azure.Redact.{Url, UrlLib, has_query, redact_url-hides}
use kvsynk8s.Config.{queue_listener_log_key_values, startup_log-hides, effective_reconcile_interval}
use kvsynk8s.Main.{Flags, Host, Process, new_queue_client, default_credential}
use kvsynk8s.Main.Launch.{call, check_queue_url, new_queue_source, start_listener, listen, launch}

module _ {W V H : Type 0} (host : Host W V) (urls : UrlLib H) (raw secret : String) (u v : Url H)
    (raw_given : str_eq raw "" ≡ false) (secret_given : str_eq secret "" ≡ false)
    (raw_parses : urls.parse raw ≡ some u) (secret_parses : urls.parse secret ≡ some v)
    (same_place : u.place ≡ v.place) (same_query : has_query urls u ≡ has_query urls v)
    (same_client : host.perform (new_queue_client raw)
      ≡ host.perform (new_queue_client secret)) where
  checked_alike : check_queue_url host urls raw ≡ check_queue_url host urls secret
  unfolding check_queue_url
  checked_alike = rw (raw_given, secret_given, raw_parses, secret_parses) refl

  abbrev on_process : Exec W (Unit {0}) → Exec (Process W V) (Unit {0})
  on_process m p = let (r, w) = m p.world in (r, record p { world = w })

  call_alike : call host (new_queue_client raw) ≡ call host (new_queue_client secret)
  call_alike = ap on_process same_client

  source_alike : new_queue_source host raw ≡ new_queue_source host secret
  unfolding new_queue_source
  source_alike = ap (λ m. wrapped (call host default_credential) >> wrapped m) call_alike

  listener_alike : start_listener host urls raw ≡ start_listener host urls secret
  unfolding start_listener queue_listener_log_key_values
  listener_alike =
      let redacted =
        redact_url-hides urls raw secret u v raw_given secret_given raw_parses secret_parses
          same_place same_query in
      rw (source_alike, redacted) refl

  listened_alike : listen host urls raw ≡ listen host urls secret
  unfolding listen
  listened_alike = let given = raw_given ∙ sym secret_given in let started = listener_alike in cc

  -- No line of `main` shows a token in the queue's URL, and nothing else that it does depends on
  -- it: for two URLs that differ only in user information, query or fragment, and that azqueue
  -- answers alike, it logs and does the same.
  pub launch-hides : (f : Flags) → launch host urls f raw ≡ launch host urls f secret
  unfolding launch
  launch-hides f =
      let (config, lines) =
        startup_log-hides urls raw secret f.azure_client_id
          (effective_reconcile_interval f.reconcile_interval).0 u v raw_given secret_given
          raw_parses secret_parses same_place same_query in
      rw (checked_alike, config, listened_alike, raw_given, secret_given) refl
