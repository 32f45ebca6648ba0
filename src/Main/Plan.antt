-- ===== src/Main/Plan.antt =====
-- `main` (cmd/main.go) beside the list of requests that a configuration asks for.
use kvsynk8s.Base.{
  String, ◌≡◌, refl, sym, ◌∙◌, ap, Bool, true, false, not, Option, none, some, List, [], ◌∷◌, ◌++◌,
  str_eq, ℤ, if◌then◌else◌,
}
use kvsynk8s.Errors.{Result, ok, err}
use kvsynk8s.Exec.{Exec, pure, attempt, continue, wrapped, rewrap, ◌>>◌}
use kvsynk8s.Controller.{Reconciler}
use kvsynk8s.Controller.Setup.{Blueprint, max_concurrent_reconciles}
use kvsynk8s.Events.Registration.{new_listener}
use kvsynk8s.Config.{KeyValues, effective_reconcile_interval}
use kvsynk8s.Main.{
  Flags, manager_options, Request, set_env, new_manager, default_credential, new_queue_client,
  add_runnable, complete, add_healthz_check, add_readyz_check, start_manager, Host, Line, failed,
  Process,
}
use kvsynk8s.Main.Launch.{write, call, fail_with, or_exit, when, reconciler}

-- a request, and what `main` says when it fails
pub record Step (V : Type 0) : Type 0 where
  pub request : Request V
  pub failure : String

module _ {W V : Type 0} (host : Host W V) where
  -- the first request that fails ends the run
  unfoldable pub run_plan : List (Step V) → W → Option String × W
  run_plan [] w = (none, w)
  run_plan (s ∷ ss) w =
      let (r, v) = host.perform s.request w in
      let later = run_plan ss v in elim r [ ok _ ↦ later | err _ ↦ (some s.failure, v) ]

  unfoldable pub blueprint : Bool → Blueprint
  blueprint watches_events = record {
    watched = "SecretSync";
    owned = "Secret" ∷ [];
    max_concurrent = max_concurrent_reconciles;
    name = "secretsync";
    watches_events = watches_events;
  }

  -- the reconciler reads fresh copies past the cache and records Events
  unfoldable pub wired : ℤ → Reconciler V
  unfolding reconciler
  wired interval = record (reconciler host interval) {
    api_reader = some host.manager.api_reader;
    recorder = true;
  }

  unfoldable pub client_id_plan : String → List (Step V)
  client_id_plan client_id =
      if str_eq client_id ""
      then []
      else record {
        request = set_env "AZURE_CLIENT_ID" client_id;
        failure = "Failed to set AZURE_CLIENT_ID environment variable";
      }
        ∷ []

  unfoldable pub listener_plan : String → List (Step V)
  unfolding new_listener
  listener_plan queue_url =
      if str_eq queue_url ""
      then []
      else record {
        request = default_credential;
        failure = "Failed to create storage queue source";
      }
        ∷ record {
          request = new_queue_client queue_url;
          failure = "Failed to create storage queue source";
        }
        ∷ record {
          request = add_runnable (new_listener host.calls);
          failure = "Failed to register queue listener";
        }
        ∷ []

  unfoldable pub controller_plan : ℤ → Bool → List (Step V)
  unfolding blueprint wired
  controller_plan interval watches_events =
      record {
        request = complete (blueprint watches_events) (wired interval);
        failure = "Failed to create controller";
      }
      ∷ record { request = add_healthz_check "healthz"; failure = "Failed to set up health check" }
      ∷ record { request = add_readyz_check "readyz"; failure = "Failed to set up ready check" }
      ∷ record { request = start_manager; failure = "Failed to run manager" }
      ∷ []

  -- what a configuration asks for
  unfoldable pub plan : Flags → String → List (Step V)
  unfolding client_id_plan listener_plan controller_plan manager_options
  plan f queue_url =
      client_id_plan f.azure_client_id
      ++ (record { request = new_manager (manager_options f); failure = "Failed to start manager" }
          ∷ record {
            request = default_credential;
            failure = "Failed to create key vault secret reader";
          }
          ∷ (listener_plan queue_url
              ++ controller_plan (effective_reconcile_interval f.reconcile_interval).0
                  (not (str_eq queue_url ""))))

  -- the message of the latest line, when it reports an error
  unfoldable pub complaint : List Line → String
  complaint (failed e message details ∷ lines) = message
  complaint _ = ""

  -- how `main` ended: by exit status 1 under the latest complaint, or by returning
  unfoldable pub outcome : Result (Unit {0}) × Process W V → Option String × W
  unfolding complaint
  outcome (ok _, p) = (none, p.world)
  outcome (err _, p) = (some (complaint p.log), p.world)

  abbrev then_run : Option String × W → List (Step V) → Option String × W
  then_run (none, w) b = run_plan b w
  then_run (some m, w) b = (some m, w)

  run_plan-append : (a b : List (Step V)) (w : W) → run_plan (a ++ b) w ≡ then_run (run_plan a w) b
  unfolding run_plan
  run_plan-append [] b w = refl
  run_plan-append (s ∷ ss) b w =
      go (λ v. run_plan-append ss b v) (host.perform s.request w).0 (host.perform s.request w).1
    where
      go :
          ((v : W) → run_plan (ss ++ b) v ≡ then_run (run_plan ss v) b)
          → (r : Result (Unit {0})) (v : W)
          → elim r [ ok _ ↦ run_plan (ss ++ b) v | err _ ↦ (some s.failure, v) ]
            ≡ then_run (elim r [ ok _ ↦ run_plan ss v | err _ ↦ (some s.failure, v) ]) b
      go later (ok _) v = later v
      go later (err _) v = refl

  -- `m` sends the requests of `steps` in order, up to the first that fails, and complains of that
  pub record Follows (m : Exec (Process W V) (Unit {0})) (steps : List (Step V)) : Type 0 where
    pub at : (p : Process W V) → outcome (m p) ≡ run_plan steps p.world

  pub Follows-pure : Follows (pure tt) []
  unfolding outcome run_plan
  Follows-pure = record { at = λ p. refl }

  pub Follows-write : (line : Line) → Follows (write host line) []
  unfolding outcome run_plan
  Follows-write line = record { at = λ p. refl }

  pub Follows-seq :
      {m n : Exec (Process W V) (Unit {0})} {a b : List (Step V)}
      → Follows m a
      → Follows n b
      → Follows (m >> n) (a ++ b)
  unfolding outcome run_plan
  Follows-seq {m = m} {n = n} {a = a} {b = b} fm fn = record {
    at = λ p.
        go (m p).0 (m p).1 ∙ ap (λ o. then_run o b) (fm.at p) ∙ sym (run_plan-append a b p.world);
  }
    where
      go :
          (r : Result (Unit {0})) (q : Process W V)
          → outcome (continue (λ _. n) r q) ≡ then_run (outcome (r, q)) b
      go (ok _) q = fn.at q
      go (err e) q = refl

  pub Follows-if :
      (b : Bool) {m n : Exec (Process W V) (Unit {0})} {s : List (Step V)}
      → (b ≡ true → Follows m s)
      → (b ≡ false → Follows n s)
      → Follows (if b then m else n) s
  Follows-if true fm fn = fm refl
  Follows-if false fm fn = fn refl

  pub Follows-call :
      (request : Request V) (message : String) (details : KeyValues)
      → Follows
          (or_exit host (call host request) message details)
          (record { request = request; failure = message } ∷ [])
  unfolding outcome run_plan complaint
  Follows-call request message details = record {
    at = λ p. go p (host.perform request p.world).0 (host.perform request p.world).1;
  }
    where
      go :
          (p : Process W V) (r : Result (Unit {0})) (w : W)
          → outcome (fail_with host message details r (record p { world = w }))
            ≡ elim r [ ok _ ↦ (none, w) | err _ ↦ (some message, w) ]
      go p (ok _) w = refl
      go p (err e) w = refl

  pub Follows-warn : (b : Bool) (line : Line) → Follows (when host b (write host line)) []
  unfolding outcome run_plan
  Follows-warn true line = record { at = λ p. refl }
  Follows-warn false line = record { at = λ p. refl }

  pub Follows-wrapped :
      (request : Request V) (message : String)
      → Follows
          (or_exit host (wrapped (call host request)) message [])
          (record { request = request; failure = message } ∷ [])
  unfolding outcome run_plan complaint
  Follows-wrapped request message = record {
    at = λ p. go p (host.perform request p.world).0 (host.perform request p.world).1;
  }
    where
      go :
          (p : Process W V) (r : Result (Unit {0})) (w : W)
          → outcome (attempt (rewrap r) (fail_with host message []) (record p { world = w }))
            ≡ elim r [ ok _ ↦ (none, w) | err _ ↦ (some message, w) ]
      go p (ok _) w = refl
      go p (err e) w = refl

  -- two calls under one message
  pub Follows-both :
      (m n : Exec (Process W V) (Unit {0})) (message : String) {a b : List (Step V)}
      → Follows (or_exit host m message []) a
      → Follows (or_exit host n message []) b
      → Follows (or_exit host (m >> n) message []) (a ++ b)
  unfolding outcome
  Follows-both m n message fm fn = record {
    at = λ p. go (m p).0 (m p).1 ∙ (Follows-seq fm fn).at p;
  }
    where
      go :
          (r : Result (Unit {0})) (q : Process W V)
          → outcome (attempt (continue (λ _. n) r) (fail_with host message []) q)
            ≡ outcome (
                attempt (fail_with host message [] r) (continue (λ _. or_exit host n message [])) q)
      go (ok _) q = refl
      go (err e) q = refl
