-- ===== src/Examples/Startup.antt =====
-- The theorems on the start of the operator, for a host that counts requests and whose last request
-- fails, and on what the controller is set up with.
use kvsynk8s.Base.{
  ℕ, suc, ◌+◌, String, ◌≡◌, refl, Bool, true, false, ◌&&◌, ◌||◌, Option, none, some, List, [], ◌∷◌,
  ◌++◌, leb, Dict, lookup, str_eq, pos, negsuc,
}
use kvsynk8s.Errors.{Result, ok, err, leaf, Leaf}
use kvsynk8s.Context.{
  Context, ended, reconcile_context, status_write_context, collect_context, queue_call_context,
  reconcile_timeout, status_persist_timeout, collect_timeout, contexts-ended,
}
use kvsynk8s.Sync.Writer.{labeled, populate_managed_secret}
use kvsynk8s.Controller.{Reconciler}
use kvsynk8s.Controller.Setup.{
  Selectors, SelectorLaws, has_label, shown, managed_secret_cache_options, managed_cache-labeled,
  Manager, setups, setups-once,
}
use kvsynk8s.Events.Listener.{Listener}
use kvsynk8s.Main.{Flags, Request, start_manager, Host, Process}
use kvsynk8s.Main.Launch.{launch}
use kvsynk8s.Main.Plan.{plan, run_plan, outcome}
use kvsynk8s.Main.Runs.{launch-Follows}
use kvsynk8s.Main.Secrecy.{launch-hides}
use kvsynk8s.Examples.{owner, foreign, Cluster, client, vault, clock}
use kvsynk8s.Examples.Azure.{signed, urls}
use kvsynk8s.Examples.Events.{codec}
use kvsynk8s.Examples.Reconcile.{syncs}

abbrev listener : Listener Cluster
listener = record {
  codec = codec;
  receive = λ n w. (ok [], w);
  delete = λ id receipt w. (ok tt, w);
  list_syncs = λ w. (ok (owner ∷ []), w);
  send = λ ss w. (true, w);
  count = λ o w. w;
  now = λ w. (1000, w);
  finished = λ w. (false, w);
  sleep = λ d w. (true, w);
  batch_size = 0;
  poison_threshold = 0;
  busy_poll_interval = 0;
  idle_poll_interval = 0;
  queue_call_timeout = 0;
}

abbrev manager : Manager Cluster
manager = record {
  client = client;
  syncs = syncs;
  api_reader = record { get_secret = client.get_secret };
}

abbrev count_request : Request Cluster → ℕ → Result (Unit {0}) × ℕ
count_request start_manager n = (err (leaf Leaf.plain), suc n)
count_request _ n = (ok tt, suc n)

abbrev host : Host ℕ Cluster
host = record {
  perform = count_request;
  manager = manager;
  secret_reader = vault "s3cret";
  clock = clock;
  observe = λ o c. c;
  calls = listener;
}

abbrev flags : Flags
flags = record {
  metrics_addr = "0";
  probe_addr = ":8081";
  enable_leader_election = true;
  queue_url = "a";
  reconcile_interval = negsuc 0;
  azure_client_id = "id";
  secure_metrics = true;
  webhook_cert = record { path = ""; name = "tls.crt"; key = "tls.key" };
  metrics_cert = record { path = "/certs"; name = "tls.crt"; key = "tls.key" };
  enable_http2 = false;
}

abbrev begun : Process ℕ Cluster
begun = record {
  world = 0;
  log = [];
  metrics = record { state_reader = none; once = false; registered = [] };
}

launch-Follows_example :
    outcome host (launch host urls flags "a" begun) ≡ run_plan host (plan host flags "a") 0
launch-Follows_example = launch-Follows host urls flags "a" begun

launch-hides_example : launch host urls flags "a" ≡ launch host urls flags "b"
launch-hides_example =
    launch-hides host urls "a" "b" signed (record signed { raw_query = "sig=2" }) refl refl refl
      refl refl refl refl flags

abbrev has_pair : Option String → String → Bool
has_pair none value = false
has_pair (some got) value = str_eq got value

abbrev has_all : List (String × String) → Dict String → Bool
has_all [] labels = true
has_all ((key, value) ∷ []) labels = has_pair (lookup key labels) value
has_all ((key, value) ∷ p ∷ ps) labels =
    let rest = has_all (p ∷ ps) labels in has_pair (lookup key labels) value && rest

abbrev selectors : Selectors
selectors = record { matches = has_all }

selector_laws : SelectorLaws selectors
selector_laws = record { one_label = λ key value labels. go (lookup key labels) value }
  where
    go : (o : Option String) (value : String) → has_pair o value ≡ has_label o value
    go none value = refl
    go (some got) value = refl

managed_cache-labeled_example :
    (shown selectors managed_secret_cache_options foreign ≡ labeled foreign)
    × (shown selectors managed_secret_cache_options
          (populate_managed_secret foreign owner "db-password" "s3cret" "v1")
        ≡ true)
managed_cache-labeled_example =
    managed_cache-labeled selectors selector_laws foreign owner "db-password" "s3cret" "v1"

abbrev bare : Reconciler Cluster
bare = record {
  client = client;
  syncs = syncs;
  reader = some (vault "s3cret");
  api_reader = none;
  clock = clock;
  interval = pos 0;
  recorder = false;
  observe = λ o c. c;
}

setups-once_example :
    let m =
      setups
        ((manager ∷ []) ++ (manager ∷ []))
        bare
        (record { state_reader = none; once = false; registered = [] }) in
    (m.registered ≡ "syncTotal" ∷ "stateCollector" ∷ []) × (m.state_reader ≡ some client)
setups-once_example = setups-once (manager ∷ []) manager bare

contexts-ended_example :
    let late : Context = record { deadline = some 10; cancelled = true } in
    (ended (reconcile_context 0 late) 70000000000
      ≡ (ended late 70000000000 || leb (0 + reconcile_timeout) 70000000000))
    × (ended (status_write_context 60000000000 (reconcile_context 0 late)) 70000000000
        ≡ leb (60000000000 + status_persist_timeout) 70000000000)
    × (ended (collect_context 0) 70000000000 ≡ leb (0 + collect_timeout) 70000000000)
    × (ended (queue_call_context 0 (pos (suc 4)) late) 70000000000
        ≡ (ended late 70000000000 || leb (0 + suc 4) 70000000000))
    × (ended (queue_call_context 0 (pos 0) late) 70000000000 ≡ ended late 70000000000)
    × (ended (queue_call_context 0 (negsuc 4) late) 70000000000 ≡ ended late 70000000000)
contexts-ended_example =
    contexts-ended 0 60000000000 70000000000 4 (record { deadline = some 10; cancelled = true })
