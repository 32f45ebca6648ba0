-- ===== src/Controller/Reconcile/Watched.antt =====
-- A reconciler whose calls on Secrets are kept.
use kvsynk8s.Base.{Option, none, some}
use kvsynk8s.Kube.{SecretReader}
use kvsynk8s.Sync.Writer.Trace.{Traced, traced, traced_reader_option}
use kvsynk8s.Controller.{Reconciler}
use kvsynk8s.Controller.Removal.Safety.{quiet, untraced}

abbrev pub watched_vault : {W : Type 0} → Option (SecretReader W) → Option (SecretReader (Traced W))
watched_vault none = none
watched_vault (some v) =
    some (record { get_latest = λ vault secret. quiet (v.get_latest vault secret) })

-- A reconciler whose calls on Secrets are kept.
abbrev pub watched : {W : Type 0} → Reconciler W → Reconciler (Traced W)
watched r = record {
  client = traced r.client;
  syncs = untraced r.syncs;
  reader = watched_vault r.reader;
  api_reader = traced_reader_option r.api_reader;
  clock = record {
    now = λ t. let (n, w) = r.clock.now t.world in (n, record { world = w; calls = t.calls });
  };
  interval = r.interval;
  recorder = r.recorder;
  observe = λ o t. record { world = r.observe o t.world; calls = t.calls };
}
