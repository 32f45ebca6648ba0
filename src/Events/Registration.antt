-- ===== src/Events/Registration.antt =====
-- `NewListener` of internal/events/listener.go and `registerQueueMetrics` of
-- internal/events/metrics.go.
use kvsynk8s.Base.{◌≡◌, refl, Bool, true, Bool-cases, inl, inr, String, List, ◌∷◌, if◌then◌else◌}
use kvsynk8s.Events.Listener.{
  Listener, apply_defaults, default_batch_size, default_poison_threshold,
  default_busy_poll_interval, default_idle_poll_interval, default_queue_call_timeout,
}

-- whether `registerQueueMetricsOnce` has run, and what `MustRegister` was given
pub record QueueMetrics : Type 0 where
  pub once : Bool
  pub registered : List String

unfoldable pub register_queue_metrics : QueueMetrics → QueueMetrics
register_queue_metrics m = if m.once then m else record {
  once = true;
  registered =
      "queueLastSuccessfulReceiveTimestamp" ∷ "queueConsecutiveReceiveFailures"
      ∷ "queueMessagesTotal" ∷ m.registered;
}

-- a listener over these calls
unfoldable pub new_listener : {W : Type 0} → Listener W → Listener W
new_listener calls = record calls {
  batch_size = default_batch_size;
  poison_threshold = default_poison_threshold;
  busy_poll_interval = default_busy_poll_interval;
  idle_poll_interval = default_idle_poll_interval;
  queue_call_timeout = default_queue_call_timeout;
}

-- `Start` finds nothing to fill in
pub apply_defaults-new_listener :
    {W : Type 0} (calls : Listener W) → apply_defaults (new_listener calls) ≡ new_listener calls
unfolding apply_defaults new_listener
apply_defaults-new_listener calls = refl

-- `Start` registers nothing that `NewListener` has registered
pub register_queue_metrics-again :
    (m : QueueMetrics)
    → register_queue_metrics (register_queue_metrics m) ≡ register_queue_metrics m
unfolding register_queue_metrics
register_queue_metrics-again m = elim (Bool-cases m.once) [ inl y ↦ rw y refl | inr n ↦ rw n refl ]
