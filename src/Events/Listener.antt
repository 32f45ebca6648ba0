-- ===== src/Events/Listener.antt =====
-- internal/events/listener.go, the health state of internal/events/metrics.go, and QueueMessage of
-- internal/azure/queue.go. A handler takes the world and gives it back. Batch size, thresholds and
-- intervals are numbers (int32, int64 and Durations that are not negative); logging, and the
-- timeouts of the single calls, are not modelled: a call that times out returns an error.
pub mod Log
pub mod Handled
pub mod Polling
pub mod Acts
pub mod Rounds
pub mod Delivery
use kvsynk8s.Base.{
  ℕ, zero, suc, ◌+◌, String, Bool, true, false, ◌&&◌, Option, none, some, List, [], ◌∷◌, ltb, ◌==◌,
  select, length, if◌then◌else◌,
}
use kvsynk8s.Errors.{Err, Result, ok, err}
use kvsynk8s.Exec.{Exec}
use kvsynk8s.Api.{SecretSync}
use kvsynk8s.Events.Fold.{equal_fold}
use kvsynk8s.Events.Parser.{ParsedEvent, Codec, parse}

pub record QueueMessage : Type 0 where
  pub id : String
  pub pop_receipt : String
  pub text : String
  pub dequeue_count : ℕ

pub data MessageOutcome : Type 0 where
  dispatched unmatched non_actionable malformed poison : MessageOutcome

-- What the listener calls. `send` puts an object into the channel, `false` if the context ended
-- first; `count` adds to `kvsynk8s_queue_messages_total`; `finished` reads `ctx.Err() != nil`;
-- `sleep` gives `true` if the full time passed.
pub record Listener (W : Type 0) : Type 0 where
  pub codec : Codec
  pub receive : ℕ → Exec W (List QueueMessage)
  pub delete : String → String → Exec W (Unit {0})
  pub list_syncs : Exec W (List SecretSync)
  pub send : SecretSync → W → Bool × W
  pub count : MessageOutcome → W → W
  pub now : W → ℕ × W
  pub finished : W → Bool × W
  pub sleep : ℕ → W → Bool × W
  pub batch_size : ℕ
  pub poison_threshold : ℕ
  pub busy_poll_interval : ℕ
  pub idle_poll_interval : ℕ
  pub queue_call_timeout : ℕ

abbrev pub default_batch_size : ℕ
default_batch_size = 32

abbrev pub default_poison_threshold : ℕ
default_poison_threshold = 5

-- intervals in nanoseconds
abbrev pub default_busy_poll_interval : ℕ
default_busy_poll_interval = 2000000000

abbrev pub default_idle_poll_interval : ℕ
default_idle_poll_interval = 30000000000

abbrev pub default_queue_call_timeout : ℕ
default_queue_call_timeout = 30000000000

abbrev or_default : ℕ → ℕ → ℕ
or_default zero d = d
or_default (suc n) d = suc n

unfoldable pub apply_defaults : {W : Type 0} → Listener W → Listener W
apply_defaults l = record l {
  batch_size = or_default l.batch_size default_batch_size;
  poison_threshold = or_default l.poison_threshold default_poison_threshold;
  busy_poll_interval = or_default l.busy_poll_interval default_busy_poll_interval;
  idle_poll_interval = or_default l.idle_poll_interval default_idle_poll_interval;
  queue_call_timeout = or_default l.queue_call_timeout default_queue_call_timeout;
}

-- the condition of the loop of `matchingSecretSyncs`
unfoldable pub concerns : ParsedEvent → SecretSync → Bool
concerns event ss =
    equal_fold ss.spec.vault.name event.vault_name
    && equal_fold ss.spec.vault.secret event.secret_name

-- The queue-receive health of a listener, with the two gauges that mirror it. The counter is int64:
-- it would take 2^63 failed polls to wrap.
pub record Health : Type 0 where
  pub consecutive_receive_failures : ℕ
  pub last_successful_receive : Option ℕ
  pub failures_gauge : ℕ
  pub success_gauge : ℕ

unfoldable pub record_receive_success : ℕ → Health → Health
record_receive_success now h = record h {
  consecutive_receive_failures = 0;
  last_successful_receive = some now;
  failures_gauge = 0;
  success_gauge = now;
}

unfoldable pub record_receive_failure : Health → Health
record_receive_failure h = record h {
  consecutive_receive_failures = h.consecutive_receive_failures + 1;
  failures_gauge = h.consecutive_receive_failures + 1;
}

module _ {W : Type 0} (l : Listener W) where
  -- an error of the Delete is only logged
  unfoldable pub delete_message : QueueMessage → W → W
  delete_message m w = (l.delete m.id m.pop_receipt w).1

  -- the `recordMessageOutcome` and `deleteMessage` of each discard
  unfoldable pub discard : MessageOutcome → QueueMessage → W → W
  unfolding delete_message
  discard outcome m w = delete_message m (l.count outcome w)

  -- the loop that sends the matches; `false` if the context ended before all were accepted
  unfoldable pub send_each : List SecretSync → W → Bool × W
  send_each [] w = (true, w)
  send_each (ss ∷ rest) w =
      let (accepted, v) = l.send ss w in
      let later = send_each rest v in if accepted then later else (false, v)

  dispatch : List SecretSync → QueueMessage → W → W
  unfolding discard send_each
  dispatch matches m w =
      let (all_accepted, v) = send_each matches w in
      if all_accepted then discard dispatched m v else v

  with_matches : List SecretSync → QueueMessage → W → W
  unfolding discard dispatch
  with_matches [] m w = discard unmatched m w
  with_matches (ss ∷ rest) m w = dispatch (ss ∷ rest) m w

  -- `handleMessage` after the List of `matchingSecretSyncs`
  with_listed : ParsedEvent → QueueMessage → Result (List SecretSync) → W → W
  unfolding with_matches
  with_listed event m (err e) w = w
  with_listed event m (ok items) w = with_matches (select (concerns event) items) m w

  -- `handleMessage` after `Parse`
  with_parsed : QueueMessage → Result (Option ParsedEvent) → W → W
  unfolding discard with_listed
  with_parsed m (err e) w = discard malformed m w
  with_parsed m (ok none) w = discard non_actionable m w
  with_parsed m (ok (some event)) w = let (r, v) = l.list_syncs w in with_listed event m r v

  unfoldable pub handle_message : QueueMessage → W → W
  unfolding discard with_parsed
  handle_message m w =
      if ltb l.poison_threshold m.dequeue_count
      then discard poison m w
      else with_parsed m (parse l.codec m.text) w

  unfoldable pub handle_each : List QueueMessage → W → W
  handle_each [] w = w
  handle_each (m ∷ ms) w = handle_each ms (handle_message m w)

  received : Health → Result (List QueueMessage) → W → Result ℕ × Health × W
  unfolding handle_each record_receive_failure record_receive_success
  received h (err e) w = (err e, record_receive_failure h, w)
  received h (ok ms) w =
      let (now, v) = l.now w in (ok (length ms), record_receive_success now h, handle_each ms v)

  unfoldable pub poll_once : Health → W → Result ℕ × Health × W
  unfolding received
  poll_once h w = let (r, v) = l.receive l.batch_size w in received h r v

  -- the wait after a poll
  unfoldable pub wait_after : Result ℕ → ℕ
  wait_after (err e) = l.idle_poll_interval
  wait_after (ok zero) = l.idle_poll_interval
  wait_after (ok (suc n)) = l.busy_poll_interval

  -- `Start` for a number of rounds; `true` if it returned within them
  unfoldable pub rounds : ℕ → Health → W → Bool × Health × W
  unfolding poll_once wait_after
  rounds zero h w = (false, h, w)
  rounds (suc n) h w =
      let (done, v) = l.finished w in
      let (r, g, u) = poll_once h v in
      let (go_on, t) = l.sleep (wait_after r) u in
      let later = rounds n g t in
      let after_poll = if go_on then later else (true, g, t) in
      if done then (true, h, v) else after_poll

unfoldable pub start : {W : Type 0} → Listener W → ℕ → Health → W → Bool × Health × W
unfolding rounds apply_defaults
start l n h w = rounds (apply_defaults l) n h w
