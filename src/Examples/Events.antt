-- ===== src/Examples/Events.antt =====
-- The theorems on queue messages, on a queue whose bodies are their own decoding.
use Prim.Native.Nat.{zero, suc}
use native.Mathlib.Omega.{arith}
use kvsynk8s.Base.{ℕ, ◌≡◌, refl, true, false, some, none, [], ◌∷◌, ◌==◌, if◌then◌else◌}
use kvsynk8s.Errors.{ok, err, leaf, Leaf}
use kvsynk8s.Events.Base64.{significant, decode_string}
use kvsynk8s.Events.Base64.Encoding.{encode}
use kvsynk8s.Events.Fold.{fold, equal_fold}
use kvsynk8s.Events.Parser.{
  EventEnvelope, EventData, Codec, parse_envelope, parse, secret_new_version_created, event_type_of,
  no_payload, trim_space,
}
use kvsynk8s.Events.Parser.Contract.{
  IsActionable, event_of, IsActionable-parse, parse-IsActionable, parse-encode,
}
use kvsynk8s.Events.Listener.{apply_defaults, QueueMessage, Listener, Health, start, handle_message}
use kvsynk8s.Events.Listener.Log.{logged}
use kvsynk8s.Events.Listener.Delivery.{Delivered, start-Delivered}
use kvsynk8s.Events.Listener.Handled.{Settled, handle_message-Settled}
use kvsynk8s.Events.Listener.Polling.{IsMirrored, start-IsMirrored}
use kvsynk8s.Examples.{owner, rival}

abbrev payload : EventData
payload = record {
  vault_name = some "PROD";
  object_type = some "Secret";
  object_name = some "db-password";
  version = some "v2";
}

abbrev grid : EventEnvelope
grid = record {
  id = "e-1";
  event_type = secret_new_version_created;
  kind = "";
  contents = 123 ∷ 125 ∷ [];
}

abbrev cloud : EventEnvelope
cloud = record grid { event_type = ""; kind = secret_new_version_created }

-- The byte 1 is the one envelope, any other the second.
abbrev pub codec : Codec
codec = record {
  unmarshal_envelope =
      λ bs. elim bs [ [] ↦ none | b ∷ rest ↦ if b == 1 then some grid else some cloud ];
  unmarshal_data = λ bs. elim bs [ [] ↦ none | b ∷ rest ↦ some payload ];
}

grid-IsActionable : IsActionable codec "AQ==" (event_of "e-1" payload)
unfolding event_type_of no_payload trim_space equal_fold fold decode_string
grid-IsActionable = record {
  decoded = 1 ∷ [];
  envelope = grid;
  payload = payload;
  object_type = "Secret";
  decodes = refl;
  has_envelope = refl;
  has_type = refl;
  has_data = refl;
  has_payload = refl;
  is_typed = refl;
  about_secret = refl;
  as_event = refl;
}

parse-IsActionable_example : parse codec "AQ==" ≡ ok (some (event_of "e-1" payload))
parse-IsActionable_example =
    parse-IsActionable codec "AQ==" (event_of "e-1" payload) grid-IsActionable

IsActionable-parse_example : IsActionable codec "AQ==" (event_of "e-1" payload)
IsActionable-parse_example =
    IsActionable-parse codec "AQ==" (event_of "e-1" payload)
      (parse-IsActionable codec "AQ==" (event_of "e-1" payload) grid-IsActionable)

parse-encode_example :
    parse codec "A\nQ==" ≡ parse_envelope codec (codec.unmarshal_envelope (1 ∷ []))
unfolding significant encode
parse-encode_example = parse-encode codec "A\nQ==" (1 ∷ []) (omega arith, tt) refl

-- The world is the number of requests that the channel still accepts.
abbrev queue : Listener ℕ
queue = record {
  codec = codec;
  receive = λ n w. (err (leaf Leaf.plain), w);
  delete = λ id receipt w. (ok tt, w);
  list_syncs = λ w. (ok (owner ∷ rival ∷ []), w);
  send = λ ss w. elim w [ zero ↦ (false, zero) | suc n ↦ (true, n) ];
  count = λ o w. w;
  now = λ w. (1000, w);
  finished = λ w. (false, w);
  sleep = λ d w. (true, w);
  batch_size = 32;
  poison_threshold = 5;
  busy_poll_interval = 2000000000;
  idle_poll_interval = 30000000000;
  queue_call_timeout = 30000000000;
}

abbrev message : QueueMessage
message = record { id = "m-1"; pop_receipt = "r-1"; text = "AQ=="; dequeue_count = 1 }

handle_message-Settled_example :
    Settled queue message
      (record { world = 1; acts = [] })
      (handle_message (logged queue) message (record { world = 1; acts = [] })).acts
handle_message-Settled_example =
    handle_message-Settled queue message (record { world = 1; acts = [] })

abbrev healthy : Health
healthy = record {
  consecutive_receive_failures = 0;
  last_successful_receive = some 900;
  failures_gauge = 0;
  success_gauge = 900;
}

start-IsMirrored_example : IsMirrored (start queue 3 healthy 0).1
start-IsMirrored_example =
    start-IsMirrored queue 3 healthy 0 (record { failures = refl; success = refl })

-- gives the message at every poll
abbrev busy : Listener ℕ
busy = record queue { receive = λ n w. (ok (message ∷ []), w) }

start-Delivered_example :
    Delivered
      (apply_defaults busy)
      (start (logged busy) 1 healthy (record { world = 5; acts = [] })).2.acts
start-Delivered_example = start-Delivered busy 1 healthy 5
