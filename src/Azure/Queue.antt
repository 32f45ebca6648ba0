-- ===== src/Azure/Queue.antt =====
-- internal/azure/queue.go: the queue source over the client of azqueue, which is a parameter.
use kvsynk8s.Base.{ℕ, String, ◌≡◌, refl, false, Option, none, some, List, [], ◌∷◌, str_eq}
use kvsynk8s.Errors.{Err}
use kvsynk8s.Events.Listener.{QueueMessage}
use kvsynk8s.Azure.Redact.{
  Url, UrlLib, QueueError, url_error, has_query, redact_url_error, redact_url-hides,
}

-- azqueue's DequeuedMessage; `none` is a nil pointer.
pub record DequeuedMessage : Type 0 where
  pub message_id : Option String
  pub pop_receipt : Option String
  pub message_text : Option String
  pub dequeue_count : Option ℕ

pub data Dequeued : Type 0 where
  messages : List (Option DequeuedMessage) → Dequeued
  dequeue_failed : QueueError → Dequeued

pub record QueueClient (W : Type 0) : Type 0 where
  pub dequeue_messages : ℕ → W → Dequeued × W
  pub delete_message : String → String → W → Option QueueError × W

-- What `Receive` returns; the prefix that the error is wrapped in is fixed text.
pub data Received : Type 0 where
  received : List QueueMessage → Received
  receive_failed : QueueError → Received

unfoldable pub string_val : Option String → String
string_val none = ""
string_val (some s) = s

unfoldable pub int64_val : Option ℕ → ℕ
int64_val none = 0
int64_val (some n) = n

abbrev pub message_of : DequeuedMessage → QueueMessage
message_of m = record {
  id = string_val m.message_id;
  pop_receipt = string_val m.pop_receipt;
  text = string_val m.message_text;
  dequeue_count = int64_val m.dequeue_count;
}

-- the loop of `Receive`
unfoldable pub collect_messages : List (Option DequeuedMessage) → List QueueMessage
collect_messages [] = []
collect_messages (none ∷ ms) = collect_messages ms
collect_messages (some m ∷ ms) = message_of m ∷ collect_messages ms

module _ {H : Type 0} (urls : UrlLib H) where
  pub answer_dequeue : Dequeued → Received
  unfolding collect_messages redact_url_error
  answer_dequeue (messages ms) = received (collect_messages ms)
  answer_dequeue (dequeue_failed e) = receive_failed (redact_url_error urls e)

  unfoldable pub receive : {W : Type 0} → QueueClient W → ℕ → W → Received × W
  unfolding answer_dequeue
  receive client n w = let (a, v) = client.dequeue_messages n w in (answer_dequeue a, v)

  answer_delete : Option QueueError → Option QueueError
  unfolding redact_url_error
  answer_delete none = none
  answer_delete (some e) = some (redact_url_error urls e)

  unfoldable pub delete : {W : Type 0} → QueueClient W → String → String → W → Option QueueError × W
  unfolding answer_delete
  delete client id receipt w =
      let (a, v) = client.delete_message id receipt w in (answer_delete a, v)

  -- The errors of `Receive` and `Delete` do not depend on the token in the queue's URL: over two
  -- clients that fail in one way, for URLs that differ only in user information, query or fragment,
  -- both return the same.
  pub errors-hide :
      {W : Type 0} (c d : QueueClient W) (n : ℕ) (id receipt op raw secret : String) (u v : Url H)
      (e : Err) (w : W)
      → c.dequeue_messages n w ≡ (dequeue_failed (url_error op raw e), w)
      → d.dequeue_messages n w ≡ (dequeue_failed (url_error op secret e), w)
      → c.delete_message id receipt w ≡ (some (url_error op raw e), w)
      → d.delete_message id receipt w ≡ (some (url_error op secret e), w)
      → str_eq raw "" ≡ false
      → str_eq secret "" ≡ false
      → urls.parse raw ≡ some u
      → urls.parse secret ≡ some v
      → u.place ≡ v.place
      → has_query urls u ≡ has_query urls v
      → (receive c n w ≡ receive d n w) × (delete c id receipt w ≡ delete d id receipt w)
  unfolding receive delete answer_dequeue answer_delete redact_url_error
  errors-hide c d n id receipt op raw secret u v e w a b f g m k p q same both =
      let alike = redact_url-hides urls raw secret u v m k p q same both in
      rw (a, b, f, g, alike) (refl, refl)
