-- ===== src/Context.antt =====
-- The contexts that the code derives for its calls: `Reconcile` and `statusWriteContext` of
-- internal/controller/secretsync_controller.go, `Collect` of internal/controller/metrics.go and
-- `queueCallContext` of internal/events/listener.go. A context is what its owner can see of Go's:
-- when its deadline is, and whether it was cancelled. Times and timeouts are in nanoseconds.
use kvsynk8s.Base.{
  ℕ, zero, suc, ◌+◌, Bool, true, false, ◌||◌, Option, none, some, leb, ◌≡◌, refl, ◌∙◌, ℤ, pos,
  negsuc, if◌then◌else◌, arith,
}

pub record Context : Type 0 where
  pub deadline : Option ℕ
  pub cancelled : Bool

-- context.Background
abbrev pub background : Context
background = record { deadline = none; cancelled = false }

-- the earlier deadline counts
abbrev earlier : ℕ → Option ℕ → ℕ
earlier t none = t
earlier t (some u) = if leb t u then t else u

-- context.WithTimeout at the time `now`
unfoldable pub with_timeout : ℕ → ℕ → Context → Context
with_timeout now timeout ctx = record ctx { deadline = some (earlier (now + timeout) ctx.deadline) }

-- context.WithoutCancel
unfoldable pub without_cancel : Context → Context
without_cancel ctx = background

abbrev past : Option ℕ → ℕ → Bool
past none t = false
past (some d) t = leb d t

-- `ctx.Err() != nil` at the time `t`
unfoldable pub ended : Context → ℕ → Bool
ended ctx t = ctx.cancelled || past ctx.deadline t

abbrev pub reconcile_timeout : ℕ
reconcile_timeout = 60000000000

abbrev pub status_persist_timeout : ℕ
status_persist_timeout = 5000000000

abbrev pub collect_timeout : ℕ
collect_timeout = 2000000000

unfoldable pub reconcile_context : ℕ → Context → Context
unfolding with_timeout
reconcile_context now ctx = with_timeout now reconcile_timeout ctx

unfoldable pub status_write_context : ℕ → Context → Context
unfolding with_timeout without_cancel
status_write_context now ctx = with_timeout now status_persist_timeout (without_cancel ctx)

unfoldable pub collect_context : ℕ → Context
unfolding with_timeout
collect_context now = with_timeout now collect_timeout background

-- `QueueCallTimeout` is a Duration, which may be negative
unfoldable pub queue_call_context : ℕ → ℤ → Context → Context
unfolding with_timeout
queue_call_context now (pos zero) ctx = ctx
queue_call_context now (pos (suc n)) ctx = with_timeout now (suc n) ctx
queue_call_context now (negsuc n) ctx = ctx

earlier-past :
    (limit t : ℕ) (deadline : Option ℕ)
    → leb (earlier limit deadline) t ≡ (past deadline t || leb limit t)
earlier-past limit t none = refl
earlier-past limit t (some d) = ground arith

with_timeout-ended :
    (now timeout t : ℕ) (ctx : Context)
    → ended (with_timeout now timeout ctx) t ≡ (ended ctx t || leb (now + timeout) t)
unfolding ended with_timeout
with_timeout-ended now timeout t ctx =
    rw (earlier-past (now + timeout) t ctx.deadline) (or_assoc ctx.cancelled _ _)
  where
    or_assoc : (a b c : Bool) → (a || (b || c)) ≡ ((a || b) || c)
    or_assoc true b c = refl
    or_assoc false b c = refl

calm :
    (from timeout t : ℕ) → (ended background t || leb (from + timeout) t) ≡ leb (from + timeout) t
unfolding ended
calm from timeout t = refl

-- A reconcile ends with its worker's context or one minute after it began. The write of its status
-- gets five seconds of its own, whenever it begins and whether or not the reconcile's time is up.
-- A scrape ends after two seconds. A queue call ends with the listener's context or after its
-- timeout, and with the context alone when the timeout is not positive.
pub contexts-ended :
    (now later t n : ℕ) (ctx : Context)
    → (ended (reconcile_context now ctx) t ≡ (ended ctx t || leb (now + reconcile_timeout) t))
      × (ended (status_write_context later (reconcile_context now ctx)) t
          ≡ leb (later + status_persist_timeout) t)
      × (ended (collect_context now) t ≡ leb (now + collect_timeout) t)
      × (ended (queue_call_context now (pos (suc n)) ctx) t ≡ (ended ctx t || leb (now + suc n) t))
      × (ended (queue_call_context now (pos 0) ctx) t ≡ ended ctx t)
      × (ended (queue_call_context now (negsuc n) ctx) t ≡ ended ctx t)
unfolding reconcile_context status_write_context collect_context queue_call_context without_cancel
contexts-ended now later t n ctx = (
  with_timeout-ended now reconcile_timeout t ctx,
  with_timeout-ended later status_persist_timeout t background
      ∙ calm later status_persist_timeout t,
  with_timeout-ended now collect_timeout t background ∙ calm now collect_timeout t,
  with_timeout-ended now (suc n) t ctx,
  refl,
  refl,
)
