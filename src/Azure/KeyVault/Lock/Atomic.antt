-- ===== src/Azure/KeyVault/Lock/Atomic.antt =====
-- Under the mutex a call of `clientFor` does its work at once, as the function of Azure/KeyVault does
-- it.
use kvsynk8s.Base.{
  ℕ, String, ◌≡◌, ◌≢◌, refl, ap, none, some, Option, Dict, lookup, put, Bool-cases, not, str_eq,
  inl, inr,
}
use kvsynk8s.Errors.{Result, ok}
use mathlib.Core.Logic.{ite}
use native.Mathlib.Decide.{ℕ_discrete}
use kvsynk8s.Azure.KeyVault.{Sdk, client_for, kept_or_made, connect}
use std.Path.{fun_ext}
use kvsynk8s.Azure.KeyVault.Lock.{
  Shared, Pc, outside, asking, inside, missed, built, leaving, answered, Move, call, lock, hit,
  miss, build, refuse, store, unlock, again, System, move_to, Step, pick, fresh, Later, now, next,
  no_client,
}
use kvsynk8s.Azure.KeyVault.Lock.Kept.{Knows, Inv, Later-Inv, fresh-Inv}

-- what a caller sees of its call
pub data Phase (C : Type 0) : Type 0 where
  idle : Phase C
  waiting : String → Phase C
  given : String → Result C → Phase C

pub record Service (C : Type 0) : Type 0 where
  pub clients : Dict C
  pub phase : ℕ → Phase C

module _ {C W : Type 0} (sdk : Sdk C W) where
  -- the SDK in which NewClient gives `o`
  abbrev pub giving : Option C → Sdk C W
  giving o = record sdk { new_client = λ endpoint insecure. o }

  -- A call is served at once, by `client_for`.
  pub data Serve (clients : Dict C) : Phase C → Dict C → Phase C → Type 0 where
    ask : (v : String) → Serve clients idle clients (waiting v)
    serve :
        {v : String} (o : Option C)
        → Serve clients
            (waiting v)
            (client_for (giving o) clients v).1
            (given v (client_for (giving o) clients v).0)
    take : {v : String} {a : Result C} → Serve clients (given v a) clients idle

  -- A caller takes such a step, and the others stay.
  pub record Served (s t : Service C) : Type 0 where
    pub caller : ℕ
    pub step : Serve s.clients (s.phase caller) t.clients (t.phase caller)
    pub others : (j : ℕ) → caller ≢ j → t.phase j ≡ s.phase j

  pub data Serves (s : Service C) : Service C → Type 0 where
    start : Serves s s
    then : {t u : Service C} → Serves s t → Served t u → Serves s u

abbrev pub phase_of : {C : Type 0} → Pc C → Phase C
phase_of outside = idle
phase_of (asking v) = waiting v
phase_of (inside v) = waiting v
phase_of (missed v) = waiting v
phase_of (built v c) = waiting v
phase_of (leaving v a) = given v a
phase_of (answered v a) = given v a

abbrev pub service_of : {C : Type 0} → System C → Service C
service_of s = record { clients = s.shared.clients; phase = λ j. phase_of (s.pc j) }

module _ {C W : Type 0} (sdk : Sdk C W) where
  -- what a move looks like from outside
  data Look (m : Dict C) (p : Phase C) (m' : Dict C) (p' : Phase C) : Type 0 where
    unseen : m' ≡ m → p' ≡ p → Look m p m' p'
    seen : Serve sdk m p m' p' → Look m p m' p'

  served_as :
      (clients : Dict C) (v : String) (o : Option C) (r : Result C × Dict C)
      → client_for (giving sdk o) clients v ≡ r
      → Look clients (waiting v) r.1 (given v r.0)
  served_as clients v o r e = rw (← e) (seen (serve o))

  connect-giving : (o : Option C) (v : String) → connect (giving sdk o) v ≡ o
  unfolding connect
  connect-giving o v = elim (Bool-cases (not (str_eq sdk.endpoint_override ""))) [
    | inl y ↦ rw y refl
    | inr n ↦ rw n refl
  ]

  module _ (clients : Dict C) (v : String) where
    found :
        (c : C)
        → lookup v clients ≡ some c
        → client_for (giving sdk none) clients v ≡ (ok c, clients)
    unfolding client_for kept_or_made
    found c e = rw e refl

    made_new :
        (c : C)
        → lookup v clients ≡ none
        → client_for (giving sdk (some c)) clients v ≡ (ok c, put v c clients)
    unfolding client_for kept_or_made
    made_new c e = rw (e, connect-giving (some c) v) refl

    not_made :
        lookup v clients ≡ none → client_for (giving sdk none) clients v ≡ (no_client, clients)
    unfolding client_for kept_or_made
    not_made e = rw (e, connect-giving none v) refl

  Move-Look :
      (i : ℕ) {m m' : Shared C} {p p' : Pc C}
      → Move i m p m' p'
      → Knows m.clients p
      → Look m.clients (phase_of p) m'.clients (phase_of p')
  Move-Look i (call v) k = seen (ask v)
  Move-Look i (lock free) k = unseen refl refl
  Move-Look i {m} (hit {v = v} {c = c} e) k =
      served_as m.clients v none (ok c, m.clients) (found m.clients v c e)
  Move-Look i (miss e) k = unseen refl refl
  Move-Look i (build c) k = unseen refl refl
  Move-Look i {m} (refuse {v = v}) k =
      served_as m.clients v none (no_client, m.clients) (not_made m.clients v k)
  Move-Look i {m} (store {v = v} {c = c}) k =
      served_as m.clients v (some c) (ok c, put v c m.clients) (made_new m.clients v c k)
  Move-Look i unlock k = unseen refl refl
  Move-Look i again k = seen take

  moved : (pc : ℕ → Pc C) (i : ℕ) (p : Pc C) → move_to pc i p i ≡ p
  moved pc i p = elim (ℕ_discrete i i) as (λ d. ite d p (pc i) ≡ p) [
    | yes e ↦ refl
    | no n ↦ absurd (n refl)
  ]

  not_moved : (pc : ℕ → Pc C) (i : ℕ) (p : Pc C) (j : ℕ) → i ≢ j → move_to pc i p j ≡ pc j
  not_moved pc i p j n = elim (ℕ_discrete i j) as (λ d. ite d p (pc j) ≡ pc j) [
    | yes e ↦ absurd (n e)
    | no _ ↦ refl
  ]

  same_phase :
      (pc : ℕ → Pc C) (i : ℕ) (p : Pc C)
      → phase_of p ≡ phase_of (pc i)
      → (j : ℕ) → phase_of (move_to pc i p j) ≡ phase_of (pc j)
  same_phase pc i p e j =
      elim (ℕ_discrete i j) as (λ d. phase_of (ite d p (pc j)) ≡ phase_of (pc j)) [
        | yes q ↦ rw (← q) e
        | no _ ↦ refl
      ]

  Step-Serves :
      {s t : System C} {r : Service C}
      → Inv s
      → Step s t
      → Serves sdk r (service_of s)
      → Serves sdk r (service_of t)
  Step-Serves {s = s} {r = r} inv (pick i {m} {p} mv) before = elim (Move-Look i mv (inv.knows i)) [
    | unseen kept same ↦
        let phases : (λ j. phase_of (move_to s.pc i p j)) ≡ (λ j. phase_of (s.pc j)) =
          fun_ext (same_phase s.pc i p same) in
        rw (kept, phases) before
    | seen act ↦ then before (record {
      caller = i;
      step = rw (moved s.pc i p) act;
      others = λ j n. ap phase_of (not_moved s.pc i p j n);
    })
  ]

  -- However the steps of concurrent calls of `clientFor` interleave, what the callers see is a
  -- sequence of calls that are served at once, each by the function `client_for` on the map that the
  -- one before left, with whatever NewClient gave that call.
  pub Later-Serves :
      {s : System C} → Later fresh s → Serves sdk (service_of (fresh {C = C})) (service_of s)
  Later-Serves now = start
  Later-Serves (next r st) = Step-Serves (Later-Inv r fresh-Inv) st (Later-Serves r)
