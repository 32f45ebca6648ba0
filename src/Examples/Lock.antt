-- ===== src/Examples/Lock.antt =====
-- Two goroutines that ask for a client of one vault. A client is a number.
use kvsynk8s.Base.{ℕ, ◌≡◌, refl, true, none, some, lookup, put, ◌⊎◌, Dict, List, [], ◌∷◌}
use kvsynk8s.Errors.{ok}
use native.Mathlib.Decide.{ℕ_discrete}
use kvsynk8s.Azure.KeyVault.{Sdk, Bundle, bundle}
use kvsynk8s.Azure.KeyVault.Lock.Atomic.{Serves, service_of, Later-Serves}
use kvsynk8s.Azure.KeyVault.Lock.{
  answered, call, lock, hit, miss, build, store, unlock, critical, System, move_to, pick, fresh,
  Later, now, next, asking, inside, missed, built, leaving, Pc, Shared,
}
use kvsynk8s.Azure.KeyVault.Lock.Kept.{CanMove, one_client, mutual_exclusion}

abbrev held_by : ℕ → Dict ℕ → Shared ℕ
held_by i clients = record { mu = some i; clients = clients }

abbrev free : Dict ℕ → Shared ℕ
free clients = record { mu = none; clients = clients }

abbrev kept : Dict ℕ
kept = put "prod" 7 []

-- the program counters after goroutine `i` has gone through some places, the first one first
abbrev through : (ℕ → Pc ℕ) → ℕ → List (Pc ℕ) → ℕ → Pc ℕ
through pc i [] = pc
through pc i (p ∷ ps) = through (move_to pc i p) i ps

abbrev first : System ℕ
first = record {
  shared = free kept;
  pc = through fresh.pc 0 (
      asking "prod"
      ∷ inside "prod"
      ∷ missed "prod"
      ∷ built "prod" 7
      ∷ leaving "prod" (ok 7)
      ∷ answered "prod" (ok 7)
      ∷ []);
}

first-Later : Later fresh first
unfolding ℕ_discrete lookup put
first-Later =
    next
      (next
        (next
          (next (next (next now (pick 0 (call "prod"))) (pick 0 (lock refl))) (pick 0 (miss refl)))
          (pick 0 (build 7)))
        (pick 0 store))
      (pick 0 unlock)

abbrev second_inside : System ℕ
second_inside = record {
  shared = held_by 1 kept;
  pc = through first.pc 1 (asking "prod" ∷ inside "prod" ∷ []);
}

second_inside-Later : Later first second_inside
unfolding ℕ_discrete
second_inside-Later = next (next now (pick 1 (call "prod"))) (pick 1 (lock refl))

abbrev second : System ℕ
second = record {
  shared = free kept;
  pc = through second_inside.pc 1 (leaving "prod" (ok 7) ∷ answered "prod" (ok 7) ∷ []);
}

second-Later : Later first second
unfolding ℕ_discrete lookup put
second-Later = next (next second_inside-Later (pick 1 (hit refl))) (pick 1 unlock)

abbrev nothing : Bundle
nothing = record { enabled = none; value = none; version = none }

-- its clients are numbers, and there is no vault behind them
abbrev sdk : Sdk ℕ (Unit {0})
sdk = record {
  new_client = λ endpoint unchecked. none;
  get_secret = λ c name version w. (bundle nothing, w);
  unmarshal_body = λ bytes. none;
  endpoint_override = "";
  log = λ line w. w;
}

Later-Serves_example : Serves sdk (service_of fresh) (service_of first)
Later-Serves_example = Later-Serves sdk first-Later

one_client_example : ◌≡◌ {A = ℕ} 7 7
unfolding ℕ_discrete
one_client_example =
    one_client {s = first} {t = second} {i = 0} {j = 1} {v = "prod"} first-Later second-Later refl
      refl

mutual_exclusion_example :
    ((i j : ℕ) → critical (first.pc i) ≡ true → critical (first.pc j) ≡ true → i ≡ j)
    × ((first.shared.mu ≡ none)
        ⊎ ((i : ℕ) × (first.shared.mu ≡ some i)
            × (critical (first.pc i) ≡ true)
            × CanMove first.shared i (first.pc i)))
mutual_exclusion_example = mutual_exclusion {s = first} first-Later
