-- ===== src/Azure/KeyVault/Lock.antt =====
-- `clientFor` of internal/azure/keyvault.go with the mutex of its map: any number of goroutines call
-- it, and their steps interleave in any order. Between two steps of one, others may move. What
-- azsecrets.NewClient gives is left open: each call may give another client, or fail.
pub mod Kept
pub mod Atomic
use kvsynk8s.Base.{ℕ, String, ◌≡◌, Bool, true, false, Option, none, some, [], Dict, lookup, put}
use kvsynk8s.Errors.{Result, ok, err, wrap_both, leaf, Leaf}
use mathlib.Core.Logic.{ite}
use native.Mathlib.Decide.{ℕ_discrete}

-- `mu` names the goroutine that holds the mutex.
pub record Shared (C : Type 0) : Type 0 where
  pub mu : Option ℕ
  pub clients : Dict C

-- Where a goroutine stands in `clientFor`, with the vault that it asks for.
pub data Pc (C : Type 0) : Type 0 where
  outside : Pc C
  asking : String → Pc C  -- before `Lock`
  inside : String → Pc C  -- before the lookup
  missed : String → Pc C  -- before NewClient
  built : String → C → Pc C  -- before the client is stored
  leaving : String → Result C → Pc C  -- before the deferred `Unlock`
  answered : String → Result C → Pc C

module _ {C : Type 0} where
  abbrev pub no_client : Result C
  no_client = err (wrap_both (leaf Leaf.transient) (leaf Leaf.plain))

  -- A step of goroutine `i`.
  pub data Move (i : ℕ) (m : Shared C) : Pc C → Shared C → Pc C → Type 0 where
    call : (v : String) → Move i m outside m (asking v)
    lock : {v : String} → m.mu ≡ none → Move i m (asking v) (record m { mu = some i }) (inside v)
    hit :
        {v : String} {c : C}
        → lookup v m.clients ≡ some c
        → Move i m (inside v) m (leaving v (ok c))
    miss : {v : String} → lookup v m.clients ≡ none → Move i m (inside v) m (missed v)
    build : {v : String} (c : C) → Move i m (missed v) m (built v c)
    refuse : {v : String} → Move i m (missed v) m (leaving v no_client)
    store :
        {v : String} {c : C}
        → Move i m (built v c) (record m { clients = put v c m.clients }) (leaving v (ok c))
    unlock :
        {v : String} {a : Result C} → Move i m (leaving v a) (record m { mu = none }) (answered v a)
    again : {v : String} {a : Result C} → Move i m (answered v a) m outside

  -- whether the goroutine is between `Lock` and `Unlock`
  abbrev pub critical : Pc C → Bool
  critical outside = false
  critical (asking v) = false
  critical (answered v a) = false
  critical _ = true

pub record System (C : Type 0) : Type 0 where
  pub shared : Shared C
  pub pc : ℕ → Pc C

abbrev pub move_to : {C : Type 0} → (ℕ → Pc C) → ℕ → Pc C → ℕ → Pc C
move_to pc i p j = ite (ℕ_discrete i j) p (pc j)

pub data Step {C : Type 0} (s : System C) : System C → Type 0 where
  pick :
      (i : ℕ) {m : Shared C} {p : Pc C}
      → Move i s.shared (s.pc i) m p
      → Step s (record { shared = m; pc = move_to s.pc i p })

-- `NewSecretReader`: no client yet, the mutex free
abbrev pub fresh : {C : Type 0} → System C
fresh = record { shared = record { mu = none; clients = [] }; pc = λ i. outside }

pub data Later {C : Type 0} (s : System C) : System C → Type 0 where
  now : Later s s
  next : {t u : System C} → Later s t → Step t u → Later s u
