-- ===== src/Azure/KeyVault/Lock/Kept.antt =====
-- The mutex keeps the goroutines apart, and so each vault has one client.
use kvsynk8s.Base.{
  ℕ, String, ◌≡◌, ◌≢◌, refl, true, none, some, Dict, lookup, put, lookup-put, lookup-put_self,
  eq_iff, arith, Option-cases, ◌⊎◌, inl, inr,
}
use kvsynk8s.Errors.{ok, err}
use mathlib.Core.Logic.{ite}
use native.Mathlib.Decide.{ℕ_discrete}
use kvsynk8s.Azure.KeyVault.Lock.{
  Shared, Pc, outside, asking, inside, missed, built, leaving, answered, Move, call, lock, hit,
  miss, build, refuse, store, unlock, again, critical, System, move_to, Step, pick, fresh, Later,
  now, next,
}

module _ {C : Type 0} where
  -- what a goroutine knows of the map
  abbrev pub Knows : Dict C → Pc C → Type 0
  Knows clients (missed v) = lookup v clients ≡ none
  Knows clients (built v c) = lookup v clients ≡ none
  Knows clients (leaving v (ok c)) = lookup v clients ≡ some c
  Knows clients (answered v (ok c)) = lookup v clients ≡ some c
  Knows clients _ = Unit

  abbrev Holds : Shared C → ℕ → Pc C → Type 0
  Holds m j p = critical p ≡ true → m.mu ≡ some j

  pub record Inv (s : System C) : Type 0 where
    holder : (j : ℕ) → Holds s.shared j (s.pc j)
    held : (j : ℕ) → s.shared.mu ≡ some j → critical (s.pc j) ≡ true
    pub knows : (j : ℕ) → Knows s.shared.clients (s.pc j)

  -- the goroutine that moves
  Move-own :
      (i : ℕ) {m m' : Shared C} {p p' : Pc C}
      → Move i m p m' p'
      → Holds m i p
      → Knows m.clients p
      → Holds m' i p' × Knows m'.clients p'
  Move-own i (call v) h k = (h, tt)
  Move-own i (lock free) h k = (λ c. refl, tt)
  Move-own i (hit e) h k = (h, e)
  Move-own i (miss e) h k = (h, e)
  Move-own i (build c) h k = (h, k)
  Move-own i refuse h k = (h, tt)
  Move-own i {m} (store {v = v} {c = c}) h k = (h, lookup-put_self v c m.clients)
  Move-own i (unlock {a = ok c}) h k = (λ e. cc, k)
  Move-own i (unlock {a = err e}) h k = (λ e. cc, tt)
  Move-own i again h k = (h, tt)

  -- two goroutines cannot both hold the mutex
  apart : (m : Shared C) (i j : ℕ) {K : Type 0} → i ≢ j → m.mu ≡ some i → m.mu ≡ some j → K
  apart m i j n h g = absurd (n (cc (h, g)))

  -- a client is stored only where none was
  put-Knows :
      (clients : Dict C) (v : String) (c : C) (q : Pc C)
      → lookup v clients ≡ none
      → critical q ≢ true
      → Knows clients q
      → Knows (put v c clients) q
  put-Knows clients v c (leaving u (ok d)) e n k = absurd (n refl)
  put-Knows clients v c (answered u (ok d)) e n k =
      ground (arith, lookup-put v u c clients, eq_iff v u, e, k)
  put-Knows clients v c (missed u) e n k = absurd (n refl)
  put-Knows clients v c (built u d) e n k = absurd (n refl)
  put-Knows clients v c outside e n k = tt
  put-Knows clients v c (asking u) e n k = tt
  put-Knows clients v c (inside u) e n k = tt
  put-Knows clients v c (leaving u (err x)) e n k = tt
  put-Knows clients v c (answered u (err x)) e n k = tt

  -- the others
  Move-other :
      (i : ℕ) {m m' : Shared C} {p p' : Pc C}
      → Move i m p m' p'
      → Holds m i p
      → Knows m.clients p
      → (j : ℕ) (q : Pc C) → i ≢ j
      → Holds m j q
      → Knows m.clients q
      → Holds m' j q × Knows m'.clients q
  Move-other i (lock free) h k j q n hq kq = (λ c. cc (hq c, free), kq)
  Move-other i {m} (store {v = v} {c = c}) h k j q n hq kq =
      (hq, put-Knows m.clients v c q k (λ e. apart m i j n (h refl) (hq e)) kq)
  Move-other i {m} unlock h k j q n hq kq = (λ c. apart m i j n (h refl) (hq c), kq)
  Move-other i (call v) h k j q n hq kq = (hq, kq)
  Move-other i (hit e) h k j q n hq kq = (hq, kq)
  Move-other i (miss e) h k j q n hq kq = (hq, kq)
  Move-other i (build c) h k j q n hq kq = (hq, kq)
  Move-other i refuse h k j q n hq kq = (hq, kq)
  Move-other i again h k j q n hq kq = (hq, kq)

  -- the mutex is held by a goroutine that will give it back
  Move-held :
      (i : ℕ) {m m' : Shared C} {p p' : Pc C}
      → Move i m p m' p'
      → (m.mu ≡ some i → critical p ≡ true)
      → (m'.mu ≡ some i → critical p' ≡ true) × ((j : ℕ) → i ≢ j → m'.mu ≡ some j → m.mu ≡ some j)
  Move-held i (lock free) h = (λ e. refl, λ j n e. absurd (n (cc e)))
  Move-held i unlock h = (λ e. cc, λ j n e. cc)
  Move-held i (call v) h = (h, λ j n e. e)
  Move-held i (hit x) h = (h, λ j n e. e)
  Move-held i (miss x) h = (h, λ j n e. e)
  Move-held i (build c) h = (h, λ j n e. e)
  Move-held i refuse h = (h, λ j n e. e)
  Move-held i store h = (h, λ j n e. e)
  Move-held i again h = (h, λ j n e. e)

  Step-Inv : {s t : System C} → Step s t → Inv s → Inv t
  Step-Inv {s = s} (pick i {m} {p} mv) inv = record {
    holder = λ j. (each j).0;
    held = still;
    knows = λ j. (each j).1;
  }
    where
      each : (j : ℕ) → Holds m j (move_to s.pc i p j) × Knows m.clients (move_to s.pc i p j)
      each j =
          elim (ℕ_discrete i j)
            as (λ d. Holds m j (ite d p (s.pc j)) × Knows m.clients (ite d p (s.pc j))) [
              | yes e ↦ rw (← e) (Move-own i mv (inv.holder i) (inv.knows i))
              | no n ↦
                  Move-other i mv (inv.holder i) (inv.knows i) j (s.pc j) n (inv.holder j)
                    (inv.knows j)
            ]

      still : (j : ℕ) → m.mu ≡ some j → critical (move_to s.pc i p j) ≡ true
      still j e = elim (ℕ_discrete i j) as (λ d. critical (ite d p (s.pc j)) ≡ true) [
        | yes q ↦ (Move-held i mv (inv.held i)).0 (rw q e)
        | no n ↦ inv.held j ((Move-held i mv (inv.held i)).1 j n e)
      ]

  pub fresh-Inv : Inv (fresh {C = C})
  fresh-Inv = record { holder = λ j c. cc; held = λ j e. cc; knows = λ j. tt }

  pub Later-Inv : {s t : System C} → Later s t → Inv s → Inv t
  Later-Inv now inv = inv
  Later-Inv (next r st) inv = Step-Inv st (Later-Inv r inv)

  -- a client that is kept stays
  Move-stays :
      (i : ℕ) {m m' : Shared C} {p p' : Pc C}
      → Move i m p m' p'
      → Knows m.clients p
      → (v : String) (c : C) → lookup v m.clients ≡ some c
      → lookup v m'.clients ≡ some c
  Move-stays i {m} (store {v = u} {c = d}) k v c e =
      ground (arith, lookup-put u v d m.clients, eq_iff u v, k, e)
  Move-stays i (lock free) k v c e = e
  Move-stays i unlock k v c e = e
  Move-stays i (call u) k v c e = e
  Move-stays i (hit x) k v c e = e
  Move-stays i (miss x) k v c e = e
  Move-stays i (build d) k v c e = e
  Move-stays i refuse k v c e = e
  Move-stays i again k v c e = e

  Later-stays :
      {s t : System C}
      → Inv s
      → Later s t
      → (v : String) (c : C) → lookup v s.shared.clients ≡ some c
      → lookup v t.shared.clients ≡ some c
  Later-stays inv now v c e = e
  Later-stays inv (next r (pick i mv)) v c e =
      Move-stays i mv ((Later-Inv r inv).knows i) v c (Later-stays inv r v c e)

  -- Each vault has one client for good: two goroutines that were given clients for one vault, the
  -- second then or at any later time, were given the same one.
  pub one_client :
      {s t : System C} {i j : ℕ} {v : String} {c d : C}
      → Later fresh s
      → Later s t
      → s.pc i ≡ answered v (ok c)
      → t.pc j ≡ answered v (ok d)
      → c ≡ d
  one_client {s = s} {t = t} {i = i} {j = j} {v = v} {c = c} {d = d} r l p q =
      let early = Later-Inv r fresh-Inv in
      let late = Later-Inv l early in
      let kept : lookup v s.shared.clients ≡ some c = rw p at (early.knows i) in
      let found : lookup v t.shared.clients ≡ some d = rw q at (late.knows j) in
      cc (Later-stays early l v c kept, found)

  abbrev pub CanMove : Shared C → ℕ → Pc C → Type 0
  CanMove m i p = (m' : Shared C) × (p' : Pc C) × Move i m p m' p'

  critical-CanMove : (m : Shared C) (i : ℕ) (p : Pc C) → critical p ≡ true → CanMove m i p
  critical-CanMove m i outside h = cc
  critical-CanMove m i (asking v) h = cc
  critical-CanMove m i (answered v a) h = cc
  critical-CanMove m i (inside v) h = elim (Option-cases (lookup v m.clients)) [
    | inl e ↦ (_, _, miss e)
    | inr (c, e) ↦ (_, _, hit e)
  ]
  critical-CanMove m i (missed v) h = (_, _, refuse)
  critical-CanMove m i (built v c) h = (_, _, store)
  critical-CanMove m i (leaving v a) h = (_, _, unlock)

  -- At most one goroutine at a time is between `Lock` and `Unlock`; and the mutex is free, or the
  -- goroutine that holds it can take a step, so none waits for ever on one that is stuck or has left
  -- without giving the mutex back.
  pub mutual_exclusion :
      {s : System C}
      → Later fresh s
      → ((i j : ℕ) → critical (s.pc i) ≡ true → critical (s.pc j) ≡ true → i ≡ j)
        × ((s.shared.mu ≡ none)
            ⊎ ((i : ℕ) × (s.shared.mu ≡ some i)
                × (critical (s.pc i) ≡ true)
                × CanMove s.shared i (s.pc i)))
  mutual_exclusion {s = s} r =
      let inv = Later-Inv r fresh-Inv in
      (
        λ i j p q. cc (inv.holder i p, inv.holder j q),
        elim (Option-cases s.shared.mu) [
          | inl free ↦ inl free
          | inr (i, e) ↦
              inr (i, e, inv.held i e, critical-CanMove s.shared i (s.pc i) (inv.held i e))
        ],
      )
