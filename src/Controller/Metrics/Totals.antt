-- ===== src/Controller/Metrics/Totals.antt =====
-- What a scrape shows of the SecretSyncs that are listed.
use kvsynk8s.Base.{
  ℕ, zero, suc, ◌+◌, ◌≡◌, ◌≢◌, refl, sym, ◌∙◌, ap, Bool, true, false, Bool-cases, inl, inr, Option,
  none, some, List, [], ◌∷◌, length, select, All, if◌then◌else◌, ltb, arith,
}
use kvsynk8s.Api.{SecretSync, SecretSyncState, unset, pending, in_sync, failing}
use kvsynk8s.Controller.Metrics.{
  StateCounts, same_state, count_state, no_counts, older, older_of, collect_from, Collected,
  emitted, collect,
}

abbrev pub is_new_or_pending : SecretSyncState → Bool
is_new_or_pending unset = true
is_new_or_pending pending = true
is_new_or_pending _ = false

abbrev pub is_synced : SecretSyncState → Bool
is_synced in_sync = true
is_synced _ = false

abbrev pub has_failed : SecretSyncState → Bool
has_failed failing = true
has_failed _ = false

-- the number of objects in such a state
abbrev pub number_of : (SecretSyncState → Bool) → List SecretSync → ℕ
number_of p items = length (select (λ ss. p ss.status.state) items)

-- the three series, with `p`, `i` and `f` counted already
abbrev series : ℕ → ℕ → ℕ → StateCounts
series p i f = (pending, p) ∷ (in_sync, i) ∷ (failing, f) ∷ []

series_eq : {p q i j f g : ℕ} → p ≡ q → i ≡ j → f ≡ g → series p i f ≡ series q j g
series_eq a b c = rw (a, b, c) refl

-- from such counts on, the loop adds the numbers of the list
abbrev AddsNumbers : List SecretSync → Type 0
AddsNumbers items =
    (p i f o : ℕ)
    → (collect_from (series p i f) o items).0
      ≡ series (p + number_of is_new_or_pending items) (i + number_of is_synced items)
          (f + number_of has_failed items)

counted_first :
    (x : SecretSync) (xs : List SecretSync) (s : SecretSyncState)
    → x.status.state ≡ s
    → AddsNumbers xs
    → AddsNumbers (x ∷ xs)
unfolding collect_from count_state same_state
counted_first x xs unset e h p i f o =
    rw e (h (p + 1) i f _ ∙ series_eq (omega arith) (omega arith) (omega arith))
counted_first x xs pending e h p i f o =
    rw e (h (p + 1) i f _ ∙ series_eq (omega arith) (omega arith) (omega arith))
counted_first x xs in_sync e h p i f o =
    rw e (h p (i + 1) f _ ∙ series_eq (omega arith) (omega arith) (omega arith))
counted_first x xs failing e h p i f o =
    rw e (h p i (f + 1) _ ∙ series_eq (omega arith) (omega arith) (omega arith))

collect_from-AddsNumbers : (items : List SecretSync) → AddsNumbers items
unfolding collect_from
collect_from-AddsNumbers [] p i f o = series_eq (omega arith) (omega arith) (omega arith)
collect_from-AddsNumbers (x ∷ xs) p i f o =
    counted_first x xs x.status.state refl (collect_from-AddsNumbers xs) p i f o

-- A scrape shows three per-state series and no other, each with the number of listed SecretSyncs in
-- its state, where an object that has no state yet counts as Pending.
pub collect-counts :
    (items : List SecretSync) (c : Collected)
    → collect (some items) ≡ some c
    → c.counts
      ≡ (pending, number_of is_new_or_pending items)
        ∷ (in_sync, number_of is_synced items)
        ∷ (failing, number_of has_failed items)
        ∷ []
unfolding collect
collect-counts items c e =
    let got : (collect_from no_counts 0 items).0 ≡ c.counts = cc e in
    sym got
    ∙ collect_from-AddsNumbers items 0 0 0 0
    ∙ series_eq (omega arith) (omega arith) (omega arith)

-- the last successful syncs of the objects that are InSync
abbrev when_synced : SecretSyncState → Option ℕ → List ℕ → List ℕ
when_synced in_sync (some t) ts = t ∷ ts
when_synced _ _ ts = ts

abbrev pub synced_times : List SecretSync → List ℕ
synced_times [] = []
synced_times (x ∷ xs) = when_synced x.status.state x.status.last_sync_time (synced_times xs)

abbrev lesser : ℕ → ℕ → ℕ
lesser a b = if ltb b a then b else a

abbrev earlier : Option ℕ → Option ℕ → Option ℕ
earlier none b = b
earlier (some a) none = some a
earlier (some a) (some b) = some (lesser a b)

-- the least of the times, if there are any
abbrev pub earliest : List ℕ → Option ℕ
earliest [] = none
earliest (t ∷ ts) = earlier (some t) (earliest ts)

earlier_assoc : (a b c : Option ℕ) → earlier (earlier a b) c ≡ earlier a (earlier b c)
earlier_assoc none b c = refl
earlier_assoc (some a) none c = refl
earlier_assoc (some a) (some b) none = refl
earlier_assoc (some a) (some b) (some c) = ap some (ground arith)

older-earlier : (o t : ℕ) → t ≢ 0 → emitted (older o (some t)) ≡ earlier (emitted o) (some t)
unfolding older emitted
older-earlier o zero n = absurd (n refl)
older-earlier zero (suc t) n = refl
older-earlier (suc o) (suc t) n = elim (Bool-cases (ltb (suc t) (suc o))) [
  | inl y ↦ rw y refl
  | inr m ↦ rw m refl
]

-- from a running minimum on, the loop takes the earliest of the list into account
abbrev KeepsLeast : List SecretSync → Type 0
KeepsLeast items =
    (c : StateCounts) (o : ℕ)
    → emitted (collect_from c o items).1 ≡ earlier (emitted o) (earliest (synced_times items))

earlier_first :
    (x : SecretSync) (xs : List SecretSync) (s : SecretSyncState) (when : Option ℕ)
    → x.status.state ≡ s
    → x.status.last_sync_time ≡ when
    → All (λ t. t ≢ 0) (when_synced s when (synced_times xs))
    → KeepsLeast xs
    → KeepsLeast (x ∷ xs)
unfolding collect_from older_of older
earlier_first x xs in_sync (some t) e w n h c o =
    rw (e, w)
      (h _ (older o (some t))
        ∙ ap (λ a. earlier a (earliest (synced_times xs))) (older-earlier o t n.0)
        ∙ earlier_assoc (emitted o) (some t) (earliest (synced_times xs)))
earlier_first x xs in_sync none e w n h c o = rw (e, w) (h _ o)
earlier_first x xs unset when e w n h c o = rw e (h _ o)
earlier_first x xs pending when e w n h c o = rw e (h _ o)
earlier_first x xs failing when e w n h c o = rw e (h _ o)

later_times :
    (s : SecretSyncState) (when : Option ℕ) (ts : List ℕ)
    → All (λ t. t ≢ 0) (when_synced s when ts)
    → All (λ t. t ≢ 0) ts
later_times in_sync (some t) ts h = h.1
later_times in_sync none ts h = h
later_times unset when ts h = h
later_times pending when ts h = h
later_times failing when ts h = h

earlier-none : (a : Option ℕ) → earlier a none ≡ a
earlier-none none = refl
earlier-none (some a) = refl

collect_from-KeepsLeast :
    (items : List SecretSync) → All (λ t. t ≢ 0) (synced_times items) → KeepsLeast items
unfolding collect_from
collect_from-KeepsLeast [] n c o = sym (earlier-none (emitted o))
collect_from-KeepsLeast (x ∷ xs) n c o =
    earlier_first x xs x.status.state x.status.last_sync_time refl refl n
      (collect_from-KeepsLeast xs
        (later_times x.status.state x.status.last_sync_time (synced_times xs) n))
      c o

-- The oldest successful sync that a scrape shows is the earliest of those of the listed SecretSyncs
-- that are InSync, and it shows none when none of these has one; no such time is taken to be 0, the
-- start of 1970.
pub collect-oldest :
    (items : List SecretSync) (c : Collected)
    → All (λ t. t ≢ 0) (synced_times items)
    → collect (some items) ≡ some c
    → c.oldest ≡ earliest (synced_times items)
unfolding collect emitted
collect-oldest items c n e =
    let got : emitted (collect_from no_counts 0 items).1 ≡ c.oldest = cc e in
    sym got ∙ collect_from-KeepsLeast items n no_counts 0
