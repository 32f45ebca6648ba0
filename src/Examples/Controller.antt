-- ===== src/Examples/Controller.antt =====
-- The controller's theorems on the example objects.
use mathlib.Core.List.{Memᴰ}
use kvsynk8s.Base.{arith, ℕ, ◌≡◌, ◌≢◌, refl, ap, false, not, some, none, [], ◌∷◌, List, any, Option}
use kvsynk8s.Api.{SecretSync, SecretSyncStatus, Secret, in_sync, pending, failing}
use kvsynk8s.Sync.Engine.{
  up_to_date, synced_status, carried_status, settle, ownership_conflict, desired_secret,
}
use kvsynk8s.Controller.{beats, resolve_target_name, takes_precedence}
use kvsynk8s.Controller.Precedence.{Claims, NamesUnique, at_most_one_winner, exists_winner}
use kvsynk8s.Controller.Metrics.{Collected, collect, same_state}
use kvsynk8s.Controller.Metrics.Totals.{
  number_of, is_new_or_pending, is_synced, has_failed, collect-counts, collect-oldest,
}
use kvsynk8s.Controller.Reconcile.{needs_write, prior_of}
use kvsynk8s.Controller.Gate.{gate_agrees}
use kvsynk8s.Examples.{owner, rival, fresh_status, kube, clock}

abbrev both : List SecretSync
both = owner ∷ rival ∷ []

owner-Claims : Claims "db" owner
unfolding resolve_target_name
owner-Claims = record { target = refl; live = refl }

rival-Claims : Claims "db" rival
unfolding resolve_target_name
rival-Claims = record { target = refl; live = refl }

differ : owner.name ≢ rival.name
differ e = cc e

both-NamesUnique : NamesUnique "db" both
both-NamesUnique a b (Memᴰ.head p) (Memᴰ.head q) e = cc
both-NamesUnique a b (Memᴰ.head p) (Memᴰ.tail (Memᴰ.head q)) e =
    absurd (differ (cc (ap (λ x. x.name) p, ap (λ x. x.name) q, e)))
both-NamesUnique a b (Memᴰ.tail (Memᴰ.head p)) (Memᴰ.head q) e =
    absurd (differ (cc (ap (λ x. x.name) p, ap (λ x. x.name) q, e)))
both-NamesUnique a b (Memᴰ.tail (Memᴰ.head p)) (Memᴰ.tail (Memᴰ.head q)) e = cc
both-NamesUnique a b (Memᴰ.head p) (Memᴰ.tail (Memᴰ.tail m)) e = elim m [ ]
both-NamesUnique a b (Memᴰ.tail (Memᴰ.head p)) (Memᴰ.tail (Memᴰ.tail m)) e = elim m [ ]
both-NamesUnique a b (Memᴰ.tail (Memᴰ.tail m)) n e = elim m [ ]

at_most_one_winner_example : owner.name ≡ owner.name
unfolding beats takes_precedence resolve_target_name
at_most_one_winner_example =
    at_most_one_winner "db" both owner owner (Memᴰ.head refl) (Memᴰ.head refl) owner-Claims
      owner-Claims refl refl

exists_winner_example :
    (w : SecretSync) × Memᴰ w both × Claims "db" w × (any (beats w) both ≡ false)
exists_winner_example =
    exists_winner "db" owner (rival ∷ []) (owner-Claims, (rival-Claims, tt)) both-NamesUnique

abbrev settled : SecretSyncStatus × Option Secret
settled =
    (synced_status (carried_status owner) "v1" 1000, some (desired_secret owner none "s3cret" "v1"))

gate_agrees_example :
    (needs_write (prior_of kube owner none) settled.0.synced_version settled.1
      ≡ not (up_to_date kube owner none "s3cret" "v1"))
    × (settled.0.state ≡ in_sync)
    × (settled.0.synced_version ≡ "v1")
unfolding ownership_conflict settle up_to_date
gate_agrees_example = gate_agrees kube owner "s3cret" "v1" clock none [] settled refl refl

abbrev synced_at : ℕ → SecretSync
synced_at t = record owner {
  status = record fresh_status { state = in_sync; last_sync_time = some t };
}

abbrev listed : List SecretSync
listed = synced_at 900 ∷ rival ∷ synced_at 700 ∷ []

abbrev scraped : Collected
scraped = record { counts = (pending, 1) ∷ (in_sync, 2) ∷ (failing, 0) ∷ []; oldest = some 700 }

collect-counts_example :
    scraped.counts
    ≡ (pending, number_of is_new_or_pending listed)
      ∷ (in_sync, number_of is_synced listed)
      ∷ (failing, number_of has_failed listed)
      ∷ []
unfolding collect same_state
collect-counts_example = collect-counts listed scraped refl

collect-oldest_example : scraped.oldest ≡ some 700
unfolding collect same_state
collect-oldest_example =
    collect-oldest listed scraped ((λ z. omega (arith, z)), ((λ z. omega (arith, z)), tt)) refl

abbrev recovered : SecretSyncStatus
recovered = record fresh_status { state = in_sync; synced_version = "v2" }
