-- ===== src/Sync/Writer/Tally.antt =====
-- How many requests `CreateOrUpdate` can send.
use kvsynk8s.Base.{ℕ, ◌+◌, ◌≤◌, String, some, arith}
use kvsynk8s.Exec.{Exec}
use kvsynk8s.Exec.Costs.{Costs}
use kvsynk8s.Api.{SecretSync}
use kvsynk8s.Kube.{Kube, Client, Reader}
use kvsynk8s.Sync.Writer.{write_target, writer_reader, create_with, create_or_update}
use kvsynk8s.Sync.Writer.Bounded.{CallsCost, write_target-Costs}

-- how many requests were sent, of each kind
pub record Tally (W : Type 0) : Type 0 where
  pub world : W
  pub gets : ℕ
  pub reads : ℕ
  pub creates : ℕ
  pub updates : ℕ

module _ {W : Type 0} where
  abbrev tallied : {A : Type 0} → (Tally W → Tally W) → Exec W A → Exec (Tally W) A
  tallied count m t = let (a, w) = m t.world in (a, record (count t) { world = w })

  abbrev pub tallied_client : Client W → Client (Tally W)
  tallied_client c = record {
    get_secret = λ ns name. tallied (λ t. record t { gets = 1 + t.gets }) (c.get_secret ns name);
    create_secret = λ s. tallied (λ t. record t { creates = 1 + t.creates }) (c.create_secret s);
    update_secret = λ s. tallied (λ t. record t { updates = 1 + t.updates }) (c.update_secret s);
    delete_secret = λ s. tallied (λ t. t) (c.delete_secret s);
    list_secrets = λ ns key value. tallied (λ t. t) (c.list_secrets ns key value);
  }

  abbrev pub tallied_reader : Reader W → Reader (Tally W)
  tallied_reader r = record {
    get_secret = λ ns name. tallied (λ t. record t { reads = 1 + t.reads }) (r.get_secret ns name);
  }

  abbrev pub none_sent : W → Tally W
  none_sent w = record { world = w; gets = 0; reads = 0; creates = 0; updates = 0 }

-- `CreateOrUpdate` gives up after one recovery of each kind: whatever the cluster answers, it has
-- sent at most one cached Get, one Create, two fresh reads and two Updates when it returns. An
-- uncached reader is taken to be wired.
pub create_or_update-stops :
    {W : Type 0} (k : Kube) (c : Client W) (r : Reader W) (owner : SecretSync)
    (namespace name data_key value version : String) (w : W)
    → let done =
        (create_or_update k
          (record { client = some (tallied_client c); reader = some (tallied_reader r) })
          owner
          namespace
          name
          data_key
          value
          version
          (none_sent w)).1 in
      (done.gets ≤ 1) × (done.creates ≤ 1) × (done.reads ≤ 2) × (done.updates ≤ 2)
unfolding create_or_update create_with writer_reader
create_or_update-stops {W = W} k c r owner namespace name data_key value version w = (
  (spent (λ t. t.gets) 1 0 0 0
        (record {
          gets = λ ns n. record { at = λ t. omega arith };
          reads = λ ns n. record { at = λ t. omega arith };
          creates = λ s. record { at = λ t. omega arith };
          updates = λ s. record { at = λ t. omega arith };
        })).at
      (none_sent w),
  (spent (λ t. t.creates) 0 0 1 0
        (record {
          gets = λ ns n. record { at = λ t. omega arith };
          reads = λ ns n. record { at = λ t. omega arith };
          creates = λ s. record { at = λ t. omega arith };
          updates = λ s. record { at = λ t. omega arith };
        })).at
      (none_sent w),
  (spent (λ t. t.reads) 0 1 0 0
        (record {
          gets = λ ns n. record { at = λ t. omega arith };
          reads = λ ns n. record { at = λ t. omega arith };
          creates = λ s. record { at = λ t. omega arith };
          updates = λ s. record { at = λ t. omega arith };
        })).at
      (none_sent w),
  (spent (λ t. t.updates) 0 0 0 1
        (record {
          gets = λ ns n. record { at = λ t. omega arith };
          reads = λ ns n. record { at = λ t. omega arith };
          creates = λ s. record { at = λ t. omega arith };
          updates = λ s. record { at = λ t. omega arith };
        })).at
      (none_sent w),
)
  where
    spent :
        (size : Tally W → ℕ) (get fresh made put : ℕ)
        → CallsCost size (tallied_client c) (tallied_reader r) get fresh made put
        → Costs size (get + (made + (fresh + (put + (fresh + put))))) (
            write_target k
              (tallied_client c)
              (tallied_reader r)
              owner
              namespace
              name
              data_key
              value
              version)
    spent size get fresh made put costs =
        write_target-Costs k (tallied_client c) (tallied_reader r) costs owner data_key value
          version namespace name
