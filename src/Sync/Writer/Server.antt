-- ===== src/Sync/Writer/Server.antt =====
-- The API server among other writers. Between two calls, and before a call is served, anyone may
-- change the cluster, and the cache may answer with an older copy; what is relied on is the API
-- server's optimistic concurrency. A trace that is honest about it stays so.
use mathlib.Core.List.{Memᴰ}
use kvsynk8s.Base.{String, ◌≡◌, refl, ap, ◌⊎◌, inl, inr, List, [], ◌∷◌}
use kvsynk8s.Errors.{Result, ok, err}
use kvsynk8s.Exec.Keeps.{Keeps}
use kvsynk8s.Api.{Secret}
use kvsynk8s.Kube.{Client, Reader}
use kvsynk8s.Sync.Writer.Trace.{
  Call, looked, created, updated, Traced, start, traced, traced_reader, log_look,
}
use kvsynk8s.Sync.Writer.Keeps.{CallsKeep}

-- The documented behaviour of the API server. `had w s`: some object was stored as `s` by the time
-- of `w`. `replaced w`: the updates through this client that were accepted, each with the object
-- that it replaced.
pub record ApiServer {W : Type 0} (c : Client W) (r : Reader W) : Type 1 where
  pub had : W → Secret → Type 0
  pub replaced : W → List (Secret × Secret)
  -- a resource version is given to one object once
  pub versions_unique :
      (w : W) (a b : Secret) → had w a → had w b → a.resource_version ≡ b.resource_version → a ≡ b
  pub history_grows : (s : Secret) → CallsKeep (λ w. had w s) c r
  -- an answer was stored once, though it need not be stored still
  pub cached_was_stored :
      (namespace name : String) (w : W) (s : Secret)
      → (c.get_secret namespace name w).0 ≡ ok s
      → had (c.get_secret namespace name w).1 s
  pub read_was_stored :
      (namespace name : String) (w : W) (s : Secret)
      → (r.get_secret namespace name w).0 ≡ ok s
      → had (r.get_secret namespace name w).1 s
  -- only an update replaces, and only an object at the version that the request carries
  pub gets_replace_none :
      (namespace name : String) (w : W) → replaced (c.get_secret namespace name w).1 ≡ replaced w
  pub reads_replace_none :
      (namespace name : String) (w : W) → replaced (r.get_secret namespace name w).1 ≡ replaced w
  pub creates_replace_none : (s : Secret) (w : W) → replaced (c.create_secret s w).1 ≡ replaced w
  pub updates_replace :
      (s : Secret) (w : W)
      → (replaced (c.update_secret s w).1 ≡ replaced w)
        ⊎ ((old : Secret) × had (c.update_secret s w).1 old
            × (old.resource_version ≡ s.resource_version)
            × (replaced (c.update_secret s w).1 ≡ (old, s) ∷ replaced w))

module _ {W : Type 0} (c : Client W) (r : Reader W) (server : ApiServer c r) where
  -- an accepted update: what it replaced was stored, at the version that the request carried
  pub record IsBacked (w : W) (calls : List Call) (p : Secret × Secret) : Type 0 where
    pub stored : server.had w p.0
    pub version : p.0.resource_version ≡ p.1.resource_version
    pub asked : Memᴰ (updated p.1) calls

  pub record IsHonest (t : Traced W) : Type 0 where
    pub seen : (s : Secret) → Memᴰ (looked s) t.calls → server.had t.world s
    pub backed :
        (p : Secret × Secret) → Memᴰ p (server.replaced t.world) → IsBacked t.world t.calls p

  -- a call that adds to the history and to the trace, and replaces nothing
  grown :
      (t : Traced W) (v : W) (added : Call)
      → ((s : Secret) → server.had t.world s → server.had v s)
      → server.replaced v ≡ server.replaced t.world
      → ((s : Secret) → looked s ≡ added → server.had v s)
      → IsHonest t
      → IsHonest (record { world = v; calls = added ∷ t.calls })
  grown t v added grows same new h = record {
    seen = λ s m. seen s m;
    backed = λ p m. backed p (rw same at m);
  }
    where
      seen : (s : Secret) → Memᴰ (looked s) (added ∷ t.calls) → server.had v s
      seen s (Memᴰ.head e) = new s e
      seen s (Memᴰ.tail m) = grows s (h.seen s m)

      backed :
          (p : Secret × Secret) → Memᴰ p (server.replaced t.world) → IsBacked v (added ∷ t.calls) p
      backed p m = record {
        stored = grows p.0 ((h.backed p m).stored);
        version = (h.backed p m).version;
        asked = Memᴰ.tail ((h.backed p m).asked);
      }

  -- a call that leaves no trace
  silent :
      (t : Traced W) (v : W)
      → ((s : Secret) → server.had t.world s → server.had v s)
      → server.replaced v ≡ server.replaced t.world
      → IsHonest t
      → IsHonest (record { world = v; calls = t.calls })
  silent t v grows same h = record {
    seen = λ s m. grows s (h.seen s m);
    backed = λ p m.
        let b = h.backed p (rw same at m) in
        record { stored = grows p.0 b.stored; version = b.version; asked = b.asked };
  }

  looking-IsHonest :
      (t : Traced W) (a : Result Secret) (v : W)
      → ((s : Secret) → server.had t.world s → server.had v s)
      → server.replaced v ≡ server.replaced t.world
      → ((s : Secret) → a ≡ ok s → server.had v s)
      → IsHonest t
      → IsHonest (record { world = v; calls = log_look a t.calls })
  looking-IsHonest t (ok s) v grows same new h =
      grown t v (looked s) grows same
        (λ u e. let same_secret : s ≡ u = cc e in new u (ap ok same_secret)) h
  looking-IsHonest t (err e) v grows same new h = silent t v grows same h

  updating-IsHonest : (s : Secret) → Keeps IsHonest ((traced c).update_secret s)
  updating-IsHonest s = record {
    at = λ t h.
        let v = (c.update_secret s t.world).1 in
        let grows : (u : Secret) → server.had t.world u → server.had v u =
          λ u. ((server.history_grows u).updates s).at t.world in
        elim (server.updates_replace s t.world) [
          | inl same ↦ grown t v (updated s) grows same (λ u e. cc) h
          | inr (old, was, version, more) ↦ record {
            seen = λ u m. seen t v grows h u m;
            backed = λ p m. backed t v old grows was version h p (rw more at m);
          }
        ];
  }
    where
      seen :
          (t : Traced W) (v : W)
          → ((u : Secret) → server.had t.world u → server.had v u)
          → IsHonest t
          → (u : Secret) → Memᴰ (looked u) (updated s ∷ t.calls)
          → server.had v u
      seen t v grows h u (Memᴰ.head e) = cc
      seen t v grows h u (Memᴰ.tail m) = grows u (h.seen u m)

      backed :
          (t : Traced W) (v : W) (old : Secret)
          → ((u : Secret) → server.had t.world u → server.had v u)
          → server.had v old
          → old.resource_version ≡ s.resource_version
          → IsHonest t
          → (p : Secret × Secret) → Memᴰ p ((old, s) ∷ server.replaced t.world)
          → IsBacked v (updated s ∷ t.calls) p
      backed t v old grows was version h p (Memᴰ.head e) =
          rw e (record { stored = was; version = version; asked = Memᴰ.head refl })
      backed t v old grows was version h p (Memᴰ.tail m) =
          let b = h.backed p m in
          record { stored = grows p.0 b.stored; version = b.version; asked = Memᴰ.tail b.asked }

  pub calls-IsHonest : CallsKeep IsHonest (traced c) (traced_reader r)
  calls-IsHonest = record {
    gets = λ ns name. record {
      at = λ t h.
          looking-IsHonest t (c.get_secret ns name t.world).0 (c.get_secret ns name t.world).1
            (λ s. ((server.history_grows s).gets ns name).at t.world)
            (server.gets_replace_none ns name t.world) (server.cached_was_stored ns name t.world) h;
    };
    creates = λ s. record {
      at = λ t h.
          grown t (c.create_secret s t.world).1 (created s)
            (λ u. ((server.history_grows u).creates s).at t.world)
            (server.creates_replace_none s t.world) (λ u e. cc) h;
    };
    updates = updating-IsHonest;
    reads = λ ns name. record {
      at = λ t h.
          looking-IsHonest t (r.get_secret ns name t.world).0 (r.get_secret ns name t.world).1
            (λ s. ((server.history_grows s).reads ns name).at t.world)
            (server.reads_replace_none ns name t.world) (server.read_was_stored ns name t.world) h;
    };
  }

  pub start-IsHonest : (w : W) → server.replaced w ≡ [] → IsHonest (start w)
  start-IsHonest w e = record {
    seen = λ s m. elim m [ ];
    backed = λ p m. absurd (no_member p (rw e at m));
  }
    where
      no_member : (p : Secret × Secret) → Memᴰ p [] → ⊥
      no_member p m = elim m [ ]
