-- ===== src/Sync/Writer/Concurrency.antt =====
-- The writer among other writers, on the API server of Sync/Writer/Server.
use mathlib.Core.List.{Memᴰ}
use mathlib.Core.Path.{subst}
use kvsynk8s.Base.{String, ◌≡◌, sym, ◌∙◌, ap, true, false, Option, none, some, List, [], ◌∷◌}
use kvsynk8s.Api.{SecretSync, Secret}
use kvsynk8s.Kube.{Kube, Client, Reader}
use kvsynk8s.Sync.Writer.{
  writable, immutable_blocks_write, populate_managed_secret, SecretWriter, writer_reader,
  create_or_update,
}
use kvsynk8s.Sync.Writer.Trace.{
  Call, looked, updated, Traced, start, traced, traced_reader, traced_writer,
}
use kvsynk8s.Sync.Writer.Right.{AllRight, IsRight, StoredFrom}
use kvsynk8s.Sync.Writer.Safety.{create_or_update-AllRight}
use kvsynk8s.Sync.Writer.Server.{ApiServer, IsHonest, calls-IsHonest, start-IsHonest}
use kvsynk8s.Sync.Writer.Keeps.{create_or_update-Keeps}

module _ (k : Kube) (owner : SecretSync) (namespace name data_key value version : String) where
  -- what the writer may replace by `new`
  abbrev pub Replaceable : Secret → Secret → Type 0
  Replaceable old new =
      (writable k old owner ≡ true)
      × (immutable_blocks_write old data_key value ≡ false)
      × StoredFrom k owner namespace name data_key value version old new

  abbrev Right : List Call → Type 0
  Right = AllRight k owner namespace name data_key value version

  -- the copy from which a request was made
  copy_of :
      (new : Secret) (calls : List Call)
      → Right calls
      → Memᴰ (updated new) calls
      → (current : Secret) × Memᴰ (looked current) calls × Replaceable current new
  copy_of new [] h m = elim m [ ]
  copy_of new (call ∷ calls) h (Memᴰ.head e) =
      let right : IsRight k owner namespace name data_key value version (updated new) calls =
        subst (λ x. IsRight k owner namespace name data_key value version x calls) (sym e) h.0 in
      let (current, seen, w, free, from) = right in (current, Memᴰ.tail seen, (w, free, from))
  copy_of new (call ∷ calls) h (Memᴰ.tail m) =
      let (current, seen, ok_to) = copy_of new calls h.1 m in (current, Memᴰ.tail seen, ok_to)

  stored_version :
      (current new : Secret)
      → StoredFrom k owner namespace name data_key value version current new
      → new.resource_version ≡ current.resource_version
  unfolding populate_managed_secret
  stored_version current new (refs, set, e) = ap (λ s. s.resource_version) e

  honest-Replaceable :
      {W : Type 0} (c : Client W) (r : Reader W) (server : ApiServer c r) (t : Traced W)
      (old new : Secret)
      → IsHonest c r server t
      → Right t.calls
      → Memᴰ (old, new) (server.replaced t.world)
      → Replaceable old new
  honest-Replaceable c r server t old new h right m =
      let backed = h.backed (old, new) m in
      let (current, seen, ok_to) = copy_of new t.calls right backed.asked in
      let same : current ≡ old =
        server.versions_unique t.world current old (h.seen current seen) backed.stored
          (sym (stored_version current new ok_to.2) ∙ sym backed.version) in
      rw same at ok_to

  -- However other writers, and a cache that lags, come between its calls: an object that an accepted
  -- update of `CreateOrUpdate` replaces was writable for the owner and not held by immutability as
  -- it was when it was replaced, and the new object is the managed shape of just that one.
  pub replaced-Replaceable :
      {W : Type 0} (c : Client W) (r : Option (Reader W)) (server : ApiServer c (writer_reader c r))
      (w : W) (old new : Secret)
      → server.replaced w ≡ []
      → Memᴰ
          (old, new)
          (server.replaced
            (create_or_update k
              (traced_writer (record { client = some c; reader = r }))
              owner
              namespace
              name
              data_key
              value
              version
              (start w)).1.world)
      → Replaceable old new
  unfolding writer_reader
  replaced-Replaceable c none server w old new e =
      let writer : SecretWriter _ = record { client = some c; reader = none } in
      let run =
        create_or_update k (traced_writer writer) owner namespace name data_key value version
          (start w) in
      honest-Replaceable c (record { get_secret = c.get_secret }) server run.1 old new
        ((create_or_update-Keeps k (traced c) none owner namespace name data_key value version
            (calls-IsHonest c (record { get_secret = c.get_secret }) server)).at
          (start w) (start-IsHonest c (record { get_secret = c.get_secret }) server w e))
        (create_or_update-AllRight k owner namespace name data_key value version writer w).0
  replaced-Replaceable c (some r) server w old new e =
      let writer : SecretWriter _ = record { client = some c; reader = some r } in
      let run =
        create_or_update k (traced_writer writer) owner namespace name data_key value version
          (start w) in
      honest-Replaceable c r server run.1 old new
        ((create_or_update-Keeps k (traced c) (some (traced_reader r)) owner namespace name data_key
            value version (calls-IsHonest c r server)).at
          (start w) (start-IsHonest c r server w e))
        (create_or_update-AllRight k owner namespace name data_key value version writer w).0
