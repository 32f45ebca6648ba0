-- ===== src/Sync/Writer/Safety.antt =====
-- The requests that internal/sync/writer.go sends in all, given the calls before them.
use mathlib.Core.List.{Memᴰ}
use kvsynk8s.Base.{String, ◌≡◌, refl, Bool-cases, inl, inr, Option, none, some, List, ◌∷◌}
use kvsynk8s.Errors.{Result, ok, err, errors_is, is_not_found, is_already_exists}
use kvsynk8s.Exec.{continue}
use kvsynk8s.Api.{SecretSync, Secret}
use kvsynk8s.Kube.{Kube, OwnerOutcome, owner_set, already_owned, owner_rejected, Client, Reader}
use kvsynk8s.Sync.Writer.{
  writable, populate_managed_secret, new_secret, update_current, recover_already_exists,
  answer_create, store_create, create, answer_get, write_target, SecretWriter, writer_reader,
  create_with, create_or_update,
}
use kvsynk8s.Sync.Writer.Trace.{
  Call, created, Traced, start, traced, traced_reader, traced_reader_option, traced_writer,
  after_look, after_wrapped_look,
}
use kvsynk8s.Sync.Writer.Right.{Written, AllRight, Good, update-AllRight}

module _ (k : Kube) (owner : SecretSync) (namespace name data_key value version : String) where
  abbrev Right : List Call → Type 0
  Right = AllRight k owner namespace name data_key value version

  module _ {W : Type 0} (c : Client W) (r : Reader W) where
    abbrev Ends : Result (Unit {0}) × Traced W → Type 0
    Ends = Good k owner namespace name data_key value version c r

    abbrev EndsAfter : (Traced W → Result (Unit {0}) × Traced W) → Traced W → Type 0
    EndsAfter m t = Ends (m t)

    recover_already_exists-AllRight :
        (t : Traced W)
        → Right t.calls
        → EndsAfter
            (recover_already_exists k
              (traced c)
              (traced_reader r)
              owner
              namespace
              name
              data_key
              value
              version)
            t
    unfolding recover_already_exists
    recover_already_exists-AllRight t h =
        after_wrapped_look Ends (r.get_secret namespace name)
          (continue (update_current k (traced c) (traced_reader r) owner data_key value version)) t
          (λ e w. (h, tt))
          λ s w. elim (Bool-cases (writable k s owner)) [
            | inl y ↦ rw y (
                update-AllRight k owner namespace name data_key value version c r s _
                  (Memᴰ.head refl) y (tt, h))
            | inr n ↦ rw n ((tt, h), tt)
          ]

    answer_create-AllRight :
        (a : Result (Unit {0})) (t : Traced W)
        → Right t.calls
        → Written a t.calls
        → EndsAfter
            (answer_create k
              (traced c)
              (traced_reader r)
              owner
              namespace
              name
              data_key
              value
              version
              a)
            t
    unfolding answer_create
    answer_create-AllRight (ok _) t h e = (h, e)
    answer_create-AllRight (err x) t h e = elim (Bool-cases (errors_is is_already_exists x)) [
      | inl y ↦ rw y (recover_already_exists-AllRight t h)
      | inr n ↦ rw n (h, tt)
    ]

    Written-after :
        (s : Secret) (cs : List Call) (a : Result (Unit {0})) → Written a (created s ∷ cs)
    Written-after s cs (ok _) = tt
    Written-after s cs (err e) = tt

    store_create-AllRight :
        (o : OwnerOutcome) (t : Traced W)
        → let s =
            populate_managed_secret (new_secret namespace name) owner data_key value version in
          k.set_controller_reference owner s ≡ o
          → Right t.calls
          → EndsAfter
              (store_create k
                (traced c)
                (traced_reader r)
                owner
                namespace
                name
                data_key
                value
                version
                o
                s)
              t
    unfolding store_create
    store_create-AllRight (owner_set refs) t set h =
        let s = populate_managed_secret (new_secret namespace name) owner data_key value version in
        let stored = record s { owner_references = refs } in
        let sent = c.create_secret stored t.world in
        let after : Traced W = record { world = sent.1; calls = created stored ∷ t.calls } in
        answer_create-AllRight sent.0 after ((refs, set, refl), h)
          (Written-after stored t.calls sent.0)
    store_create-AllRight already_owned t set h = (h, tt)
    store_create-AllRight owner_rejected t set h = (h, tt)

    create-AllRight :
        (t : Traced W)
        → Right t.calls
        → EndsAfter
            (create k (traced c) (traced_reader r) owner namespace name data_key value version)
            t
    unfolding create
    create-AllRight t h = store_create-AllRight _ t refl h

    pub write_target-AllRight :
        (t : Traced W)
        → Right t.calls
        → EndsAfter
            (write_target k
              (traced c)
              (traced_reader r)
              owner
              namespace
              name
              data_key
              value
              version)
            t
    unfolding write_target answer_get
    write_target-AllRight t h =
        after_look Ends (c.get_secret namespace name)
          (answer_get k (traced c) (traced_reader r) owner namespace name data_key value version) t
          (λ e w. elim (Bool-cases (errors_is is_not_found e)) [
            | inl y ↦ rw y (create-AllRight _ h)
            | inr n ↦ rw n (h, tt)
          ])
          λ s w. elim (Bool-cases (writable k s owner)) [
            | inl y ↦ rw y (
                update-AllRight k owner namespace name data_key value version c r s _
                  (Memᴰ.head refl) y (tt, h))
            | inr n ↦ rw n ((tt, h), tt)
          ]

  create_with-AllRight :
      {W : Type 0} (c : Option (Client W)) (r : Option (Reader W)) (w : W)
      → let p =
          create_with k
            (traced_writer (record { client = c; reader = r })).client
            (traced_writer (record { client = c; reader = r })).reader
            owner
            namespace
            name
            data_key
            value
            version
            (start w) in
        Right p.1.calls × Written p.0 p.1.calls
  unfolding create_with writer_reader
  create_with-AllRight none r w = (tt, tt)
  create_with-AllRight (some c) none w =
      write_target-AllRight c (record { get_secret = c.get_secret }) (start w) tt
  create_with-AllRight (some c) (some r) w = write_target-AllRight c r (start w) tt

  -- Whatever the cluster answers, each request that `create_or_update` sends is right: a created
  -- Secret is the managed shape of a new one with the name asked for; an updated Secret is the
  -- managed shape of a copy that a Get had answered before, that was writable for this owner and
  -- not held by immutability; none is deleted. If the result is a success, the last call was such
  -- a write.
  pub create_or_update-AllRight :
      {W : Type 0} (w : SecretWriter W) (world : W)
      → let p =
          create_or_update k
            (traced_writer w)
            owner
            namespace
            name
            data_key
            value
            version
            (start world) in
        AllRight k owner namespace name data_key value version p.1.calls × Written p.0 p.1.calls
  unfolding create_or_update
  create_or_update-AllRight w world = create_with-AllRight w.client w.reader world

  -- after other calls that were right
  pub create_or_update_after-AllRight :
      {W : Type 0} (c : Client W) (r : Option (Reader W)) (t : Traced W)
      → Right t.calls
      → Right
          (create_or_update k
            (record { client = some (traced c); reader = traced_reader_option r })
            owner
            namespace
            name
            data_key
            value
            version
            t).1.calls
  unfolding create_or_update create_with writer_reader
  create_or_update_after-AllRight c none t h =
      (write_target-AllRight c (record { get_secret = c.get_secret }) t h).0
  create_or_update_after-AllRight c (some r) t h = (write_target-AllRight c r t h).0
