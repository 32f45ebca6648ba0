-- ===== src/Sync/Writer/Right.antt =====
-- When a request of internal/sync/writer.go is right, given the calls before it, and the requests
-- of an update.
use mathlib.Core.List.{Memᴰ}
use kvsynk8s.Base.{String, ◌≡◌, refl, true, false, Bool-cases, inl, inr, List, [], ◌∷◌}
use kvsynk8s.Errors.{Err, Result, ok, err, errors_is, is_conflict, is_invalid}
use kvsynk8s.Exec.{continue, rewrap}
use kvsynk8s.Api.{SecretSync, Secret}
use kvsynk8s.Kube.{Kube, OwnerOutcome, owner_set, already_owned, owner_rejected, Client, Reader}
use kvsynk8s.Sync.Writer.{
  writable, populate_managed_secret, immutable_blocks_write, new_secret, store_update, apply_update,
  fresh_copy, rewrite_current, recover_conflict, settle_invalid, classify_invalid, answer_update,
  update,
}
use kvsynk8s.Sync.Writer.Trace.{
  Call, looked, created, updated, deleted, Traced, traced, traced_reader, after_look,
  after_wrapped_look,
}

-- The latest call is a write.
abbrev pub EndsInWrite : List Call → Type 0
EndsInWrite (created s ∷ cs) = Unit
EndsInWrite (updated s ∷ cs) = Unit
EndsInWrite _ = ⊥

abbrev pub Written : Result (Unit {0}) → List Call → Type 0
Written (ok _) cs = EndsInWrite cs
Written (err e) cs = Unit

module _ (k : Kube) (owner : SecretSync) (namespace name data_key value version : String) where
  -- The Secret that is stored for the copy `s`, with the owner reference put on it.
  abbrev pub StoredFrom : Secret → Secret → Type 0
  StoredFrom s stored =
      let filled = populate_managed_secret s owner data_key value version in
      (refs : _) × (k.set_controller_reference owner filled ≡ owner_set refs)
      × (stored ≡ record filled { owner_references = refs })

  -- A request is right, given the calls before it.
  abbrev pub IsRight : Call → List Call → Type 0
  IsRight (looked s) before = Unit
  IsRight (created s) before = StoredFrom (new_secret namespace name) s
  IsRight (updated s) before =
      (current : Secret) × Memᴰ (looked current) before
      × (writable k current owner ≡ true)
      × (immutable_blocks_write current data_key value ≡ false)
      × StoredFrom current s
  IsRight (deleted s) before = ⊥

  abbrev pub AllRight : List Call → Type 0
  AllRight [] = Unit
  AllRight (c ∷ cs) = IsRight c cs × AllRight cs

  module _ {W : Type 0} (c : Client W) (r : Reader W) where
    -- The requests are right, and a success ends in a write.
    abbrev pub Good : Result (Unit {0}) × Traced W → Type 0
    Good p = AllRight p.1.calls × Written p.0 p.1.calls

    abbrev pub IsRightAfter : (Traced W → Result (Unit {0}) × Traced W) → Traced W → Type 0
    IsRightAfter m t = Good (m t)

    pub rewrap-Good :
        (a : Result (Unit {0})) (t : Traced W)
        → AllRight t.calls
        → EndsInWrite t.calls
        → Good (rewrap a t)
    rewrap-Good (ok _) t h e = (h, e)
    rewrap-Good (err _) t h e = (h, tt)

    store_update-AllRight :
        (o : OwnerOutcome) (e : Secret) (t : Traced W)
        → k.set_controller_reference owner (populate_managed_secret e owner data_key value version)
          ≡ o
        → Memᴰ (looked e) t.calls
        → writable k e owner ≡ true
        → immutable_blocks_write e data_key value ≡ false
        → AllRight t.calls
        → IsRightAfter
            (store_update k
              (traced c)
              (traced_reader r)
              o
              (populate_managed_secret e owner data_key value version))
            t
    unfolding store_update
    store_update-AllRight (owner_set refs) e t set seen w free h =
        let filled = populate_managed_secret e owner data_key value version in
        let stored = record filled { owner_references = refs } in
        let sent = c.update_secret stored t.world in
        rewrap-Good sent.0 (record { world = sent.1; calls = updated stored ∷ t.calls })
          ((e, seen, w, free, (refs, set, refl)), h) tt
    store_update-AllRight already_owned e t set seen w free h = (h, tt)
    store_update-AllRight owner_rejected e t set seen w free h = (h, tt)

    apply_update-AllRight :
        (e : Secret) (t : Traced W)
        → Memᴰ (looked e) t.calls
        → writable k e owner ≡ true
        → AllRight t.calls
        → IsRightAfter
            (apply_update k (traced c) (traced_reader r) owner e data_key value version)
            t
    unfolding apply_update
    apply_update-AllRight e t seen w h =
        elim (Bool-cases (immutable_blocks_write e data_key value)) [
          | inl b ↦ rw b (h, tt)
          | inr b ↦ rw b (store_update-AllRight _ e t refl seen w b h)
        ]

    pub recover_conflict-AllRight :
        (place called : String) (t : Traced W)
        → AllRight t.calls
        → IsRightAfter
            (recover_conflict k
              (traced c)
              (traced_reader r)
              owner
              place
              called
              data_key
              value
              version)
            t
    unfolding recover_conflict fresh_copy
    recover_conflict-AllRight place called t h =
        after_wrapped_look Good (r.get_secret place called)
          (continue (rewrite_current k (traced c) (traced_reader r) owner data_key value version)) t
          (λ e w. (h, tt))
          λ s w. elim (Bool-cases (writable k s owner)) [
            | inl y ↦ rw y (apply_update-AllRight s _ (Memᴰ.head refl) y (tt, h))
            | inr n ↦ rw n ((tt, h), tt)
          ]

    classify_invalid-AllRight :
        (place called : String) (e : Err) (t : Traced W)
        → AllRight t.calls
        → IsRightAfter
            (classify_invalid k (traced c) (traced_reader r) place called data_key value e)
            t
    unfolding classify_invalid fresh_copy
    classify_invalid-AllRight place called e t h =
        after_look Good (r.get_secret place called)
          (settle_invalid k (traced c) (traced_reader r) data_key value e) t (λ e w. (h, tt))
          λ s w. elim (Bool-cases (immutable_blocks_write s data_key value)) [
            | inl y ↦ rw y ((tt, h), tt)
            | inr n ↦ rw n ((tt, h), tt)
          ]

    answer_update-AllRight :
        (e : Secret) (a : Result (Unit {0})) (t : Traced W)
        → Good (a, t)
        → IsRightAfter
            (answer_update k (traced c) (traced_reader r) owner e data_key value version a)
            t
    unfolding answer_update
    answer_update-AllRight e (ok _) t h = h
    answer_update-AllRight e (err x) t h = elim (Bool-cases (errors_is is_conflict x)) [
      | inl y ↦ rw y (recover_conflict-AllRight e.namespace e.name t h.0)
      | inr n ↦ rw n (elim (Bool-cases (errors_is is_invalid x)) [
        | inl y ↦ rw y (classify_invalid-AllRight e.namespace e.name x t h.0)
        | inr m ↦ rw m (h.0, tt)
      ])
    ]

    pub update-AllRight :
        (e : Secret) (t : Traced W)
        → Memᴰ (looked e) t.calls
        → writable k e owner ≡ true
        → AllRight t.calls
        → IsRightAfter (update k (traced c) (traced_reader r) owner e data_key value version) t
    unfolding update
    update-AllRight e t seen w h = answer_update-AllRight e _ _ (apply_update-AllRight e t seen w h)
