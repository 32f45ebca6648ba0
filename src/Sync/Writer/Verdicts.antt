-- ===== src/Sync/Writer/Verdicts.antt =====
-- The verdict on a write of internal/sync/writer.go: what `CreateOrUpdate` does by it, and what it
-- stores.
use kvsynk8s.Base.{sym, ap, String, ◌≡◌, refl, Bool-cases, inl, inr, Option, none, some, List}
use kvsynk8s.Api.{SecretSync, Secret, OwnerReference}
use kvsynk8s.Kube.{Kube, OwnerOutcome, owner_set, already_owned, owner_rejected, Client, Reader}
use kvsynk8s.Sync.Writer.Right.{StoredFrom}
use kvsynk8s.Sync.Writer.{
  create_or_update, create_with, writer_reader, writable, immutable_blocks_write, new_secret,
}
use kvsynk8s.Sync.Writer.Quiet.{QuietStore}
use kvsynk8s.Sync.Writer.Atomic.{
  Verdict, stores, refuses, owned_verdict, filled, verdict_over, verdict, AtTarget, Meets,
  write_target-Meets,
}

-- The same of `CreateOrUpdate` with a client and an uncached reader.
pub create_or_update-Meets :
    {W : Type 0} {c : Client W} {r : Reader W} {namespace name : String}
    (store : QuietStore c r namespace name) (k : Kube) (owner : SecretSync)
    (data_key value version : String) (w : W) (placed : AtTarget store (store.holds w))
    (refs : List OwnerReference)
    → k.set_controller_reference owner
        (filled k owner data_key value version (new_secret namespace name))
      ≡ owner_set refs
    → Meets store w (verdict k owner data_key value version namespace name (store.holds w)) (
        create_or_update k
          (record { client = some c; reader = some r })
          owner
          namespace
          name
          data_key
          value
          version
          w)
unfolding create_or_update create_with writer_reader
create_or_update-Meets store k owner data_key value version w placed refs new_owned =
    write_target-Meets store k owner data_key value version w placed refs new_owned

module _ (k : Kube) (owner : SecretSync) (namespace name data_key value version : String)
    (t : Secret) where
  abbrev From : Secret → Type 0
  From current = StoredFrom k owner namespace name data_key value version current t

  owned-From :
      (current : Secret) (o : OwnerOutcome)
      → k.set_controller_reference owner (filled k owner data_key value version current) ≡ o
      → owned_verdict o (filled k owner data_key value version current) ≡ stores t
      → From current
  owned-From current (owner_set refs) set e = (refs, set, stores_inj e)
    where
      stored_or : Verdict → Secret
      stored_or (stores s) = s
      stored_or (refuses l) = t

      stores_inj : {a : Secret} → stores a ≡ stores t → t ≡ a
      stores_inj e = sym (ap stored_or e)
  owned-From current already_owned set e = cc
  owned-From current owner_rejected set e = cc

  over-From : (s : Secret) → verdict_over k owner data_key value version s ≡ stores t → From s
  unfolding verdict_over
  over-From s = elim (Bool-cases (writable k s owner)) [
    | inr n ↦ rw n (λ e. cc)
    | inl y ↦ elim (Bool-cases (immutable_blocks_write s data_key value)) [
      | inl b ↦ rw (y, b) (λ e. cc)
      | inr f ↦ rw (y, f) (owned-From s _ refl)
    ]
  ]

  -- what the verdict stores is filled in from the Secret that was there, or from a new one
  pub verdict-From :
      (o : Option Secret)
      → verdict k owner data_key value version namespace name o ≡ stores t
      → (current : Secret) × From current
  unfolding verdict
  verdict-From none e = (new_secret namespace name, owned-From (new_secret namespace name) _ refl e)
  verdict-From (some s) e = (s, over-From s e)
