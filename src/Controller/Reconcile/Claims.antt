-- ===== src/Controller/Reconcile/Claims.antt =====
-- The claims of SecretSyncs on one target, as a reconcile sees them.
use mathlib.Core.List.{Memᴰ}
use kvsynk8s.Base.{
  ◌≡◌, ◌≢◌, sym, Bool, true, false, Bool-cases, inl, inr, some, List, [], ◌∷◌, str_eq, eq_iff, any,
  arith,
}
use kvsynk8s.Errors.{ok}
use kvsynk8s.Api.{SecretSync}
use kvsynk8s.Kube.{SyncClient, Deadline}
use kvsynk8s.Controller.{takes_precedence, beats, defeated, resolve_target_name}

-- what a claim is decided by
pub record SameClaim (a b : SecretSync) : Type 0 where
  pub namespace : a.namespace ≡ b.namespace
  pub name : a.name ≡ b.name
  pub spec : a.spec ≡ b.spec
  pub creation_timestamp : a.creation_timestamp ≡ b.creation_timestamp

-- `z` is shown in every listing of its namespace, and there it is not defeated.
pub record Champion {W : Type 0} (c : SyncClient W) (z : SecretSync) : Type 0 where
  pub listed :
      (w v : W) (items : List SecretSync)
      → c.list_syncs (some z.namespace) w ≡ (ok items, v)
      → (y : SecretSync) × Memᴰ y items
        × SameClaim y z
        × (defeated y.status.state y.status.reason ≡ false)
  -- a status update gives back the object with its claim
  pub updated :
      (d : Deadline) (ss u : SecretSync) (w v : W)
      → c.update_sync_status d ss w ≡ (ok u, v)
      → SameClaim u ss

-- another object of the namespace of `z` that claims the target of `z`, later
pub record Rival (z ss : SecretSync) : Type 0 where
  pub namespace : ss.namespace ≡ z.namespace
  pub target : resolve_target_name ss ≡ resolve_target_name z
  pub other : ss.name ≢ z.name
  pub later : takes_precedence z ss ≡ true

pub any-true :
    (p : SecretSync → Bool) (x : SecretSync) (xs : List SecretSync)
    → Memᴰ x xs
    → p x ≡ true
    → any p xs ≡ true
any-true p x [] m h = elim m [ ]
any-true p x (y ∷ ys) (Memᴰ.head e) h = let first : p y ≡ true = rw e at h in rw first
any-true p x (y ∷ ys) (Memᴰ.tail m) h = ground (arith, any-true p x ys m h)

-- the claim decides who beats whom
pub beats-Rival :
    (z y ss a : SecretSync)
    → Rival z ss
    → SameClaim y z
    → defeated y.status.state y.status.reason ≡ false
    → SameClaim a ss
    → beats a y ≡ true
unfolding beats resolve_target_name takes_precedence
beats-Rival z y ss a rival same live kept =
    rw
      (
        live, same.name, same.spec, same.creation_timestamp, kept.name, kept.spec,
        kept.creation_timestamp,
      )
      (elim (Bool-cases (str_eq z.name ss.name)) [
        | inl e ↦ absurd (rival.other (sym ((eq_iff z.name ss.name).0 e)))
        | inr n ↦ ground (
          arith,
          rival.target,
          rival.later,
          n,
          eq_iff (resolve_target_name z) (resolve_target_name ss),
        )
      ])
