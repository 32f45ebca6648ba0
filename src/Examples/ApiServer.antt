-- ===== src/Examples/ApiServer.antt =====
-- An API server with one object, the history of what was stored, and another writer who may store a
-- labeled Secret just before an update is served.
use kvsynk8s.Base.{
  ℕ, zero, suc, ◌<◌, String, ◌≡◌, refl, sym, ◌∙◌, ap, ◌⊎◌, inl, inr, Bool, true, false, Bool-cases,
  List, [], ◌∷◌, length, str_eq, eq_iff, arith,
}
use kvsynk8s.Errors.{Result, ok, err, leaf, api, not_found, already_exists, conflict}
use kvsynk8s.Api.{Secret}
use kvsynk8s.Kube.{Client, Reader}
use kvsynk8s.Sync.Writer.Server.{ApiServer}
use kvsynk8s.Examples.{foreign}

-- the text of a resource version
unfoldable pub version_of : ℕ → String
version_of zero = ""
version_of (suc n) = String.◌∷◌ "|" (version_of n)

-- the object that was stored when `n` were stored before it
abbrev pub stamped : ℕ → Secret → Secret
stamped n s = record s { resource_version = version_of n }

version_of-inj : (m n : ℕ) → version_of m ≡ version_of n → m ≡ n
unfolding version_of
version_of-inj zero zero e = refl
version_of-inj zero (suc n) e = cc
version_of-inj (suc m) zero e = cc
version_of-inj (suc m) (suc n) e = ap suc (version_of-inj m n (cc))

-- `s` is in the history, the latest first
pub data Had : List Secret → Secret → Type 0 where
  latest : {c s : Secret} {past : List Secret} → s ≡ stamped (length past) c → Had (c ∷ past) s
  earlier : {c s : Secret} {past : List Secret} → Had past s → Had (c ∷ past) s

Had-version :
    {past : List Secret} {s : Secret}
    → Had past s
    → (n : ℕ) × (n < length past) × (s.resource_version ≡ version_of n)
Had-version (latest {past = past} e) = (length past, omega arith, ap (λ s. s.resource_version) e)
Had-version (earlier h) = let (n, below, e) = Had-version h in (n, omega arith, e)

pub Had-unique :
    (past : List Secret) (a b : Secret)
    → Had past a
    → Had past b
    → a.resource_version ≡ b.resource_version
    → a ≡ b
Had-unique [] a b h g e = elim h [ ]
Had-unique (c ∷ past) a b (latest p) (latest q) e = p ∙ sym q
Had-unique (c ∷ past) a b (latest p) (earlier g) e =
    let (n, below, v) = Had-version g in
    let same = version_of-inj (length past) n (sym (ap (λ s. s.resource_version) p) ∙ e ∙ v) in
    absurd (omega arith)
Had-unique (c ∷ past) a b (earlier h) (latest q) e =
    let (n, below, v) = Had-version h in
    let same = version_of-inj n (length past) (sym v ∙ e ∙ ap (λ s. s.resource_version) q) in
    absurd (omega arith)
Had-unique (c ∷ past) a b (earlier h) (earlier g) e = Had-unique past a b h g e

pub record Etcd : Type 0 where
  pub past : List Secret
  pub replaced : List (Secret × Secret)
  -- the other writer is about to store
  pub meddled : Bool

abbrev pub labeled_one : Secret
labeled_one = record foreign { labels = ("app.kubernetes.io/managed-by", "kvsynk8s") ∷ [] }

abbrev pub newest : List Secret → Result Secret
newest [] = err (leaf (api not_found))
newest (c ∷ past) = ok (stamped (length past) c)

abbrev pub insert : Secret → Etcd → List Secret → Result (Unit {0}) × Etcd
insert s w [] = (ok tt, record w { past = s ∷ [] })
insert s w (c ∷ past) = (err (leaf (api already_exists)), w)

abbrev pub accept : Bool → Secret → Secret → List Secret → Etcd → Result (Unit {0}) × Etcd
accept true s c past w = (
  ok tt,
  record w {
    past = s ∷ c ∷ past;
    replaced = (stamped (length past) c, s) ∷ w.replaced;
    meddled = false;
  },
)
accept false s c past w = (err (leaf (api conflict)), record w { past = c ∷ past; meddled = false })

abbrev pub replace : Secret → Etcd → List Secret → Result (Unit {0}) × Etcd
replace s w [] = (err (leaf (api not_found)), w)
replace s w (c ∷ past) = accept (str_eq s.resource_version (version_of (length past))) s c past w

abbrev pub meddle : Bool → List Secret → List Secret
meddle true past = labeled_one ∷ past
meddle false past = past

abbrev pub etcd : Client Etcd
etcd = record {
  get_secret = λ ns name w. (newest w.past, w);
  create_secret = λ s w. insert s w w.past;
  update_secret = λ s w. replace s w (meddle w.meddled w.past);
  delete_secret = λ s w. (ok tt, w);
  list_secrets = λ ns key value w. (ok [], w);
}

abbrev pub etcd_reader : Reader Etcd
etcd_reader = record { get_secret = λ ns name w. (newest w.past, w) }

pub newest-Had : (past : List Secret) (s : Secret) → newest past ≡ ok s → Had past s
newest-Had [] s e = cc
newest-Had (c ∷ past) s e = latest (cc)

pub meddle-Had : (b : Bool) (past : List Secret) (u : Secret) → Had past u → Had (meddle b past) u
meddle-Had true past u h = earlier h
meddle-Had false past u h = h

pub insert-Had :
    (s u : Secret) (w : Etcd) (past : List Secret)
    → w.past ≡ past
    → Had past u
    → Had (insert s w past).1.past u
insert-Had s u w [] e h = elim h [ ]
insert-Had s u w (c ∷ past) e h = rw e h

accept-Had :
    (b : Bool) (s c u : Secret) (past : List Secret) (w : Etcd)
    → Had (c ∷ past) u
    → Had (accept b s c past w).1.past u
accept-Had true s c u past w h = earlier h
accept-Had false s c u past w h = h

pub replace-Had :
    (s u : Secret) (w : Etcd) (past : List Secret) → Had past u → Had (replace s w past).1.past u
replace-Had s u w [] h = elim h [ ]
replace-Had s u w (c ∷ past) h = accept-Had _ s c u past w h

pub insert-replaced :
    (s : Secret) (w : Etcd) (past : List Secret) → (insert s w past).1.replaced ≡ w.replaced
insert-replaced s w [] = refl
insert-replaced s w (c ∷ past) = refl

-- what an update replaces
abbrev pub Replaces : Secret → Etcd → Etcd → Type 0
Replaces s w v =
    (v.replaced ≡ w.replaced)
    ⊎ ((old : Secret) × Had v.past old
        × (old.resource_version ≡ s.resource_version)
        × (v.replaced ≡ (old, s) ∷ w.replaced))

pub replace-Replaces :
    (s : Secret) (w : Etcd) (past : List Secret) → Replaces s w (replace s w past).1
replace-Replaces s w [] = inl refl
replace-Replaces s w (c ∷ past) =
    elim (Bool-cases (str_eq s.resource_version (version_of (length past)))) [
      | inl y ↦ rw y (
          inr (
            stamped (length past) c,
            earlier (latest refl),
            sym ((eq_iff s.resource_version (version_of (length past))).0 y),
            refl,
          ))
      | inr n ↦ rw n (inl refl)
    ]

unfoldable pub etcd_server : ApiServer etcd etcd_reader
etcd_server = record {
  had = λ w. Had w.past;
  replaced = λ w. w.replaced;
  versions_unique = λ w. Had-unique w.past;
  history_grows = λ u. record {
    gets = λ ns name. record { at = λ w h. h };
    creates = λ s. record { at = λ w h. insert-Had s u w w.past refl h };
    updates = λ s. record {
      at = λ w h. replace-Had s u w (meddle w.meddled w.past) (meddle-Had w.meddled w.past u h);
    };
    reads = λ ns name. record { at = λ w h. h };
  };
  cached_was_stored = λ ns name w s e. newest-Had w.past s e;
  read_was_stored = λ ns name w s e. newest-Had w.past s e;
  gets_replace_none = λ ns name w. refl;
  reads_replace_none = λ ns name w. refl;
  creates_replace_none = λ s w. insert-replaced s w w.past;
  updates_replace = λ s w. replace-Replaces s w (meddle w.meddled w.past);
}
