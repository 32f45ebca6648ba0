-- ===== src/Azure/KeyVault/Contract.antt =====
-- What the engine and the controller rely on of the reader of Key Vault.
use kvsynk8s.Base.{
  String, ◌≡◌, ◌≢◌, refl, true, Bool-cases, inl, inr, Option, none, some, Dict, lookup, put,
  lookup-put, lookup-put_self, eq_iff, arith,
}
use kvsynk8s.Errors.{Err, Result, ok, err, errors_is}
use kvsynk8s.Azure.KeyVault.Sentinels.{
  is_classified, is_sentinel-classified, classify_sentinel-IsSentinel, disabled,
}
use kvsynk8s.Azure.KeyVault.{
  classify_get_secret_error, Sdk, Answer, refused, bundle, Vaults, client_for, kept_or_made, made,
  connect, read_answer, read_with, get_latest, value_of, secret_is_disabled,
}

module _ {C : Type 0} {W : Type 0} (sdk : Sdk C W) where
  abbrev IsClassified : Result (String × String) → Type 0
  IsClassified (ok _) = Unit
  IsClassified (err e) = is_classified e ≡ true

  value_of-IsClassified : (v n : Option String) → IsClassified (value_of sdk v n)
  unfolding errors_is
  value_of-IsClassified none n = refl
  value_of-IsClassified (some v) none = tt
  value_of-IsClassified (some v) (some n) = tt

  read_answer-IsClassified :
      (clients : Dict C) (vault secret : String) (a : Answer) (w : W)
      → IsClassified (read_answer sdk clients vault secret a w).0
  unfolding read_answer classify_get_secret_error
  read_answer-IsClassified clients vault secret (refused e) w =
      is_sentinel-classified _ (classify_sentinel-IsSentinel sdk.unmarshal_body e)
  read_answer-IsClassified clients vault secret (bundle b) w =
      elim (Bool-cases (secret_is_disabled b.enabled)) [
        | inl y ↦ rw y (is_sentinel-classified _ disabled)
        | inr n ↦ rw n (value_of-IsClassified b.value b.version)
      ]

  abbrev IsMade : Result C → Type 0
  IsMade (ok _) = Unit
  IsMade (err e) = is_classified e ≡ true

  made-classified :
      (clients : Dict C) (vault : String) (o : Option C) → IsMade (made sdk clients vault o).0
  unfolding errors_is
  made-classified clients vault none = refl
  made-classified clients vault (some c) = tt

  kept_or_made-classified :
      (clients : Dict C) (vault : String) (o : Option C)
      → IsMade (kept_or_made sdk clients vault o).0
  unfolding kept_or_made
  kept_or_made-classified clients vault (some c) = tt
  kept_or_made-classified clients vault none = made-classified clients vault (connect sdk vault)

  client_for-classified :
      (clients : Dict C) (vault : String) → IsMade (client_for sdk clients vault).0
  unfolding client_for
  client_for-classified clients vault = kept_or_made-classified clients vault (lookup vault clients)

  read_with-IsClassified :
      (kept : Dict C) (vault secret : String) (c : Result C) (w : W)
      → IsMade c
      → IsClassified (read_with sdk kept vault secret c w).0
  unfolding read_with
  read_with-IsClassified kept vault secret (err e) w h = h
  read_with-IsClassified kept vault secret (ok c) w h =
      let (a, v) = sdk.get_secret c secret "" w in read_answer-IsClassified kept vault secret a v

  get_latest-IsClassified :
      (vault secret : String) (s : Vaults C W) → IsClassified (get_latest sdk vault secret s).0
  unfolding get_latest
  get_latest-IsClassified vault secret (clients, w) =
      read_with-IsClassified _ vault secret _ w (client_for-classified clients vault)

  -- Every error of `GetLatest`, from wherever it comes, is one of the five sentinels to `errors.Is`.
  pub get_latest_err-classified :
      (vault secret : String) (s : Vaults C W) (e : Err)
      → (get_latest sdk vault secret s).0 ≡ err e
      → is_classified e ≡ true
  get_latest_err-classified vault secret s e h = rw h at (get_latest-IsClassified vault secret s)

  module _ (clients kept : Dict C) (vault other : String) (c : C) where
    -- the state after a client was given: it holds that client, and the others as before
    abbrev IsKept : Type 0
    IsKept = (lookup vault kept ≡ some c) × (lookup other kept ≡ lookup other clients)

    made-kept : (o : Option C) → made sdk clients vault o ≡ (ok c, kept) → other ≢ vault → IsKept
    made-kept none h n = cc
    made-kept (some d) h n =
        let same : put vault d clients ≡ kept = cc h in
        let got : d ≡ c = cc h in
        rw (← same, lookup-put_self vault d clients, got)
          (refl, ground (arith, lookup-put vault other c clients, eq_iff vault other, n))

    found-kept :
        (o : Option C)
        → lookup vault clients ≡ o
        → kept_or_made sdk clients vault o ≡ (ok c, kept)
        → other ≢ vault
        → IsKept
    unfolding kept_or_made
    found-kept (some d) e h n =
        let same : clients ≡ kept = cc h in
        let got : d ≡ c = cc h in rw (← same, e, got) (refl, refl)
    found-kept none e h n = made-kept (connect sdk vault) h n

    -- A client once given is kept: asking again gives the same client and makes no other, and the
    -- clients of the other vaults stay as they were.
    client_for-kept :
        client_for sdk clients vault ≡ (ok c, kept)
        → other ≢ vault
        → (client_for sdk kept vault ≡ (ok c, kept)) × (lookup other kept ≡ lookup other clients)
    unfolding client_for kept_or_made
    client_for-kept h n =
        let (holds, rest) = found-kept (lookup vault clients) refl h n in (rw holds refl, rest)
