-- ===== src/Azure/KeyVault/Sentinels.antt =====
-- The sentinels that the reader of Key Vault gives to an error, and what the engine and the
-- controller make of them.
use kvsynk8s.Base.{
  String, ltb, leb, ℕ, ◌≡◌, refl, Bool, true, false, ◌&&◌, ◌||◌, Bool-cases, Option-cases, inl, inr,
  Option, none, some, List, str_eq, arith, if◌then◌else◌, ◌==◌,
}
use kvsynk8s.Errors.{
  Err, leaf, wrap, Leaf, errors_is, is_secret_not_found, is_access_denied, is_auth_failure,
  is_secret_disabled, is_transient,
}
use kvsynk8s.Api.{SecretSync, reason_text}
use kvsynk8s.Sync.Engine.{classify_reader_error}
use kvsynk8s.Controller.{retried_with_backoff}
use kvsynk8s.Azure.KeyVault.{
  ErrorBody, ResponseError, SdkError, AuthenticationFailed, credential_failed, auth_failure_kind,
  classify_response, classify_sentinel, is_disabled_secret_response, classification_name,
}

-- The five sentinels: what they say to `errors.Is`.
pub data IsSentinel : Leaf → Type 0 where
  not_found : IsSentinel Leaf.secret_not_found
  denied : IsSentinel Leaf.access_denied
  no_token : IsSentinel Leaf.auth_failure
  disabled : IsSentinel Leaf.secret_disabled
  temporary : IsSentinel Leaf.transient

-- an error that `errors.Is` finds to be just one of the sentinels
abbrev pub is_classified : Err → Bool
is_classified e =
    errors_is is_secret_not_found e
    || errors_is is_access_denied e
    || errors_is is_auth_failure e
    || errors_is is_secret_disabled e
    || errors_is is_transient e

classify_response-IsSentinel :
    (unmarshal : List ℕ → Option ErrorBody) (r : ResponseError)
    → IsSentinel (classify_response unmarshal r)
unfolding classify_response
classify_response-IsSentinel unmarshal r =
    elim (Bool-cases (is_disabled_secret_response unmarshal r)) [
      | inl y ↦ rw y disabled
      | inr n ↦ rw n (elim (Bool-cases (r.status_code == 404)) [
        | inl y ↦ rw y not_found
        | inr m ↦ rw m (elim (Bool-cases (r.status_code == 401 || r.status_code == 403)) [
          | inl y ↦ rw y denied
          | inr q ↦ rw q temporary
        ])
      ])
    ]

pub classify_sentinel-IsSentinel :
    (unmarshal : List ℕ → Option ErrorBody) (e : SdkError)
    → IsSentinel (classify_sentinel unmarshal e).1
unfolding classify_sentinel
classify_sentinel-IsSentinel unmarshal e = elim (Option-cases e.response) [
  | inl n ↦
      rw n
        (elim (Bool-cases (credential_failed e)) [ inl y ↦ rw y no_token | inr m ↦ rw m temporary ])
  | inr (r, y) ↦ rw y (classify_response-IsSentinel unmarshal r)
]

-- Which half of acquiring a token failed, as a table over what is known of the token endpoint: no
-- credential could ask; one asked and got no answer; or one asked and was answered, which says
-- nothing of the credential when the endpoint throttles or has a fault of its own.
abbrev pub token_failure : Option AuthenticationFailed → Bool → String
token_failure none false = ""
token_failure none true = "credential-unavailable"
token_failure (some f) given = elim f.response_status [
  | none ↦ "token-request-failed"
  | some status ↦
      (if status == 429 then "" else if ltb status 500 then "token-request-failed" else "")
]

-- an error that carries no answer of the vault
abbrev unanswered : Option AuthenticationFailed → Bool → SdkError
unanswered a b = record { response = none; auth_failed = a; non_retriable = b }

module _ (unmarshal : List ℕ → Option ErrorBody) where
  -- what is logged and what is classified of such an error
  abbrev AsFailed : Option AuthenticationFailed → Bool → Type 0
  AsFailed a b =
      (auth_failure_kind (unanswered a b) ≡ token_failure a b)
      × (classify_sentinel unmarshal (unanswered a b)
          ≡ (0, if str_eq (token_failure a b) "" then Leaf.transient else Leaf.auth_failure))

  answered_at :
      (status : ℕ) (b : Bool) → AsFailed (some (record { response_status = some status })) b
  unfolding classify_sentinel auth_failure_kind credential_failed
  answered_at status b = elim (Bool-cases (status == 429)) [
    | inl y ↦ rw y (refl, refl)
    | inr n ↦ elim (Bool-cases (ltb status 500)) [
      | inl y ↦ let server : leb 500 status ≡ false = ground arith in rw (n, y, server) (refl, refl)
      | inr m ↦ let server : leb 500 status ≡ true = ground arith in rw (n, m, server) (refl, refl)
    ]
  ]

  token_failed : (a : Option AuthenticationFailed) (b : Bool) → AsFailed a b
  unfolding classify_sentinel auth_failure_kind credential_failed
  token_failed none true = (refl, refl)
  token_failed none false = (refl, refl)
  token_failed (some f) b = elim (Option-cases f.response_status) [
    | inl e ↦ rw e (refl, refl)
    | inr (status, e) ↦ rw e (answered_at status b)
  ]

answered_auth :
    (unmarshal : List ℕ → Option ErrorBody) (r : ResponseError)
    → is_auth_failure (classify_response unmarshal r) ≡ false
unfolding classify_response
answered_auth unmarshal r = ground arith

-- An answer of the vault always wins: its status code is the one reported, and the failure is not
-- put down to the credential. Without one the reported code is 0, the log shows which half of
-- acquiring a token failed, and the failure is put down to the credential exactly when one did; a
-- token endpoint that answers with 429, or 500 and above, counts as transient.
pub classify_sentinel-auth :
    (unmarshal : List ℕ → Option ErrorBody) (e : SdkError) (r : ResponseError)
    → let answered : SdkError = record e { response = some r } in
      let silent : SdkError = record e { response = none } in
      let failure = token_failure e.auth_failed e.non_retriable in
      ((classify_sentinel unmarshal answered).0 ≡ r.status_code)
      × (is_auth_failure (classify_sentinel unmarshal answered).1 ≡ false)
      × (auth_failure_kind silent ≡ failure)
      × (classify_sentinel unmarshal silent
          ≡ (0, if str_eq failure "" then Leaf.transient else Leaf.auth_failure))
unfolding classify_sentinel
classify_sentinel-auth unmarshal e r =
    let (logged, classified) = token_failed unmarshal e.auth_failed e.non_retriable in
    (refl, answered_auth unmarshal r, logged, classified)

pub is_sentinel-classified : (l : Leaf) → IsSentinel l → is_classified (wrap (leaf l)) ≡ true
unfolding errors_is
is_sentinel-classified _ not_found = refl
is_sentinel-classified _ denied = refl
is_sentinel-classified _ no_token = refl
is_sentinel-classified _ disabled = refl
is_sentinel-classified _ temporary = refl

-- The reason that the engine reports for a classified error is the classification that the log line
-- shows, but for a secret that is gone while its target is managed: that one is `SourceDeleted`.
pub reported_as_logged :
    (l : Leaf) (owner : SecretSync) (managed : Bool)
    → IsSentinel l
    → reason_text (classify_reader_error (wrap (leaf l)) owner managed).0
      ≡ (if is_secret_not_found l && managed then "SourceDeleted" else classification_name (leaf l))
unfolding classify_reader_error classification_name errors_is
reported_as_logged _ owner true not_found = refl
reported_as_logged _ owner false not_found = refl
reported_as_logged _ owner managed denied = refl
reported_as_logged _ owner managed no_token = refl
reported_as_logged _ owner true disabled = refl
reported_as_logged _ owner false disabled = refl
reported_as_logged _ owner managed temporary = refl

-- A failed read of the vault is retried with backoff exactly when it was transient or no token was
-- acquired; a missing or disabled secret and a refused access wait for the next interval.
pub retried_sentinel :
    (l : Leaf) (owner : SecretSync) (managed : Bool)
    → IsSentinel l
    → retried_with_backoff (classify_reader_error (wrap (leaf l)) owner managed).0
      ≡ (is_transient l || is_auth_failure l)
unfolding classify_reader_error retried_with_backoff errors_is
retried_sentinel _ owner true not_found = refl
retried_sentinel _ owner false not_found = refl
retried_sentinel _ owner managed denied = refl
retried_sentinel _ owner managed no_token = refl
retried_sentinel _ owner true disabled = refl
retried_sentinel _ owner false disabled = refl
retried_sentinel _ owner managed temporary = refl
