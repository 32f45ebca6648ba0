-- ===== src/Azure/KeyVault/Classify.antt =====
-- How internal/azure/keyvault.go and internal/azure/autherr.go classify an error of the Azure SDK. An
-- error is what `errors.As` finds in it; the decoding of its JSON body is a parameter.
use Prim.Native.Char.{code}
use Prim.Native.String.{[], ◌∷◌}
use kvsynk8s.Base.{
  ℕ, ◌+◌, String, Bool, true, false, not, ◌&&◌, ◌||◌, Option, none, some, List, str_eq, leb, ◌==◌,
  if◌then◌else◌,
}
use kvsynk8s.Errors.{
  Err, Leaf, errors_is, is_secret_not_found, is_access_denied, is_auth_failure, is_secret_disabled,
}

-- what `json.Unmarshal` leaves in `keyVaultErrorBody`
pub record ErrorBody : Type 0 where
  pub inner_code : String
  pub message : String

-- azcore.ResponseError; `payload` is `none` when there is no RawResponse or it cannot be read.
pub record ResponseError : Type 0 where
  pub status_code : ℕ
  pub payload : Option (List ℕ)

-- azidentity.AuthenticationFailedError; `none` when its RawResponse is nil
pub record AuthenticationFailed : Type 0 where
  pub response_status : Option ℕ

-- An error of the SDK, by what `errors.As` finds in its chain. `non_retriable` is the marker
-- interface of autherr.go.
pub record SdkError : Type 0 where
  pub response : Option ResponseError
  pub auth_failed : Option AuthenticationFailed
  pub non_retriable : Bool

-- `http.StatusTooManyRequests`, or `http.StatusInternalServerError` and above
abbrev pub clears_on_its_own : ℕ → Bool
clears_on_its_own status = status == 429 || leb 500 status

abbrev pub answered_with : Option ℕ → Bool
answered_with none = false
answered_with (some status) = clears_on_its_own status

unfoldable pub credential_failed : SdkError → Bool
credential_failed e = elim e.auth_failed [
  | some failed ↦ not (answered_with failed.response_status)
  | none ↦ e.non_retriable
]

abbrev kind_of : Option AuthenticationFailed → String
kind_of (some failed) = "token-request-failed"
kind_of none = "credential-unavailable"

unfoldable pub auth_failure_kind : SdkError → String
unfolding credential_failed
auth_failure_kind e = if not (credential_failed e) then "" else kind_of e.auth_failed

-- `unicode.ToLower`, as far as it gives ASCII: the capital letters, the dotted capital I and the
-- Kelvin sign. Only an ASCII phrase is looked for in the text.
abbrev lower : ℕ → ℕ
lower c =
    if leb 65 c && leb c 90 then c + 32 else if c == 304 then 105 else if c == 8490 then 107 else c

-- whether the lower case of the text starts with the phrase
lower_starts : String → String → Bool
lower_starts text [] = true
lower_starts [] (p ∷ ps) = false
lower_starts (c ∷ cs) (p ∷ ps) =
    let rest = lower_starts cs ps in if lower (code c) == code p then rest else false

-- `strings.Contains(strings.ToLower(text), phrase)`
unfoldable pub lower_contains : String → String → Bool
unfolding lower_starts
lower_contains [] phrase = lower_starts [] phrase
lower_contains (c ∷ cs) phrase =
    let rest = lower_contains cs phrase in if lower_starts (c ∷ cs) phrase then true else rest

abbrev body_says_disabled : Option ErrorBody → Bool
body_says_disabled none = false
body_says_disabled (some b) =
    str_eq b.inner_code "SecretDisabled" || lower_contains b.message "not allowed on a disabled"

abbrev payload_says_disabled : (List ℕ → Option ErrorBody) → Option (List ℕ) → Bool
payload_says_disabled unmarshal none = false
payload_says_disabled unmarshal (some List.[]) = false
payload_says_disabled unmarshal (some (List.◌∷◌ b bs)) =
    body_says_disabled (unmarshal (List.◌∷◌ b bs))

unfoldable pub is_disabled_secret_response : (List ℕ → Option ErrorBody) → ResponseError → Bool
is_disabled_secret_response unmarshal r = payload_says_disabled unmarshal r.payload

-- the sentinel of an answer of the vault
unfoldable pub classify_response : (List ℕ → Option ErrorBody) → ResponseError → Leaf
unfolding is_disabled_secret_response
classify_response unmarshal r =
    if is_disabled_secret_response unmarshal r
    then Leaf.secret_disabled
    else if r.status_code == 404
    then Leaf.secret_not_found
    else if r.status_code == 401 || r.status_code == 403
    then Leaf.access_denied
    else Leaf.transient

unfoldable pub classify_sentinel : (List ℕ → Option ErrorBody) → SdkError → ℕ × Leaf
unfolding classify_response credential_failed
classify_sentinel unmarshal e = elim e.response [
  | some r ↦ (r.status_code, classify_response unmarshal r)
  | none ↦ (if credential_failed e then (0, Leaf.auth_failure) else (0, Leaf.transient))
]

unfoldable pub classification_name : Err → String
unfolding errors_is
classification_name sentinel =
    if errors_is is_secret_not_found sentinel
    then "SecretNotFound"
    else if errors_is is_access_denied sentinel
    then "AccessDenied"
    else if errors_is is_auth_failure sentinel
    then "AuthenticationFailed"
    else if errors_is is_secret_disabled sentinel
    then "SourceDisabled"
    else "TransientError"
