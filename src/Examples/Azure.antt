-- ===== src/Examples/Azure.antt =====
-- The theorems on Key Vault, URLs and the start of the operator, on a vault that answers 404 and a
-- library of two URLs.
use kvsynk8s.Base.{
  ℕ, String, ◌≡◌, refl, true, false, none, some, [], ◌∷◌, Dict, lookup, str_eq, if◌then◌else◌,
}
use kvsynk8s.Errors.{leaf, wrap, Leaf, is_auth_failure}
use kvsynk8s.Api.{reason_text}
use kvsynk8s.Sync.Engine.{classify_reader_error}
use kvsynk8s.Controller.{retried_with_backoff}
use kvsynk8s.Azure.KeyVault.{
  ResponseError, SdkError, refused, Sdk, classify_sentinel, auth_failure_kind, get_latest,
}
use kvsynk8s.Azure.KeyVault.Contract.{get_latest_err-classified}
use kvsynk8s.Azure.KeyVault.Sentinels.{
  not_found, temporary, is_classified, classify_sentinel-auth, reported_as_logged, retried_sentinel,
}
use kvsynk8s.Azure.Redact.{Url, UrlLib, url_error}
use kvsynk8s.Azure.Queue.{dequeue_failed, QueueClient, receive, delete, errors-hide}
use kvsynk8s.Examples.{owner}

abbrev no_token : SdkError
no_token = record {
  response = none;
  auth_failed = some (record { response_status = some 400 });
  non_retriable = true;
}

abbrev gone : SdkError
gone = record no_token { response = some (record { status_code = 404; payload = none }) }

-- The client of a vault is its endpoint; the world is the number of reads.
abbrev sdk : Sdk String ℕ
sdk = record {
  new_client = λ endpoint unchecked. some endpoint;
  get_secret = λ c name version w. (refused gone, w);
  unmarshal_body = λ bytes. none;
  endpoint_override = "http://localhost";
  log = λ line w. w;
}

-- the token endpoint answered 503
abbrev outage : SdkError
outage = record no_token { auth_failed = some (record { response_status = some 503 }) }

classify_sentinel-auth_example :
    let unmarshal = sdk.unmarshal_body in
    let forbidden : ResponseError = record { status_code = 403; payload = none } in
    ((classify_sentinel unmarshal (record outage { response = some forbidden })).0 ≡ 403)
    × (is_auth_failure (classify_sentinel unmarshal (record outage { response = some forbidden })).1
        ≡ false)
    × (auth_failure_kind outage ≡ "")
    × (classify_sentinel unmarshal outage ≡ (0, Leaf.transient))
classify_sentinel-auth_example =
    classify_sentinel-auth sdk.unmarshal_body outage (record { status_code = 403; payload = none })

get_latest_err-classified_example : is_classified (wrap (leaf Leaf.secret_not_found)) ≡ true
unfolding get_latest lookup
get_latest_err-classified_example =
    get_latest_err-classified sdk "prod" "db-password" ([], 0) (wrap (leaf Leaf.secret_not_found))
      refl

abbrev kept : Dict String
kept = ("prod", "http://localhost") ∷ []

abbrev test_vault : String
test_vault = "test"

reported_as_logged_example :
    reason_text (classify_reader_error (wrap (leaf Leaf.secret_not_found)) owner true).0
    ≡ "SourceDeleted"
reported_as_logged_example = reported_as_logged Leaf.secret_not_found owner true not_found

retried_sentinel_example :
    retried_with_backoff (classify_reader_error (wrap (leaf Leaf.transient)) owner true).0 ≡ true
retried_sentinel_example = retried_sentinel Leaf.transient owner true temporary

abbrev pub signed : Url String
signed = record {
  place = "https://q.example/events";
  user = none;
  raw_query = "sig=1";
  force_query = false;
  fragment = "";
  raw_fragment = "";
}

abbrev pub urls : UrlLib String
urls = record {
  parse = λ s. if str_eq s "a" then some signed else some (record signed { raw_query = "sig=2" });
  print = λ u. u.place;
}

abbrev broken : String → QueueClient ℕ
broken url = record {
  dequeue_messages = λ n w. (dequeue_failed (url_error "Get" url (leaf Leaf.plain)), w);
  delete_message = λ id receipt w. (some (url_error "Get" url (leaf Leaf.plain)), w);
}

errors-hide_example :
    (receive urls (broken "a") 32 0 ≡ receive urls (broken "b") 32 0)
    × (delete urls (broken "a") "m" "r" 0 ≡ delete urls (broken "b") "m" "r" 0)
errors-hide_example =
    errors-hide urls (broken "a") (broken "b") 32 "m" "r" "Get" "a" "b" signed
      (record signed { raw_query = "sig=2" }) (leaf Leaf.plain) 0 refl refl refl refl refl refl refl
      refl refl refl
