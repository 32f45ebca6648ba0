-- ===== src/Azure/KeyVault.antt =====
-- internal/azure/keyvault.go: the reader of Key Vault. The client of the SDK and its construction are
-- parameters.
pub mod Classify
pub mod Sentinels
pub mod Contract
pub mod Lock
use Prim.Native.Char.{Char, code}
use Prim.Native.String.{[], ◌∷◌, ◌++◌}
use kvsynk8s.Base.{
  ℕ, ◌+◌, String, Bool, true, false, not, ◌&&◌, ◌||◌, Option, none, some, List, Dict, lookup, put,
  str_eq, leb, ◌==◌, if◌then◌else◌,
}
use kvsynk8s.Errors.{
  Err, Result, ok, err, leaf, wrap, wrap_both, Leaf, errors_is, is_secret_not_found,
  is_access_denied, is_auth_failure, is_secret_disabled,
}
use kvsynk8s.Exec.{Exec}
use kvsynk8s.Kube.{SecretReader}
pub use kvsynk8s.Azure.KeyVault.Classify.{
  ErrorBody, ResponseError, AuthenticationFailed, SdkError, clears_on_its_own, answered_with,
}
unfoldable pub use kvsynk8s.Azure.KeyVault.Classify.{
  credential_failed, auth_failure_kind, lower_contains, is_disabled_secret_response,
  classify_response, classify_sentinel, classification_name,
}

-- The fields of the line that a failed read logs; `auth_failure` is "" when the key is left out.
pub record ReadFailed : Type 0 where
  pub vault : String
  pub secret : String
  pub status_code : ℕ
  pub classification : String
  pub auth_failure : String

-- azsecrets.GetSecretResponse: nil attributes, or a nil `Enabled`, are `none`; `version` is that of
-- the ID.
pub record Bundle : Type 0 where
  pub enabled : Option (Option Bool)
  pub value : Option String
  pub version : Option String

pub data Answer : Type 0 where
  bundle : Bundle → Answer
  refused : SdkError → Answer

unfoldable pub secret_is_disabled : Option (Option Bool) → Bool
secret_is_disabled (some (some enabled)) = not enabled
secret_is_disabled _ = false

unfoldable pub vault_url : String → String
vault_url vault = "https://" ++ vault ++ ".vault.azure.net/"

-- What the reader calls: `new_client` with the endpoint and whether the check of the challenge
-- resource is disabled; `endpoint_override` is the environment variable.
pub record Sdk (C : Type 0) (W : Type 0) : Type 0 where
  pub new_client : String → Bool → Option C
  pub get_secret : C → String → String → W → Answer × W
  pub unmarshal_body : List ℕ → Option ErrorBody
  pub endpoint_override : String
  pub log : ReadFailed → W → W

-- A reader's state: the clients it keeps, and the world.
abbrev pub Vaults : Type 0 → Type 0 → Type 0
Vaults C W = Dict C × W

module _ {C : Type 0} {W : Type 0} (sdk : Sdk C W) where
  abbrev made : Dict C → String → Option C → Result C × Dict C
  made clients vault none = (err (wrap_both (leaf Leaf.transient) (leaf Leaf.plain)), clients)
  made clients vault (some c) = (ok c, put vault c clients)

  connect : String → Option C
  unfolding vault_url
  connect vault =
      if not (str_eq sdk.endpoint_override "")
      then sdk.new_client sdk.endpoint_override true
      else sdk.new_client (vault_url vault) false

  -- the lookup's two answers
  kept_or_made : Dict C → String → Option C → Result C × Dict C
  unfolding connect
  kept_or_made clients vault (some c) = (ok c, clients)
  kept_or_made clients vault none = made clients vault (connect vault)

  unfoldable pub client_for : Dict C → String → Result C × Dict C
  unfolding kept_or_made
  client_for clients vault = kept_or_made clients vault (lookup vault clients)

  unfoldable pub classify_get_secret_error : String → String → SdkError → W → Err × W
  unfolding classify_sentinel classification_name auth_failure_kind
  classify_get_secret_error vault secret e w =
      let (status, sentinel) = classify_sentinel sdk.unmarshal_body e in
      let line : ReadFailed = record {
        vault = vault;
        secret = secret;
        status_code = status;
        classification = classification_name (leaf sentinel);
        auth_failure = auth_failure_kind e;
      } in
      (wrap (leaf sentinel), sdk.log line w)

  abbrev value_of : Option String → Option String → Result (String × String)
  value_of none version = err (wrap (leaf Leaf.transient))
  value_of (some value) none = ok (value, "")
  value_of (some value) (some version) = ok (value, version)

  read_answer : Dict C → String → String → Answer → W → Result (String × String) × Vaults C W
  unfolding classify_get_secret_error secret_is_disabled
  read_answer clients vault secret (refused e) w =
      let (e', v) = classify_get_secret_error vault secret e w in (err e', (clients, v))
  read_answer clients vault secret (bundle b) w =
      if secret_is_disabled b.enabled
      then (err (wrap (leaf Leaf.secret_disabled)), (clients, w))
      else (value_of b.value b.version, (clients, w))

  read_with : Dict C → String → String → Result C → W → Result (String × String) × Vaults C W
  unfolding read_answer
  read_with clients vault secret (err e) w = (err e, (clients, w))
  read_with clients vault secret (ok c) w =
      let (a, v) = sdk.get_secret c secret "" w in read_answer clients vault secret a v

  unfoldable pub get_latest : String → String → Exec (Vaults C W) (String × String)
  unfolding client_for read_with
  get_latest vault secret (clients, w) =
      let (c, kept) = client_for clients vault in read_with kept vault secret c w

  -- keyVaultReader as the interface of the engine
  unfoldable pub key_vault_reader : SecretReader (Vaults C W)
  unfolding get_latest
  key_vault_reader = record { get_latest = get_latest }
