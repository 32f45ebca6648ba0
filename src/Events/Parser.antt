-- ===== src/Events/Parser.antt =====
-- internal/events/parser.go. JSON decoding is a parameter: `encoding/json` decides which bytes
-- decode and what the decoded fields are.
pub mod Contract
use kvsynk8s.Base.{
  ℕ, String, ◌≡◌, refl, Bool, true, false, not, ◌&&◌, ◌||◌, Option, none, some, List, [], ◌∷◌,
  str_eq, eq_iff, ◌==◌, leb, Bool-cases, Option-cases, inl, inr, arith, if◌then◌else◌,
}
use kvsynk8s.Errors.{Err, Result, ok, err, leaf, wrap, malformed_message}
use kvsynk8s.Events.Base64.{decode_string}
use kvsynk8s.Events.Fold.{equal_fold}

pub record ParsedEvent : Type 0 where
  pub id : String
  pub vault_name : String
  pub secret_name : String
  pub version : String

-- the fields that `Parse` reads; absent strings are empty, `contents` is `data`, undecoded
pub record EventEnvelope : Type 0 where
  pub id : String
  pub event_type : String
  pub kind : String
  pub contents : List ℕ

-- the local struct of the `data` payload; `none` is a nil pointer
pub record EventData : Type 0 where
  pub vault_name : Option String
  pub object_type : Option String
  pub object_name : Option String
  pub version : Option String

-- `none` is a decoding error.
pub record Codec : Type 0 where
  pub unmarshal_envelope : List ℕ → Option EventEnvelope
  pub unmarshal_data : List ℕ → Option EventData

-- azsystemevents.TypeKeyVaultSecretNewVersionCreated
abbrev pub secret_new_version_created : String
secret_new_version_created = "Microsoft.KeyVault.SecretNewVersionCreated"

unfoldable pub deref_string : Option String → String
deref_string none = ""
deref_string (some s) = s

-- the ASCII white space of `bytes.TrimSpace`; a JSON value has no other around it
abbrev is_space : ℕ → Bool
is_space c = c == 32 || leb 9 c && leb c 13

trim_left : List ℕ → List ℕ
trim_left [] = []
trim_left (c ∷ cs) = let rest = trim_left cs in if is_space c then rest else c ∷ cs

trim_right : List ℕ → List ℕ
trim_right [] = []
trim_right (c ∷ cs) = elim (trim_right cs) [
  | [] ↦ if is_space c then [] else c ∷ []
  | d ∷ ds ↦ c ∷ d ∷ ds
]

unfoldable pub trim_space : List ℕ → List ℕ
unfolding trim_left trim_right
trim_space cs = trim_right (trim_left cs)

equal_bytes : List ℕ → List ℕ → Bool
equal_bytes [] [] = true
equal_bytes (a ∷ as') (b ∷ bs) = if a == b then equal_bytes as' bs else false
equal_bytes _ _ = false

abbrev null_bytes : List ℕ
null_bytes = 110 ∷ 117 ∷ 108 ∷ 108 ∷ []

-- `len(dataBytes) == 0 || bytes.Equal(dataBytes, []byte("null"))`
unfoldable pub no_payload : List ℕ → Bool
unfolding equal_bytes
no_payload [] = true
no_payload (c ∷ cs) = equal_bytes (c ∷ cs) null_bytes

-- `eventType := envelope.EventType; if eventType == "" { eventType = envelope.Type }`
unfoldable pub event_type_of : EventEnvelope → String
event_type_of e = if str_eq e.event_type "" then e.kind else e.event_type

abbrev pub malformed : {A : Type 0} → Result A
malformed = err (wrap (leaf malformed_message))

is_secret : Option String → Bool
is_secret none = false
is_secret (some s) = equal_fold s "secret"

-- `Parse` once the data payload is decoded
parse_data : String → Option EventData → Result (Option ParsedEvent)
unfolding is_secret deref_string
parse_data id none = malformed
parse_data id (some d) =
    if not (is_secret d.object_type)
    then ok none
    else ok (
        some (record {
          id = id;
          vault_name = deref_string d.vault_name;
          secret_name = deref_string d.object_name;
          version = deref_string d.version;
        }))

module _ (codec : Codec) where
  pub parse_envelope : Option EventEnvelope → Result (Option ParsedEvent)
  unfolding parse_data event_type_of
  parse_envelope none = malformed
  parse_envelope (some e) =
      if str_eq (event_type_of e) ""
      then malformed
      else if not (str_eq (event_type_of e) secret_new_version_created)
      then ok none
      else (let payload = trim_space e.contents in
          if no_payload payload then malformed else parse_data e.id (codec.unmarshal_data payload))

  parse_decoded : Option (List ℕ) → Result (Option ParsedEvent)
  unfolding parse_envelope
  parse_decoded none = malformed
  parse_decoded (some decoded) = parse_envelope (codec.unmarshal_envelope decoded)

  unfoldable pub parse : String → Result (Option ParsedEvent)
  unfolding parse_decoded decode_string
  parse body = parse_decoded (decode_string body)
