-- ===== src/Events/Parser/Contract.antt =====
-- The return contract of `Parse`.
use kvsynk8s.Base.{
  ℕ, String, ◌≡◌, refl, true, false, not, Bool-cases, Option-cases, inl, inr, Option, none, some,
  List, str_eq, eq_iff, arith, if◌then◌else◌,
}
use kvsynk8s.Errors.{Err, Result, ok, err, errors_is, is_malformed_message}
use kvsynk8s.Events.Base64.{significant, decode_string}
use kvsynk8s.Events.Base64.Encoding.{AllBytes, encode, decode_string-encode}
use kvsynk8s.Events.Fold.{equal_fold}
use kvsynk8s.Events.Parser.{
  ParsedEvent, EventEnvelope, EventData, Codec, secret_new_version_created, deref_string,
  trim_space, no_payload, event_type_of, malformed, is_secret, parse_data, parse_envelope,
  parse_decoded, parse,
}

abbrev MalformedIfErr : Result (Option ParsedEvent) → Type 0
MalformedIfErr (ok _) = Unit
MalformedIfErr (err e) = errors_is is_malformed_message e ≡ true

malformed_fact : MalformedIfErr malformed
unfolding errors_is
malformed_fact = refl

-- what the event holds of the payload
abbrev pub event_of : String → EventData → ParsedEvent
event_of id d = record {
  id = id;
  vault_name = deref_string d.vault_name;
  secret_name = deref_string d.object_name;
  version = deref_string d.version;
}

module _ (codec : Codec) where
  parse_data-malformed : (id : String) (d : Option EventData) → MalformedIfErr (parse_data id d)
  unfolding parse_data
  parse_data-malformed id none = malformed_fact
  parse_data-malformed id (some d) = elim (Bool-cases (is_secret d.object_type)) [
    | inl y ↦ rw y tt
    | inr n ↦ rw n tt
  ]

  parse_envelope-malformed : (e : Option EventEnvelope) → MalformedIfErr (parse_envelope codec e)
  unfolding parse_envelope
  parse_envelope-malformed none = malformed_fact
  parse_envelope-malformed (some e) = elim (Bool-cases (str_eq (event_type_of e) "")) [
    | inl y ↦ rw y malformed_fact
    | inr n ↦ rw n (elim (Bool-cases (str_eq (event_type_of e) secret_new_version_created)) [
      | inr m ↦ rw m tt
      | inl y ↦ rw y (elim (Bool-cases (no_payload (trim_space e.contents))) [
        | inl q ↦ rw q malformed_fact
        | inr q ↦ rw q (parse_data-malformed e.id (codec.unmarshal_data (trim_space e.contents)))
      ])
    ])
  ]

  parse_decoded-malformed : (d : Option (List ℕ)) → MalformedIfErr (parse_decoded codec d)
  unfolding parse_decoded
  parse_decoded-malformed none = malformed_fact
  parse_decoded-malformed (some d) = parse_envelope-malformed (codec.unmarshal_envelope d)

  -- Every error of `Parse` is `ErrMalformedMessage` to `errors.Is`, wherever the decoding stopped.
  parse_err-malformed :
      (body : String) (e : Err) → parse codec body ≡ err e → errors_is is_malformed_message e ≡ true
  unfolding parse
  parse_err-malformed body e h = rw h at (parse_decoded-malformed (decode_string body))

  -- The body decodes to an envelope of the acted-on type, with a payload about a secret.
  pub record IsActionable (body : String) (event : ParsedEvent) : Type 0 where
    pub decoded : List ℕ
    pub envelope : EventEnvelope
    pub payload : EventData
    pub object_type : String
    pub decodes : decode_string body ≡ some decoded
    pub has_envelope : codec.unmarshal_envelope decoded ≡ some envelope
    pub has_type : event_type_of envelope ≡ secret_new_version_created
    pub has_data : no_payload (trim_space envelope.contents) ≡ false
    pub has_payload : codec.unmarshal_data (trim_space envelope.contents) ≡ some payload
    pub is_typed : payload.object_type ≡ some object_type
    pub about_secret : equal_fold object_type "secret" ≡ true
    pub as_event : event ≡ event_of envelope.id payload

  type_not_empty : str_eq secret_new_version_created "" ≡ false
  type_not_empty = refl

  typed_secret :
      (t : Option String)
      → is_secret t ≡ true
      → (s : String) × (t ≡ some s) × (equal_fold s "secret" ≡ true)
  unfolding is_secret
  typed_secret none h = cc
  typed_secret (some s) h = (s, refl, h)

  module _ {body : String} {event : ParsedEvent} (b : List ℕ) (e : EventEnvelope) where
    paid :
        decode_string body ≡ some b
        → codec.unmarshal_envelope b ≡ some e
        → event_type_of e ≡ secret_new_version_created
        → no_payload (trim_space e.contents) ≡ false
        → parse_data e.id (codec.unmarshal_data (trim_space e.contents)) ≡ ok (some event)
        → IsActionable body event
    unfolding parse_data
    paid db ue ty np = elim (Option-cases (codec.unmarshal_data (trim_space e.contents))) [
      | inl n ↦ rw n (λ h. cc)
      | inr (d, ud) ↦ rw ud (elim (Bool-cases (is_secret d.object_type)) [
        | inr n ↦ rw n (λ h. cc)
        | inl y ↦ rw y (λ h.
            let (s, is_s, folds) = typed_secret d.object_type y in
            record {
              decoded = b;
              envelope = e;
              payload = d;
              object_type = s;
              decodes = db;
              has_envelope = ue;
              has_type = ty;
              has_data = np;
              has_payload = ud;
              is_typed = is_s;
              about_secret = folds;
              as_event = cc h;
            })
      ])
    ]

    typed :
        decode_string body ≡ some b
        → codec.unmarshal_envelope b ≡ some e
        → (if not (str_eq (event_type_of e) secret_new_version_created)
            then ok none
            else if no_payload (trim_space e.contents)
            then malformed
            else parse_data e.id (codec.unmarshal_data (trim_space e.contents)))
          ≡ ok (some event)
        → IsActionable body event
    typed db ue = elim (Bool-cases (str_eq (event_type_of e) secret_new_version_created)) [
      | inr n ↦ rw n (λ h. cc)
      | inl y ↦ rw y (elim (Bool-cases (no_payload (trim_space e.contents))) [
        | inl n ↦ rw n (λ h. cc)
        | inr m ↦ rw m (paid db ue ((eq_iff (event_type_of e) secret_new_version_created).0 y) m)
      ])
    ]

  -- `Parse` gives no event but for such a body: what it returns is the event of an envelope of the
  -- acted-on type and of a payload about a secret that the body decodes to.
  pub IsActionable-parse :
      (body : String) (event : ParsedEvent)
      → parse codec body ≡ ok (some event)
      → IsActionable body event
  unfolding parse parse_decoded parse_envelope parse_data
  IsActionable-parse body event = elim (Option-cases (decode_string body)) [
    | inl n ↦ rw n (λ h. cc)
    | inr (b, db) ↦ rw db (elim (Option-cases (codec.unmarshal_envelope b)) [
      | inl n ↦ rw n (λ h. cc)
      | inr (e, ue) ↦ rw ue (elim (Bool-cases (str_eq (event_type_of e) "")) [
        | inl y ↦ rw y (λ h. cc)
        | inr n ↦ rw n (typed b e db ue)
      ])
    ])
  ]

  -- `Parse` gives an event for every body that decodes, in either delivery schema, to the creation
  -- of a secret version with a payload about a secret in any casing; the event has the payload's
  -- names, empty where it has none.
  pub parse-IsActionable :
      (body : String) (event : ParsedEvent)
      → IsActionable body event
      → parse codec body ≡ ok (some event)
  unfolding parse parse_decoded parse_envelope parse_data is_secret
  parse-IsActionable body event a = rw (
    a.decodes, a.has_envelope, a.has_type, a.has_data, a.has_payload, a.is_typed, a.about_secret,
    a.as_event,
  )

  -- What Event Grid wraps in Base64 comes through: whatever bytes are encoded, and however the text is
  -- broken into lines, `Parse` goes on with exactly those bytes.
  pub parse-encode :
      (body : String) (bs : List ℕ)
      → AllBytes bs
      → significant body ≡ encode bs
      → parse codec body ≡ parse_envelope codec (codec.unmarshal_envelope bs)
  unfolding parse parse_decoded
  parse-encode body bs h e = rw (decode_string-encode body bs h e)

  event_type_of-grid :
      (e : EventEnvelope) (t : String) → event_type_of (record e { event_type = t; kind = "" }) ≡ t
  unfolding event_type_of
  event_type_of-grid e t = ground (arith, eq_iff t "")

  event_type_of-cloud :
      (e : EventEnvelope) (t : String) → event_type_of (record e { event_type = ""; kind = t }) ≡ t
  unfolding event_type_of
  event_type_of-cloud e t = refl

  -- The delivery schema makes no difference: an envelope that spells its type `eventType` and one
  -- that spells the same type `type` are parsed alike, the rest being equal.
  parse-schema :
      (grid cloud : String) (b c : List ℕ) (e : EventEnvelope) (t : String)
      → decode_string grid ≡ some b
      → decode_string cloud ≡ some c
      → codec.unmarshal_envelope b ≡ some (record e { event_type = t; kind = "" })
      → codec.unmarshal_envelope c ≡ some (record e { event_type = ""; kind = t })
      → parse codec grid ≡ parse codec cloud
  unfolding parse parse_decoded parse_envelope
  parse-schema grid cloud b c e t db dc ub uc =
      rw (db, dc, ub, uc, event_type_of-grid e t, event_type_of-cloud e t)
