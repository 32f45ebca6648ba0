-- ===== src/Azure/Redact.antt =====
-- internal/azure/redact.go. `net/url` is a parameter: a URL is what `url.Parse` makes of a text,
-- with the scheme, host and path in one part `H` that the code does not look into.
use Prim.Native.String.{◌++◌}
use kvsynk8s.Base.{
  String, ◌≡◌, refl, Bool, true, false, not, ◌||◌, Option, none, some, str_eq, if◌then◌else◌,
}
use kvsynk8s.Errors.{Err}

pub record Url (H : Type 0) : Type 0 where
  pub place : H
  pub user : Option String
  pub raw_query : String
  pub force_query : Bool
  pub fragment : String
  pub raw_fragment : String

-- `url.Parse`, `none` for an error, and `(*URL).String`
pub record UrlLib (H : Type 0) : Type 0 where
  pub parse : String → Option (Url H)
  pub print : Url H → String

abbrev pub unparseable_url_placeholder : String
unparseable_url_placeholder = "<unparseable>"

abbrev pub redacted_query_marker : String
redacted_query_marker = "?<redacted>"

-- An error of the queue's client: a `*url.Error`, with its operation, URL and cause, or one in
-- which `errors.As` finds none.
pub data QueueError : Type 0 where
  url_error : String → String → Err → QueueError
  other : Err → QueueError

module _ {H : Type 0} (urls : UrlLib H) where
  abbrev pub has_query : Url H → Bool
  has_query u = not (str_eq u.raw_query "") || u.force_query

  abbrev bare : Url H → Url H
  bare u = record {
    place = u.place;
    user = none;
    raw_query = "";
    force_query = false;
    fragment = "";
    raw_fragment = "";
  }

  redact_parsed : Option (Url H) → String × Bool
  redact_parsed none = (unparseable_url_placeholder, false)
  redact_parsed (some u) =
      if has_query u
      then (urls.print (bare u) ++ redacted_query_marker, true)
      else (urls.print (bare u), false)

  unfoldable pub redact_url : String → String × Bool
  unfolding redact_parsed
  redact_url raw = if str_eq raw "" then ("", false) else redact_parsed (urls.parse raw)

  unfoldable pub redact_url_error : QueueError → QueueError
  unfolding redact_url
  redact_url_error (url_error op url e) = url_error op (redact_url url).0 e
  redact_url_error (other e) = other e

  -- What a redacted URL shows does not depend on the user information, the query or the fragment:
  -- two URLs with one scheme, host and path, both or neither with a query, are redacted alike.
  pub redact_url-hides :
      (raw secret : String) (u v : Url H)
      → str_eq raw "" ≡ false
      → str_eq secret "" ≡ false
      → urls.parse raw ≡ some u
      → urls.parse secret ≡ some v
      → u.place ≡ v.place
      → has_query u ≡ has_query v
      → redact_url raw ≡ redact_url secret
  unfolding redact_url redact_parsed
  redact_url-hides raw secret u v m n p q same both = rw (m, n, p, q, same, both) refl
