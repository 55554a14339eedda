-- ===== src/Adapters/Doku.antt =====
-- internal/adapters/doku: doku.go and signature.go. SHA-256 and HMAC-SHA256 with their base64 text,
-- encoding/json, the parser of RFC 3339 times and the HTTP client are parameters. An instant is a count
-- of nanoseconds from the start of the year 0, the first that RFC 3339 can write.
pub mod Checkout
pub mod Examples
pub mod Notifications
use payrouter.Prelude.{
  ℕ, ◌+◌, String, Bool, true, false, not, ◌||◌, Option, none, some, List, [], ◌∷◌, ◌++◌, Dict,
  lookup, insert, Result, ok, err, eqb, ltb, leb, is_empty, ◌==◌, ◌+++◌, if◌then◌else◌,
}
use payrouter.GoLib.Int64.{ℤ, pos}
use payrouter.Gateway.{
  GatewayError, WebhookEvent, HttpRequest, invalid_signature, stale_timestamp, other,
}
use payrouter.Adapters.Status.{map_doku, stripe_event_type}
use payrouter.Adapters.Callbacks.{IntentLike, Parsed, intent_like, value_of}

pub record Notification : Type 0 where
  pub invoice_number : String
  pub amount : ℤ
  pub transaction_status : String

pub record DokuLib : Type 0 where
  pub sha256_base64 : String → String
  pub hmac_base64 : String → String → String
  pub parse_time : String → Option ℕ
  pub decode_notification : String → Result String Notification
  pub marshal : IntentLike → String

-- The fields of the Adapter that do not hold the HTTP client.
pub record DokuAdapter : Type 0 where
  pub client_id : String
  pub secret_key : String
  pub base_url : String
  pub notification_url : String

abbrev sandbox_base_url : String
sandbox_base_url = "https://api-sandbox.doku.com"

abbrev prod_base_url : String
prod_base_url = "https://api.doku.com"

abbrev pub checkout_path : String
checkout_path = "/checkout/v1/payment"

abbrev pub notification_path : String
notification_path = "/v1/webhooks/doku"

-- New
unfoldable pub new_doku : String → String → Bool → DokuAdapter
new_doku client_id secret_key sandbox = record {
  client_id = client_id;
  secret_key = secret_key;
  base_url = (if sandbox then sandbox_base_url else prod_base_url);
  notification_url = notification_path;
}

unfoldable pub set_base_url : String → DokuAdapter → DokuAdapter
set_base_url base a = if is_empty base then a else record a { base_url = base }

unfoldable pub set_notification_path : String → DokuAdapter → DokuAdapter
set_notification_path p a = if is_empty p then a else record a { notification_url = p }

unfoldable pub canonical : String → String → String → String → String → String
canonical client_id req_id ts target dgst =
    "Client-Id:" +++ client_id +++ "\nRequest-Id:" +++ req_id +++ "\nRequest-Timestamp:" +++ ts
    +++ "\nRequest-Target:" +++ target +++ "\nDigest:" +++ dgst

-- `diff > 5*time.Minute || diff < -5*time.Minute`
unfoldable pub is_outside : ℕ → ℕ → Bool
is_outside now sent = ltb (sent + 300000000000) now || ltb (now + 300000000000) sent

module _ (lib : DokuLib) where
  unfoldable pub digest : String → String
  digest body = lib.sha256_base64 body

  unfoldable pub sign : String → String → String
  sign canonical_str secret_key = "HMACSHA256=" +++ lib.hmac_base64 secret_key canonical_str

  -- verify; ConstantTimeCompare is 1 on equal texts
  unfoldable pub verify : String → String → String → String → String → String → String → Bool
  unfolding sign canonical
  verify provided client_id req_id ts target dgst secret_key =
      if is_empty provided
      then false
      else provided == sign (canonical client_id req_id ts target dgst) secret_key

  -- signedHeaders, for a request id and a time of sending
  unfoldable pub signed_headers : DokuAdapter → String → String → String → String → Dict String
  unfolding digest sign canonical
  signed_headers a req_id ts target body =
      let dgst = digest body in
      ("Client-Id", a.client_id)
      ∷ ("Request-Id", req_id)
      ∷ ("Request-Timestamp", ts)
      ∷ ("Digest", dgst)
      ∷ ("Signature", sign (canonical a.client_id req_id ts target dgst) a.secret_key)
      ∷ []

  -- The freshness check: a time that is missing or cannot be parsed passes.
  unfoldable pub is_stale : ℕ → String → Bool
  unfolding is_outside
  is_stale now ts = elim (lib.parse_time ts) [
    | none ↦ false
    | some sent ↦ if is_empty ts then false else is_outside now sent
  ]

  unfoldable pub notification_event : Notification → WebhookEvent
  unfolding intent_like
  notification_event n =
      let status = map_doku n.transaction_status in
      record {
        provider_event_id = n.invoice_number;
        type = stripe_event_type status;
        reference = n.invoice_number;
        kind = "";
        status = status;
        sub_status = "";
        saved_token = "";
        gateway_sub_id = "";
        amount_minor = 0;
        object_json = lib.marshal (intent_like n.invoice_number n.amount status);
      }

  unfoldable pub read_doku : Result String Notification → Parsed
  unfolding notification_event
  read_doku (err e) = err (other ("doku: cannot parse notification: " +++ e))
  read_doku (ok n) = ok (notification_event n ∷ [])

  -- The signature that the headers carry over the body and the path of the notification.
  unfoldable pub is_authentic : DokuAdapter → HttpRequest → Bool
  unfolding value_of verify digest
  is_authentic a r =
      verify (value_of "Signature" r.headers) (value_of "Client-Id" r.headers)
        (value_of "Request-Id" r.headers) (value_of "Request-Timestamp" r.headers)
        a.notification_url (digest r.body) a.secret_key

  -- ParseWebhook at a time
  unfoldable pub parse_doku : DokuAdapter → ℕ → HttpRequest → Parsed × HttpRequest
  unfolding is_authentic is_stale read_doku
  parse_doku a now r = (
    (if not (is_authentic a r)
        then err invalid_signature
        else if is_stale now (value_of "Request-Timestamp" r.headers)
        then err stale_timestamp
        else read_doku (lib.decode_notification r.body)),
    record r { body = "" },
  )
