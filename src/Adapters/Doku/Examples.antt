-- ===== src/Adapters/Doku/Examples.antt =====
-- A DOKU notification that is two minutes old.
use payrouter.Prelude.{List, [], ◌∷◌, ◌+++◌, ok, some, refl, lookup, ◌≡◌, ◌≤◌, ◌+◌, arith}
use payrouter.GoLib.Int64.{pos}
use payrouter.Gateway.{HttpRequest, WebhookEvent}
use payrouter.Adapters.Callbacks.{value_of}
use payrouter.Adapters.Doku.{
  Notification, DokuLib, DokuAdapter, sign, canonical, verify, digest, signed_headers,
  notification_event, parse_doku, is_authentic, is_stale, is_outside, read_doku,
}
use payrouter.Adapters.Doku.Notifications.{
  IsAuthentic, parse_doku-IsAuthentic, parse_doku-fresh, parse_doku-signed_headers,
}

abbrev paid : Notification
paid = record { invoice_number = "pi_1"; amount = pos 10000; transaction_status = "SUCCESS" }

-- Digests that keep their text, and one time that everything was sent at.
abbrev doku_lib : DokuLib
doku_lib = record {
  sha256_base64 = λ s. s;
  hmac_base64 = λ key message. key +++ message;
  parse_time = λ s. some 1000000000000;
  decode_notification = λ s. ok paid;
  marshal = λ i. i.status;
}

abbrev adapter : DokuAdapter
adapter = record {
  client_id = "BRN-1";
  secret_key = "SK-1";
  base_url = "https://api-sandbox.doku.com";
  notification_url = "/v1/webhooks/doku";
}

abbrev sent_by_doku : HttpRequest
sent_by_doku = record {
  headers =
      ("Client-Id", "BRN-1")
      ∷ ("Request-Id", "r-1")
      ∷ ("Request-Timestamp", "2026-01-01T00:00:00Z")
      ∷ ("Digest", "{}")
      ∷ (
        "Signature",
        "HMACSHA256=SK-1Client-Id:BRN-1\nRequest-Id:r-1\nRequest-Timestamp:2026-01-01T00:00:00Z\nRequest-Target:/v1/webhooks/doku\nDigest:{}",
      )
      ∷ [];
  query = [];
  body = "{}";
}

abbrev events : List WebhookEvent
events = notification_event doku_lib paid ∷ []

parse_doku-signed_headers_example :
    (parse_doku doku_lib adapter 1120000000000 (record {
      headers =
          signed_headers doku_lib adapter "r-1" "2026-01-01T00:00:00Z" adapter.notification_url
            "{}";
      query = [];
      body = "{}";
    })).0
    ≡ ok events
parse_doku-signed_headers_example =
    parse_doku-signed_headers doku_lib adapter 1120000000000 "r-1" "2026-01-01T00:00:00Z" "{}"
      1000000000000 paid refl (omega arith) (omega arith) refl

parse_doku-IsAuthentic_example : IsAuthentic doku_lib adapter 1120000000000 sent_by_doku events
unfolding value_of lookup sign canonical digest parse_doku is_authentic verify is_stale is_outside
    read_doku
parse_doku-IsAuthentic_example =
    parse_doku-IsAuthentic doku_lib adapter 1120000000000 sent_by_doku events refl

parse_doku-fresh_example :
    (1120000000000 ≤ 1000000000000 + 300000000000) × (1000000000000 ≤ 1120000000000 + 300000000000)
unfolding value_of lookup sign canonical digest parse_doku is_authentic verify is_stale is_outside
    read_doku
parse_doku-fresh_example =
    parse_doku-fresh doku_lib adapter 1120000000000 sent_by_doku events 1000000000000 refl refl refl
