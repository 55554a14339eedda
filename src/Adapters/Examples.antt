-- ===== src/Adapters/Examples.antt =====
-- The callbacks of the adapters at concrete requests.
use payrouter.Prelude.{
  ℕ, String, true, [], ◌∷◌, lookup, ok, err, ◌≡◌, ◌≢◌, refl, ◌⊎◌, ◌==◌, if◌then◌else◌, none,
}
use payrouter.GoLib.Int64.{pos}
use payrouter.Gateway.{Gateway, WebhookEvent, HttpRequest, other}
use payrouter.GoLib.Strings.{to_upper}
use payrouter.Adapters.Status.{map_xendit}
use payrouter.Adapters.Callbacks.{
  Codec, MidtransNotification, MayarCallback, value_of, verify_token, midtrans_events,
  payment_event, parse_midtrans, read_xendit, parse_xendit, read_mayar, parse_mayar,
}
use payrouter.Adapters.Verified.{
  IsSigned, parse_midtrans-IsSigned, parse_xendit-token, parse_mayar-token,
}
use payrouter.Adapters.Order.{with_midtrans, with_xendit, parse_webhook-order}
use payrouter.Orchestrator.Routed.{parse_webhook}

abbrev notice : MidtransNotification
notice = record {
  status_code = "200";
  transaction_id = "tx_1";
  order_id = "pi_1";
  gross_amount = "10000.00";
  transaction_status = "settlement";
  fraud_status = "accept";
  signature_key = "pi_120010000.00key";
  saved_token_id = "";
  subscription_id = "";
}

-- What json.Unmarshal makes of an object without any of the fields.
abbrev unsigned : MidtransNotification
unsigned = record {
  status_code = "";
  transaction_id = "";
  order_id = "";
  gross_amount = "";
  transaction_status = "";
  fraud_status = "";
  signature_key = "";
  saved_token_id = "";
  subscription_id = "";
}

-- A codec that knows three bodies; its digest is the text itself.
abbrev codec : Codec
codec = record {
  decode_midtrans = λ body.
      if body == "midtrans" then ok notice else if body == "" then err "bad JSON" else ok unsigned;
  decode_xendit = λ body.
      if body == "xendit"
      then ok (record {
        id = "inv_1";
        external_id = "pi_1";
        status = "PAID";
        amount = pos 10000;
        paid_amount = pos 10000;
      })
      else err "bad JSON";
  decode_mayar = λ body.
      if body == "mayar"
      then ok (record { event = "payment.received"; id = "m_1"; status = true; amount = pos 10000 })
      else err "bad JSON";
  marshal = λ o. o.id;
  sha512_hex = λ s. s;
}

abbrev secret : String
secret = "secret"

abbrev request : String → HttpRequest
request body = record {
  headers = ("X-Callback-Token", "secret") ∷ [];
  query = ("token", "secret") ∷ [];
  body = body;
}

abbrev settled : WebhookEvent
settled = payment_event codec "tx_1" "pi_1" (pos 10000) "succeeded"

abbrev invoice_paid : WebhookEvent
invoice_paid = payment_event codec "inv_1" "pi_1" (pos 10000) "succeeded"

abbrev mayar_paid : WebhookEvent
mayar_paid = payment_event codec "m_1" "m_1" (pos 10000) "succeeded"

parse_midtrans-IsSigned_example :
    IsSigned codec (request "midtrans") (midtrans_events codec notice) "key"
unfolding parse_midtrans
parse_midtrans-IsSigned_example =
    parse_midtrans-IsSigned codec (request "midtrans") (midtrans_events codec notice) "key" refl

parse_xendit-token_example :
    (secret ≢ "") × (value_of "X-Callback-Token" (request "xendit").headers ≡ "secret")
unfolding parse_xendit read_xendit verify_token value_of lookup map_xendit to_upper
parse_xendit-token_example =
    parse_xendit-token codec (request "xendit") (invoice_paid ∷ []) "secret" refl

parse_mayar-token_example :
    (secret ≢ "")
    × (value_of "token" (request "mayar").query ≡ "secret")
    × (((mayar_paid ∷ []) ≡ [])
        ⊎ ((wh : MayarCallback) × (codec.decode_mayar "mayar" ≡ ok wh)
            × (wh.event ≡ "payment.received")
            × (wh.status ≡ true)))
unfolding parse_mayar read_mayar verify_token value_of lookup
parse_mayar-token_example =
    parse_mayar-token codec (request "mayar") (mayar_paid ∷ []) "secret" refl

abbrev silent : Gateway ℕ
silent = record {
  name = "silent";
  create_payment = λ i w. (ok none, w);
  get_status = λ ref w. (ok none, w);
  refund = λ i w. (ok none, w);
  parse_webhook = λ r. (ok [], r);
}

parse_webhook-order_example :
    ((parse_webhook
        (("xendit", with_xendit codec "secret" silent)
          ∷ ("midtrans", with_midtrans codec "key" silent)
          ∷ [])
        (request "xendit")).0
      ≡ ok (invoice_paid ∷ []))
    × ((parse_webhook
          (("midtrans", with_midtrans codec "key" silent)
            ∷ ("xendit", with_xendit codec "secret" silent)
            ∷ [])
          (request "xendit")).0
        ≡ err (other "orchestrator: unable to parse webhook across candidate adapters"))
unfolding verify_token value_of lookup read_xendit map_xendit to_upper
parse_webhook-order_example =
    parse_webhook-order codec "key" "secret" silent silent (request "xendit") unsigned "bad JSON"
      invoice_paid refl refl refl refl refl
