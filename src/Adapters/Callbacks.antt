-- ===== src/Adapters/Callbacks.antt =====
-- internal/adapters: ParseWebhook of midtrans/midtrans.go, xendit/xendit.go and mayar/mayar.go. The
-- body is read whole, at the place where each does so. encoding/json and SHA-512 are parameters.
use payrouter.Prelude.{
  String, Bool, false, not, ◌||◌, none, some, List, [], ◌∷◌, Dict, lookup, Result, ok, err,
  is_empty, ◌==◌, ◌+++◌, if◌then◌else◌,
}
use payrouter.GoLib.Int64.{ℤ, pos, pos_part, ltb_ℤ}
use payrouter.GoLib.Strings.{cut}
use payrouter.GoLib.Strconv.{parse_int}
use payrouter.Gateway.{GatewayError, WebhookEvent, HttpRequest, invalid_signature, other}
use payrouter.Adapters.Status.{map_midtrans, map_xendit, stripe_event_type, succeeded}

-- midtrans: notification
pub record MidtransNotification : Type 0 where
  pub status_code : String
  pub transaction_id : String
  pub order_id : String
  pub gross_amount : String
  pub transaction_status : String
  pub fraud_status : String
  pub signature_key : String
  pub saved_token_id : String
  pub subscription_id : String

-- xendit: invoiceCallback
pub record InvoiceCallback : Type 0 where
  pub id : String
  pub external_id : String
  pub status : String
  pub amount : ℤ
  pub paid_amount : ℤ

-- mayar: callback
pub record MayarCallback : Type 0 where
  pub event : String
  pub id : String
  pub status : Bool
  pub amount : ℤ

-- stripePaymentIntentLike
pub record IntentLike : Type 0 where
  pub id : String
  pub object : String
  pub amount : ℤ
  pub currency : String
  pub status : String

-- json.Unmarshal into each struct, json.Marshal of the object, and the hex digest of SHA-512.
pub record Codec : Type 0 where
  pub decode_midtrans : String → Result String MidtransNotification
  pub decode_xendit : String → Result String InvoiceCallback
  pub decode_mayar : String → Result String MayarCallback
  pub marshal : IntentLike → String
  pub sha512_hex : String → String

abbrev pub Parsed : Type 0
Parsed = Result GatewayError (List WebhookEvent)

unfoldable pub intent_like : String → ℤ → String → IntentLike
intent_like id amount status = record {
  id = id;
  object = "payment_intent";
  amount = amount;
  currency = "idr";
  status = status;
}

-- An event of a one-time payment.
unfoldable pub payment_event : Codec → String → String → ℤ → String → WebhookEvent
unfolding intent_like
payment_event c provider_id reference amount status = record {
  provider_event_id = provider_id;
  type = stripe_event_type status;
  reference = reference;
  kind = "";
  status = status;
  sub_status = "";
  saved_token = "";
  gateway_sub_id = "";
  amount_minor = 0;
  object_json = c.marshal (intent_like reference amount status);
}

-- verifySignature; ConstantTimeCompare is 1 on equal texts
unfoldable pub verify_signature : Codec → String → MidtransNotification → Bool
verify_signature c server_key n =
    if is_empty n.signature_key
    then false
    else c.sha512_hex (n.order_id +++ n.status_code +++ n.gross_amount +++ server_key)
      == n.signature_key

-- grossAmountMinor
unfoldable pub gross_amount_minor : String → ℤ
gross_amount_minor s = elim (cut b'.' s) [
  | none ↦ (parse_int s).0
  | some (whole, rest) ↦ (parse_int whole).0
]

-- The event of a notification about a subscription. An amount below 0, which is no amount of a
-- charge, counts as 0.
unfoldable pub recurring_event : String → String → String → MidtransNotification → WebhookEvent
unfolding gross_amount_minor
recurring_event type saved_token gateway_sub_id n = record {
  provider_event_id = n.transaction_id;
  type = type;
  reference = n.order_id;
  kind = "subscription";
  status = "";
  sub_status = "";
  saved_token = saved_token;
  gateway_sub_id = gateway_sub_id;
  amount_minor = pos_part (gross_amount_minor n.gross_amount);
  object_json = "";
}

unfoldable pub midtrans_events : Codec → MidtransNotification → List WebhookEvent
unfolding recurring_event payment_event
midtrans_events c n =
    if not (is_empty n.saved_token_id)
    then recurring_event "customer.subscription.activating" n.saved_token_id "" n ∷ []
    else if not (is_empty n.subscription_id)
    then recurring_event "invoice.payment_succeeded" "" n.subscription_id n ∷ []
    else payment_event c n.transaction_id n.order_id (gross_amount_minor n.gross_amount)
        (map_midtrans n.transaction_status n.fraud_status)
      ∷ []

unfoldable pub read_midtrans : Codec → String → Result String MidtransNotification → Parsed
unfolding verify_signature midtrans_events
read_midtrans c server_key (err e) = err (other ("midtrans: cannot parse notification: " +++ e))
read_midtrans c server_key (ok n) =
    if verify_signature c server_key n then ok (midtrans_events c n) else err invalid_signature

unfoldable pub parse_midtrans : Codec → String → HttpRequest → Parsed × HttpRequest
unfolding read_midtrans
parse_midtrans c server_key r =
    (read_midtrans c server_key (c.decode_midtrans r.body), record r { body = "" })

-- The value of a header or query parameter, empty where it is missing.
unfoldable pub value_of : String → Dict String → String
value_of key d = elim (lookup key d) [ none ↦ "" | some v ↦ v ]

-- verifyCallbackToken and verifyToken
unfoldable pub verify_token : String → String → Bool
verify_token provided expected = if is_empty expected then false else provided == expected

-- amountValue
unfoldable pub amount_value : ℤ → ℤ → ℤ
amount_value amount paid = if ltb_ℤ (pos 0) paid then paid else amount

unfoldable pub read_xendit : Codec → Result String InvoiceCallback → Parsed
unfolding payment_event amount_value
read_xendit c (err e) = err (other ("xendit: cannot parse callback: " +++ e))
read_xendit c (ok cb) = ok (
    payment_event c cb.id cb.external_id (amount_value cb.amount cb.paid_amount)
      (map_xendit cb.status)
    ∷ [])

unfoldable pub parse_xendit : Codec → String → HttpRequest → Parsed × HttpRequest
unfolding read_xendit value_of verify_token
parse_xendit c webhook_token r =
    if verify_token (value_of "X-Callback-Token" r.headers) webhook_token
    then (read_xendit c (c.decode_xendit r.body), record r { body = "" })
    else (err invalid_signature, r)

unfoldable pub read_mayar : Codec → Result String MayarCallback → Parsed
unfolding payment_event
read_mayar c (err e) = err (other ("mayar: cannot parse webhook: " +++ e))
read_mayar c (ok wh) =
    if not (wh.event == "payment.received") || not wh.status
    then ok []
    else ok (payment_event c wh.id wh.id wh.amount succeeded ∷ [])

unfoldable pub parse_mayar : Codec → String → HttpRequest → Parsed × HttpRequest
unfolding read_mayar value_of verify_token
parse_mayar c webhook_token r =
    if verify_token (value_of "token" r.query) webhook_token
    then (read_mayar c (c.decode_mayar r.body), record r { body = "" })
    else (err invalid_signature, r)
