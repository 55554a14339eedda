-- ===== src/Adapters/Midtrans.antt =====
-- internal/adapters/midtrans/midtrans.go: the adapter and its calls to the processor, CreatePayment,
-- GetStatus and Refund over doJSON. Base64, JSON, the parser of URLs and the HTTP client are parameters;
-- truncate counts bytes, which are characters here as long as a description is ASCII.
pub mod Requests
use payrouter.Prelude.{
  ℕ, String, Bool, Option, none, some, List, [], ◌∷◌, Dict, Result, ok, err, eqb, leb, is_empty,
  has_prefix, not, ◌&&◌, ◌+++◌, if◌then◌else◌,
}
use payrouter.GoLib.Int64.{pos, pos_part}
use payrouter.GoLib.Strconv.{format_int}
use payrouter.Gateway.{
  CreatePaymentInput, PaymentResult, RefundInput, RefundResult, GatewayError, Gateway, other,
}
use payrouter.Adapters.Status.{map_midtrans, requires_action}
use payrouter.Adapters.Callbacks.{Codec, gross_amount_minor, parse_midtrans}
use payrouter.Adapters.Midtrans.Requests.{SnapBody, RefundBody, snap_body, refund_body}

-- Adapter, with the HTTP client left out
pub record MidtransAdapter : Type 0 where
  pub server_key : String
  pub snap_base : String
  pub api_base : String

-- New
unfoldable pub new_midtrans : String → Bool → MidtransAdapter
new_midtrans server_key sandbox =
    if sandbox
    then record {
      server_key = server_key;
      snap_base = "https://app.sandbox.midtrans.com";
      api_base = "https://api.sandbox.midtrans.com";
    }
    else record {
      server_key = server_key;
      snap_base = "https://app.midtrans.com";
      api_base = "https://api.midtrans.com";
    }

-- SetBaseURLs
unfoldable pub set_base_urls : String → String → MidtransAdapter → MidtransAdapter
set_base_urls snap_url api_url a = record a {
  snap_base = (if is_empty snap_url then a.snap_base else snap_url);
  api_base = (if is_empty api_url then a.api_base else api_url);
}

pub record SnapResponse : Type 0 where
  pub token : String
  pub redirect_url : String

pub record StatusResponse : Type 0 where
  pub status_code : String
  pub transaction_id : String
  pub order_id : String
  pub gross_amount : String
  pub transaction_status : String
  pub fraud_status : String

pub record RefundResponse : Type 0 where
  pub status_code : String
  pub transaction_id : String
  pub order_id : String
  pub gross_amount : String
  pub transaction_status : String

pub record Request : Type 0 where
  pub method : String
  pub url : String
  pub headers : Dict String
  pub body : Option String

-- What `httpClient.Do` gives back, with the reading of the body.
pub data Reply : Type 0 where
  unsent : String → Reply
  replied : ℕ → Result String String → Reply

pub record Midtrans (W : Type 0) : Type 0 where
  pub base64 : String → String
  pub marshal_snap : SnapBody → String
  pub marshal_refund : RefundBody → String
  pub decode_snap : String → Result String SnapResponse
  pub decode_status : String → Result String StatusResponse
  pub decode_refund : String → Result String RefundResponse
  pub url_error : String → Option String
  pub send : Request → W → Reply × W

unfoldable pub read_reply :
    {A : Type 0} → (String → Result String A) → String → String → Reply → Result GatewayError A
read_reply decode method url (unsent e) =
    err (other ("midtrans: call " +++ method +++ " " +++ url +++ ": " +++ e))
read_reply decode method url (replied status (err e)) =
    err (other ("midtrans: read response: " +++ e))
read_reply decode method url (replied status (ok raw)) =
    let refused =
      other (
        "midtrans: "
        +++ method
        +++ " "
        +++ url
        +++ " returned HTTP "
        +++ format_int (pos status)) in
    if leb 400 status then err refused else elim (decode raw) [
      | err e ↦ err (other ("midtrans: decode response: " +++ e))
      | ok response ↦ ok response
    ]

unfoldable pub snap_result : CreatePaymentInput → SnapResponse → PaymentResult
snap_result input response = record {
  reference = input.reference;
  gateway_reference = response.token;
  status = requires_action;
  next_action = some response.redirect_url;
  expires_at = 0;
}

unfoldable pub status_result : StatusResponse → PaymentResult
status_result s = record {
  reference = s.order_id;
  gateway_reference = s.transaction_id;
  status = map_midtrans s.transaction_status s.fraud_status;
  next_action = none;
  expires_at = 0;
}

unfoldable pub refund_result : RefundInput → RefundResponse → RefundResult
refund_result input r = record {
  reference = input.reference;
  gateway_reference = r.transaction_id;
  amount_minor =
      (if eqb input.amount_minor 0
        then pos_part (gross_amount_minor r.gross_amount)
        else input.amount_minor);
  status =
      (if not (is_empty r.status_code) && not (has_prefix r.status_code "2")
        then "failed"
        else "succeeded");
}

-- What GetStatus makes of the answer.
unfoldable pub status_answer :
    {W : Type 0}
    → Result GatewayError StatusResponse × W
    → Result GatewayError (Option PaymentResult) × W
unfolding status_result
status_answer (err e, w) = (err e, w)
status_answer (ok s, w) = (ok (some (status_result s)), w)

module _ {W : Type 0} (lib : Midtrans W) (a : MidtransAdapter) where
  -- authHeader
  unfoldable pub auth_header : String
  auth_header = "Basic " +++ lib.base64 (a.server_key +++ ":")

  -- doJSON
  unfoldable pub do_json :
      {A : Type 0}
      → (String → Result String A)
      → String
      → String
      → Option String
      → W
      → Result GatewayError A × W
  unfolding auth_header read_reply
  do_json decode method url body w = elim (lib.url_error url) [
    | some e ↦ (err (other ("midtrans: build request: " +++ e)), w)
    | none ↦
        let request : Request = record {
          method = method;
          url = url;
          headers =
              ("Accept", "application/json")
              ∷ ("Content-Type", "application/json")
              ∷ ("Authorization", auth_header)
              ∷ [];
          body = body;
        } in
        let (reply, w') = lib.send request w in (read_reply decode method url reply, w')
  ]

  -- CreatePayment
  unfoldable pub create_payment :
      Option CreatePaymentInput → W → Result GatewayError (Option PaymentResult) × W
  unfolding do_json snap_body snap_result
  create_payment none w = (err (other "midtrans: CreatePayment requires a reference (order_id)"), w)
  create_payment (some input) w =
      let (response, w') =
        do_json lib.decode_snap "POST" (a.snap_base +++ "/snap/v1/transactions")
          (some (lib.marshal_snap (snap_body input))) w in
      if is_empty input.reference
      then (err (other "midtrans: CreatePayment requires a reference (order_id)"), w)
      else if eqb input.amount_minor 0
      then (err (other "midtrans: CreatePayment requires a positive amount"), w)
      else elim response [ err e ↦ (err e, w') | ok r ↦ (ok (some (snap_result input r)), w') ]

  -- GetStatus
  unfoldable pub get_status : String → W → Result GatewayError (Option PaymentResult) × W
  unfolding do_json status_answer
  get_status gateway_ref w =
      if is_empty gateway_ref
      then (err (other "midtrans: GetStatus requires a gateway reference (order_id)"), w)
      else status_answer (
          do_json lib.decode_status "GET" (a.api_base +++ "/v2/" +++ gateway_ref +++ "/status") none
            w)

  -- Refund
  unfoldable pub refund : Option RefundInput → W → Result GatewayError (Option RefundResult) × W
  unfolding do_json refund_body refund_result
  refund none w = (err (other "midtrans: Refund requires a payment reference (order_id)"), w)
  refund (some input) w =
      let (response, w') =
        do_json lib.decode_refund "POST"
          (a.api_base +++ "/v2/" +++ input.payment_reference +++ "/refund")
          (some (lib.marshal_refund (refund_body input))) w in
      if is_empty input.payment_reference
      then (err (other "midtrans: Refund requires a payment reference (order_id)"), w)
      else elim response [ err e ↦ (err e, w') | ok r ↦ (ok (some (refund_result input r)), w') ]

  -- The adapter as a gateway.
  unfoldable pub midtrans : Codec → Gateway W
  unfolding create_payment get_status refund parse_midtrans
  midtrans c = record {
    name = "midtrans";
    create_payment = create_payment;
    get_status = get_status;
    refund = refund;
    parse_webhook = parse_midtrans c a.server_key;
  }
