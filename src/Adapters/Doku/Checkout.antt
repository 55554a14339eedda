-- ===== src/Adapters/Doku/Checkout.antt =====
-- internal/adapters/doku/doku.go: CreatePayment, GetStatus and Refund, with the POST that doJSON makes.
-- The processor, the random request ids and the clock are parameters.
use payrouter.Prelude.{
  ℕ, String, Option, none, some, [], ◌∷◌, ◌++◌, Dict, Result, ok, err, eqb, leb, is_empty, ◌+++◌,
  if◌then◌else◌,
}
use payrouter.GoLib.Int64.{pos}
use payrouter.GoLib.Strconv.{format_int}
use payrouter.GoLib.Strings.{to_upper}
use payrouter.Gateway.{Payer, CreatePaymentInput, PaymentResult, GatewayError, Gateway, other}
use payrouter.Adapters.Status.{requires_action}
use payrouter.Adapters.Doku.{DokuLib, DokuAdapter, checkout_path, signed_headers, parse_doku}

-- The body of the request, as the maps that CreatePayment fills; a callback URL comes with
-- `auto_redirect`.
pub record CheckoutBody : Type 0 where
  pub amount : ℕ
  pub invoice_number : String
  pub currency : String
  pub callback_url : Option String
  pub payment_due_date : ℕ
  pub customer : Option (Dict String)

pub record CheckoutResponse : Type 0 where
  pub url : String
  pub token_id : String

pub record Post : Type 0 where
  pub url : String
  pub headers : Dict String
  pub body : String

-- What `httpClient.Do` gives back, with the reading of the body.
pub data Answer : Type 0 where
  not_sent : String → Answer
  answered : ℕ → Result String String → Answer

pub record Processor (W : Type 0) : Type 0 where
  pub marshal_checkout : CheckoutBody → String
  pub decode_checkout : String → Result String CheckoutResponse
  pub url_error : String → Option String
  pub request_id : W → String
  pub timestamp : W → String
  pub send : Post → W → Answer × W

unfoldable pub given : String → String → Dict String
given key value = if is_empty value then [] else (key, value) ∷ []

-- The customer's details that are not empty, if there are any.
unfoldable pub customer_details : Option Payer → Option (Dict String)
unfolding given
customer_details none = none
customer_details (some c) =
    let details =
      given "name" c.name ++ given "email" c.email ++ given "phone" c.phone ++ given "id" c.id in
    elim details [ [] ↦ none | detail ∷ rest ↦ some (detail ∷ rest) ]

unfoldable pub checkout_body : CreatePaymentInput → CheckoutBody
unfolding customer_details
checkout_body input = record {
  amount = input.amount_minor;
  invoice_number = input.reference;
  currency = (if is_empty input.currency then "IDR" else to_upper input.currency);
  callback_url = (if is_empty input.return_url then none else some input.return_url);
  payment_due_date = 60;
  customer = customer_details input.customer;
}

unfoldable pub read_answer :
    (String → Result String CheckoutResponse)
    → String
    → Answer
    → Result GatewayError CheckoutResponse
read_answer decode target (not_sent e) = err (other ("doku: call POST " +++ target +++ ": " +++ e))
read_answer decode target (answered status (err e)) = err (other ("doku: read response: " +++ e))
read_answer decode target (answered status (ok raw)) =
    let refused =
      other ("doku: POST " +++ target +++ " returned HTTP " +++ format_int (pos status)) in
    if leb 400 status then err refused else elim (decode raw) [
      | err e ↦ err (other ("doku: decode response: " +++ e))
      | ok response ↦ ok response
    ]

module _ (lib : DokuLib) (a : DokuAdapter) {W : Type 0} (processor : Processor W) where
  unfoldable pub checkout_post : CheckoutBody → W → Post
  unfolding signed_headers
  checkout_post checkout w =
      let body = processor.marshal_checkout checkout in
      record {
        url = a.base_url +++ checkout_path;
        headers =
            signed_headers lib a (processor.request_id w) (processor.timestamp w) checkout_path body
            ++ ("Accept", "application/json") ∷ ("Content-Type", "application/json") ∷ [];
        body = body;
      }

  -- doJSON
  unfoldable pub do_json : CheckoutBody → W → Result GatewayError CheckoutResponse × W
  unfolding checkout_post read_answer
  do_json checkout w = elim (processor.url_error (a.base_url +++ checkout_path)) [
    | some e ↦ (err (other ("doku: build request: " +++ e)), w)
    | none ↦
        let (answer, w') = processor.send (checkout_post checkout w) w in
        (read_answer processor.decode_checkout checkout_path answer, w')
  ]

  unfoldable pub checkout_result : CreatePaymentInput → CheckoutResponse → PaymentResult
  checkout_result input response = record {
    reference = input.reference;
    gateway_reference = response.token_id;
    status = requires_action;
    next_action = some response.url;
    expires_at = 0;
  }

  -- CreatePayment
  unfoldable pub create_payment :
      Option CreatePaymentInput → W → Result GatewayError (Option PaymentResult) × W
  unfolding checkout_body do_json checkout_result
  create_payment none w =
      (err (other "doku: CreatePayment requires a reference (invoice_number)"), w)
  create_payment (some input) w =
      let (response, w') = do_json (checkout_body input) w in
      if is_empty input.reference
      then (err (other "doku: CreatePayment requires a reference (invoice_number)"), w)
      else if eqb input.amount_minor 0
      then (err (other "doku: CreatePayment requires a positive amount"), w)
      else elim response [ err e ↦ (err e, w') | ok r ↦ (ok (some (checkout_result input r)), w') ]

  -- The adapter as a gateway, at a time for its callbacks.
  unfoldable pub doku : ℕ → Gateway W
  unfolding create_payment parse_doku
  doku now = record {
    name = "doku";
    create_payment = create_payment;
    get_status = λ reference w. (
      err (
          other
            "doku: GetStatus not supported — DOKU delivers status via push notification; use ParseWebhook"),
      w,
    );
    refund = λ input w. (
      err (
          other
            "doku: Refund not supported in this adapter version (DOKU refunds are channel-specific)"),
      w,
    );
    parse_webhook = parse_doku lib a now;
  }
