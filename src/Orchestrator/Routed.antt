-- ===== src/Orchestrator/Routed.antt =====
-- internal/orchestrator/router_gateway.go: the gateway that picks an adapter by its fee and routes
-- later calls by the tag of the reference. The adapters are a dictionary whose order is the order
-- in which the Go map happens to be walked.
pub mod Tagged
use payrouter.Prelude.{
  String, Bool, true, false, ◌&&◌, Option, none, some, List, [], ◌∷◌, Dict, lookup, insert, Result,
  ok, err, is_empty, not, ◌+++◌, if◌then◌else◌,
}
use payrouter.Gateway.{
  Gateway, GatewayError, CreatePaymentInput, PaymentResult, RefundInput, RefundResult, WebhookEvent,
  HttpRequest, other,
}
use payrouter.Orchestrator.OrderId.{format_order_id, extract_gateway_from_order_id}
use payrouter.Orchestrator.Router.{Floats, RootConfig, keys, select_best_gateway}

-- The keys of config.Config that BuildCandidateAdapters looks at.
pub record Credentials : Type 0 where
  pub midtrans_server_key : String
  pub xendit_secret_key : String
  pub doku_client_id : String
  pub doku_secret_key : String
  pub mayar_api_key : String

-- The channel that a payment is priced under.
unfoldable pub channel_of : Option CreatePaymentInput → String
channel_of none = "virtual_account"
channel_of (some i) =
    if is_empty i.payment_method_type then "virtual_account" else i.payment_method_type

-- Tags a result's reference with the gateway that made it.
unfoldable pub tag : String → Option PaymentResult → Option PaymentResult
tag gw none = none
tag gw (some res) =
    if is_empty res.reference
    then some res
    else some (record res { reference = format_order_id gw res.reference })

unfoldable pub tag_result :
    String → Result GatewayError (Option PaymentResult) → Result GatewayError (Option PaymentResult)
unfolding tag
tag_result gw (err e) = err e
tag_result gw (ok res) = ok (tag gw res)

-- `err == nil && len(events) > 0`
unfoldable pub accepted : Result GatewayError (List WebhookEvent) → Option (List WebhookEvent)
accepted (err e) = none
accepted (ok []) = none
accepted (ok (e ∷ es)) = some (e ∷ es)

module _ {W : Type 0} where
  unfoldable pub add_if :
      Bool → String → (String → Option (Gateway W)) → Dict (Gateway W) → Dict (Gateway W)
  add_if false name build adapters = adapters
  add_if true name build adapters = elim (build name) [
    | none ↦ adapters
    | some gw ↦ insert name gw adapters
  ]

  unfoldable pub build_candidate_adapters :
      Credentials → (String → Option (Gateway W)) → Dict (Gateway W)
  unfolding add_if
  build_candidate_adapters cfg build = add_if (not (is_empty cfg.mayar_api_key)) "mayar" build (
      add_if (not (is_empty cfg.doku_client_id) && not (is_empty cfg.doku_secret_key)) "doku" build
        (add_if (not (is_empty cfg.xendit_secret_key)) "xendit" build
          (add_if (not (is_empty cfg.midtrans_server_key)) "midtrans" build [])))

  unfoldable pub create_with :
      String
      → Option (Gateway W)
      → Option CreatePaymentInput
      → W
      → Result GatewayError (Option PaymentResult) × W
  unfolding tag_result
  create_with best none i w =
      (err (other ("orchestrator selected gateway " +++ best +++ " but adapter is not loaded")), w)
  create_with best (some adapter) i w =
      let (res, w') = adapter.create_payment i w in (tag_result best res, w')

  -- The loop over every adapter of GetStatus.
  unfoldable pub ask_all :
      String → Dict (Gateway W) → W → Result GatewayError (Option PaymentResult) × W
  ask_all gw_ref [] w =
      (err (other ("orchestrator: cannot resolve payment reference " +++ gw_ref)), w)
  ask_all gw_ref ((name, adapter) ∷ rest) w =
      let (res, w') = adapter.get_status gw_ref w in
      elim res [ ok r ↦ (ok r, w') | err e ↦ ask_all gw_ref rest w' ]

  unfoldable pub get_status :
      Dict (Gateway W) → String → W → Result GatewayError (Option PaymentResult) × W
  unfolding ask_all
  get_status adapters gateway_ref w =
      let (gw_name, raw_id) = extract_gateway_from_order_id gateway_ref in
      elim (lookup gw_name adapters) [
        | some adapter ↦ adapter.get_status raw_id w
        | none ↦ ask_all gateway_ref adapters w
      ]

  unfoldable pub refund :
      Dict (Gateway W) → Option RefundInput → W → Result GatewayError (Option RefundResult) × W
  refund adapters none w = (err (other "orchestrator: Refund input required"), w)
  refund adapters (some i) w =
      let (gw_name, raw_id) = extract_gateway_from_order_id i.payment_reference in
      elim (lookup gw_name adapters) [
        | some adapter ↦ adapter.refund (some (record i { payment_reference = raw_id })) w
        | none ↦ (
          err (other ("orchestrator: cannot route refund for reference " +++ i.payment_reference)),
          w,
        )
      ]

  -- Each adapter reads what the one before it left of the request.
  unfoldable pub parse_webhook :
      Dict (Gateway W) → HttpRequest → Result GatewayError (List WebhookEvent) × HttpRequest
  unfolding accepted
  parse_webhook [] r =
      (err (other "orchestrator: unable to parse webhook across candidate adapters"), r)
  parse_webhook ((name, adapter) ∷ rest) r =
      let (res, r') = adapter.parse_webhook r in
      elim (accepted res) [ some events ↦ (ok events, r') | none ↦ parse_webhook rest r' ]

amount_of : (F : Floats) → Option CreatePaymentInput → F.Float
amount_of F none = F.lit 0 0
amount_of F (some i) = F.lit i.amount_minor 0

module _ (F : Floats) (config : Option (RootConfig F.Float)) {W : Type 0} where
  -- The adapter that a payment goes to.
  unfoldable pub best_gateway : Dict (Gateway W) → Option CreatePaymentInput → String
  unfolding amount_of
  best_gateway adapters i =
      (select_best_gateway F config (keys adapters) (channel_of i) (amount_of F i)).0

  unfoldable pub create_payment :
      Dict (Gateway W)
      → Option CreatePaymentInput
      → W
      → Result GatewayError (Option PaymentResult) × W
  unfolding create_with best_gateway
  create_payment [] i w =
      (err (other "orchestrator: no gateway credentials configured in environment"), w)
  create_payment (a ∷ rest) i w =
      let best = best_gateway (a ∷ rest) i in create_with best (lookup best (a ∷ rest)) i w

  -- NewOrchestratedGateway
  unfoldable pub orchestrated : Dict (Gateway W) → Gateway W
  orchestrated adapters = record {
    name = "orchestrated";
    create_payment = create_payment adapters;
    get_status = get_status adapters;
    refund = refund adapters;
    parse_webhook = parse_webhook adapters;
  }
