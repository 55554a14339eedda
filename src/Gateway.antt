-- ===== src/Gateway.antt =====
-- internal/gateway/gateway.go: what the facade asks of a payment processor, in Stripe-domain terms.
use payrouter.Prelude.{ℕ, String, Option, List, Dict, Result}

-- gateway.Customer
pub record Payer : Type 0 where
  pub id : String
  pub email : String
  pub name : String
  pub phone : String

-- `MethodParams` holds strings.
pub record CreatePaymentInput : Type 0 where
  pub reference : String
  pub amount_minor : ℕ
  pub currency : String
  pub description : String
  pub customer : Option Payer
  pub payment_method_type : String
  pub method_params : Dict String
  pub return_url : String

-- The redirect of a `NextAction`, without the gateway's raw payload.
pub record PaymentResult : Type 0 where
  pub reference : String
  pub gateway_reference : String
  pub status : String
  pub next_action : Option String
  pub expires_at : ℕ

pub record RefundInput : Type 0 where
  pub reference : String
  pub payment_reference : String
  pub amount_minor : ℕ
  pub reason : String

pub record RefundResult : Type 0 where
  pub reference : String
  pub gateway_reference : String
  pub amount_minor : ℕ
  pub status : String

pub record WebhookEvent : Type 0 where
  pub provider_event_id : String
  pub type : String
  pub reference : String
  pub kind : String
  pub status : String
  pub sub_status : String
  pub saved_token : String
  pub gateway_sub_id : String
  pub amount_minor : ℕ
  pub object_json : String

pub record ActivateSubscriptionInput : Type 0 where
  pub facade_sub_id : String
  pub saved_token_id : String
  pub amount_minor : ℕ
  pub currency : String
  pub name : String
  pub customer : Option Payer
  pub interval : String
  pub interval_count : ℕ
  pub start_time : String
  pub max_interval : ℕ

pub record SubscriptionResult : Type 0 where
  pub facade_id : String
  pub gateway_id : String
  pub auth_reference : String
  pub status : String
  pub next_action : Option String
  pub current_period_end : ℕ
  pub amount_minor : ℕ

-- ErrInvalidSignature, ErrStaleTimestamp, and any other error with its text.
pub data GatewayError : Type 0 where
  invalid_signature : GatewayError
  stale_timestamp : GatewayError
  other : String → GatewayError

-- The parts of an http.Request that an adapter reads; the body is what is left of the stream.
pub record HttpRequest : Type 0 where
  pub headers : Dict String
  pub query : Dict String
  pub body : String

-- The interface. A call acts on the state `W` of the processor; a nil pointer is `none`.
pub record Gateway (W : Type 0) : Type 0 where
  pub name : String
  pub create_payment :
      Option CreatePaymentInput → W → Result GatewayError (Option PaymentResult) × W
  pub get_status : String → W → Result GatewayError (Option PaymentResult) × W
  pub refund : Option RefundInput → W → Result GatewayError (Option RefundResult) × W
  pub parse_webhook : HttpRequest → Result GatewayError (List WebhookEvent) × HttpRequest

-- SubscriptionGateway: the call that the webhook path makes.
pub record SubscriptionGateway (W : Type 0) : Type 0 where
  pub activate_subscription :
      ActivateSubscriptionInput → W → Result GatewayError SubscriptionResult × W
  pub cancel_subscription : String → W → Result GatewayError SubscriptionResult × W
