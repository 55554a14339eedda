-- ===== src/Store/Types.antt =====
-- internal/store/memory.go: the resource records. An int64 that the code keeps non-negative
-- (amounts, unix times, counts) is a number; a `map[string]string` is a `Dict String`.
use payrouter.Prelude.{ℕ, String, Bool, Dict}

pub record PaymentIntent : Type 0 where
  pub id : String
  pub account_id : String
  pub amount_minor : ℕ
  pub currency : String
  pub status : String
  pub client_secret : String
  pub payment_method_type : String
  pub gateway_reference : String
  pub next_action_type : String
  pub next_action_url : String
  pub next_action_return : String
  pub description : String
  pub failure_message : String
  pub metadata : Dict String
  pub created : ℕ
  pub livemode : Bool

pub record Session : Type 0 where
  pub id : String
  pub account_id : String
  pub mode : String
  pub status : String
  pub payment_status : String
  pub amount_subtotal : ℕ
  pub amount_total : ℕ
  pub currency : String
  pub customer_id : String
  pub customer_email : String
  pub success_url : String
  pub cancel_url : String
  pub url : String
  pub payment_intent_id : String
  pub subscription_id : String
  pub client_reference_id : String
  pub description : String
  pub metadata : Dict String
  pub created : ℕ
  pub expires_at : ℕ
  pub livemode : Bool

pub record Customer : Type 0 where
  pub id : String
  pub account_id : String
  pub email : String
  pub name : String
  pub phone : String
  pub metadata : Dict String
  pub created : ℕ
  pub livemode : Bool

pub record Refund : Type 0 where
  pub id : String
  pub account_id : String
  pub payment_intent_id : String
  pub amount : ℕ
  pub currency : String
  pub status : String
  pub reason : String
  pub metadata : Dict String
  pub created : ℕ
  pub livemode : Bool

pub record Product : Type 0 where
  pub id : String
  pub account_id : String
  pub name : String
  pub description : String
  pub active : Bool
  pub metadata : Dict String
  pub created : ℕ
  pub updated : ℕ
  pub livemode : Bool

pub record Price : Type 0 where
  pub id : String
  pub account_id : String
  pub product_id : String
  pub unit_amount : ℕ
  pub currency : String
  pub type : String
  pub interval : String
  pub interval_count : ℕ
  pub usage_type : String
  pub active : Bool
  pub metadata : Dict String
  pub created : ℕ
  pub livemode : Bool

pub record Subscription : Type 0 where
  pub id : String
  pub account_id : String
  pub customer_id : String
  pub price_id : String
  pub status : String
  pub gateway_id : String
  pub auth_payment_intent_id : String
  pub interval : String
  pub interval_count : ℕ
  pub amount_minor : ℕ
  pub currency : String
  pub current_period_end : ℕ
  pub latest_invoice_id : String
  pub canceled_at : ℕ
  pub metadata : Dict String
  pub created : ℕ
  pub livemode : Bool

pub record Invoice : Type 0 where
  pub id : String
  pub account_id : String
  pub subscription_id : String
  pub payment_intent_id : String
  pub customer_id : String
  pub amount_minor : ℕ
  pub currency : String
  pub status : String
  pub billing_reason : String
  pub created : ℕ
  pub livemode : Bool
  pub metadata : Dict String

-- The payload is the event's JSON, a sequence of bytes.
pub record WebhookDelivery : Type 0 where
  pub id : String
  pub type : String
  pub reference : String
  pub payload : String
  pub status : String
  pub attempts : ℕ
  pub next_attempt_at : ℕ
  pub last_error : String
  pub created : ℕ

abbrev pub delivery_pending : String
delivery_pending = "pending"

abbrev pub delivery_delivered : String
delivery_delivered = "delivered"

abbrev pub delivery_failed : String
delivery_failed = "failed"

-- The literal that `LeaseDueWebhook` writes.
abbrev pub delivery_in_flight : String
delivery_in_flight = "in_flight"

pub record Memory : Type 0 where
  pub intents : Dict PaymentIntent
  pub gw_ref_index : Dict String
  pub sessions : Dict Session
  pub session_by_pi : Dict String
  pub customers : Dict Customer
  pub refunds : Dict Refund
  pub products : Dict Product
  pub prices : Dict Price
  pub subscriptions : Dict Subscription
  pub sub_by_gw_id : Dict String
  pub sub_by_auth_pi : Dict String
  pub invoices : Dict Invoice
  pub invoice_by_pi : Dict String
  pub webhooks : Dict WebhookDelivery
