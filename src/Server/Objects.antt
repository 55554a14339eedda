-- ===== src/Server/Objects.antt =====
-- internal/server: the Stripe-shaped objects that the events and responses carry. A field that the
-- JSON leaves out when it is empty is still a field here.
pub mod Serializers
use payrouter.Prelude.{
  ℕ, String, Bool, Option, none, some, List, [], ◌∷◌, Dict, Result, ok, err, is_empty, ◌==◌, ◌+++◌,
  if◌then◌else◌,
}
use payrouter.Store.Types.{PaymentIntent, Session, Refund, Price, Subscription, Invoice, Memory}
use payrouter.Store.Memory.{get_price}

-- stripe.PaymentIntentStatusSucceeded, stripe.SubscriptionStatusActive and …Incomplete,
-- stripe.InvoiceStatusPaid and …Open
abbrev pub succeeded : String
succeeded = "succeeded"

abbrev pub active : String
active = "active"

abbrev pub incomplete : String
incomplete = "incomplete"

abbrev pub paid : String
paid = "paid"

abbrev pub open_invoice : String
open_invoice = "open"

pub record NextAction : Type 0 where
  pub type : String
  pub url : String
  pub return_url : String

pub record StripePaymentIntent : Type 0 where
  pub id : String
  pub object : String
  pub amount : ℕ
  pub amount_capturable : ℕ
  pub amount_received : ℕ
  pub currency : String
  pub status : String
  pub capture_method : String
  pub confirmation_method : String
  pub client_secret : String
  pub payment_method_types : List String
  pub next_action : Option NextAction
  pub last_payment_error : Option (String × String)
  pub description : String
  pub metadata : Dict String
  pub created : ℕ
  pub livemode : Bool

pub record StripeCheckoutSession : Type 0 where
  pub id : String
  pub object : String
  pub mode : String
  pub status : String
  pub payment_status : String
  pub amount_subtotal : ℕ
  pub amount_total : ℕ
  pub currency : String
  pub customer : String
  pub customer_email : String
  pub customer_details : Option String
  pub success_url : String
  pub cancel_url : String
  pub url : String
  pub payment_intent : String
  pub subscription : String
  pub client_reference_id : String
  pub metadata : Dict String
  pub created : ℕ
  pub expires_at : ℕ
  pub livemode : Bool

pub record StripeRefund : Type 0 where
  pub id : String
  pub object : String
  pub amount : ℕ
  pub currency : String
  pub status : String
  pub reason : String
  pub payment_intent : String
  pub metadata : Dict String
  pub created : ℕ
  pub livemode : Bool

pub record StripeInvoice : Type 0 where
  pub id : String
  pub object : String
  pub status : String
  pub customer : String
  pub subscription : String
  pub payment_intent : String
  pub total : ℕ
  pub currency : String
  pub billing_reason : String
  pub created : ℕ
  pub livemode : Bool

pub record StripePrice : Type 0 where
  pub id : String
  pub object : String
  pub product : String
  pub unit_amount : ℕ
  pub currency : String
  pub type : String
  pub billing_scheme : String
  pub recurring : Option (String × ℕ × String)
  pub active : Bool
  pub metadata : Dict String
  pub created : ℕ
  pub livemode : Bool

pub record StripeSubItem : Type 0 where
  pub id : String
  pub object : String
  pub price : Option StripePrice
  pub quantity : ℕ

-- toStripeSubscription without the expanded invoice, the form of every event.
pub record StripeSubscription : Type 0 where
  pub id : String
  pub object : String
  pub status : String
  pub customer : String
  pub items : List StripeSubItem
  pub latest_invoice : String
  pub cancel_at : ℕ
  pub canceled_at : ℕ
  pub current_period_end : ℕ
  pub created : ℕ
  pub livemode : Bool
  pub metadata : Dict String

-- What `json.Marshal` is given.
pub data StripeObject : Type 0 where
  payment_intent : StripePaymentIntent → StripeObject
  checkout_session : StripeCheckoutSession → StripeObject
  refund : StripeRefund → StripeObject
  invoice : StripeInvoice → StripeObject
  subscription : StripeSubscription → StripeObject

-- `data` is the JSON of the object.
pub record StripeEvent : Type 0 where
  pub id : String
  pub object : String
  pub api_version : String
  pub created : ℕ
  pub type : String
  pub data_object : String
