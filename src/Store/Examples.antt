-- ===== src/Store/Examples.antt =====
-- Concrete stores, and the store's theorems at them.
use payrouter.Prelude.{String, false, List, [], ◌∷◌}
use payrouter.Store.Types.{
  PaymentIntent, Session, Subscription, Invoice, WebhookDelivery, Memory, delivery_pending,
}
use payrouter.Store.Memory.{new_memory}
use payrouter.Store.Queue.{enqueue_webhook}
use payrouter.Store.Queue.Lease.{LeaseOutcome, lease_least}
use payrouter.Store.Invariant.{
  IsIndexed, Write, writes, put_intent, enqueue, lease, new_memory-writes-IsIndexed,
}

abbrev pub intent : PaymentIntent
intent = record {
  id = "pi_1";
  account_id = "acct";
  amount_minor = 10000;
  currency = "idr";
  status = "requires_action";
  client_secret = "pi_1_secret";
  payment_method_type = "id_qris";
  gateway_reference = "gw_1";
  next_action_type = "";
  next_action_url = "";
  next_action_return = "";
  description = "";
  failure_message = "";
  metadata = [];
  created = 1;
  livemode = false;
}

abbrev pub session : Session
session = record {
  id = "cs_1";
  account_id = "acct";
  mode = "payment";
  status = "open";
  payment_status = "unpaid";
  amount_subtotal = 10000;
  amount_total = 10000;
  currency = "idr";
  customer_id = "";
  customer_email = "";
  success_url = "";
  cancel_url = "";
  url = "";
  payment_intent_id = "pi_1";
  subscription_id = "";
  client_reference_id = "";
  description = "";
  metadata = [];
  created = 1;
  expires_at = 2;
  livemode = false;
}

abbrev pub plan : Subscription
plan = record {
  id = "sub_1";
  account_id = "acct";
  customer_id = "";
  price_id = "";
  status = "incomplete";
  gateway_id = "gs_1";
  auth_payment_intent_id = "pi_1";
  interval = "month";
  interval_count = 1;
  amount_minor = 10000;
  currency = "idr";
  current_period_end = 0;
  latest_invoice_id = "in_1";
  canceled_at = 0;
  metadata = [];
  created = 1;
  livemode = false;
}

abbrev pub first_invoice : Invoice
first_invoice = record {
  id = "in_1";
  account_id = "acct";
  subscription_id = "sub_1";
  payment_intent_id = "pi_1";
  customer_id = "";
  amount_minor = 10000;
  currency = "idr";
  status = "open";
  billing_reason = "subscription_create";
  created = 1;
  livemode = false;
  metadata = [];
}

abbrev pub delivery : String → WebhookDelivery
delivery id = record {
  id = id;
  type = "payment_intent.succeeded";
  reference = "pi_1";
  payload = "body";
  status = delivery_pending;
  attempts = 0;
  next_attempt_at = 0;
  last_error = "";
  created = 1;
}

abbrev calls : List Write
calls = put_intent intent ∷ enqueue (delivery "evt_b") ∷ enqueue (delivery "evt_a") ∷ lease 5 ∷ []

abbrev queued : Memory
queued = enqueue_webhook (delivery "evt_a") (enqueue_webhook (delivery "evt_b") new_memory)

lease_least_example : LeaseOutcome 5 queued
lease_least_example = lease_least 5 queued

new_memory-writes-IsIndexed_example : IsIndexed (writes new_memory calls)
new_memory-writes-IsIndexed_example = new_memory-writes-IsIndexed calls
