-- ===== src/Server/Objects/Serializers.antt =====
-- internal/server: toStripe… of the resources, which fill the Stripe-shaped objects.
use payrouter.Prelude.{
  String, Option, none, some, List, [], ◌∷◌, Result, ok, err, is_empty, ◌==◌, ◌+++◌, if◌then◌else◌,
}
use payrouter.Store.Types.{PaymentIntent, Session, Refund, Price, Subscription, Invoice, Memory}
use payrouter.Store.Memory.{get_price}
use payrouter.Server.Objects.{
  NextAction, StripePaymentIntent, StripeCheckoutSession, StripeRefund, StripeInvoice, StripePrice,
  StripeSubItem, StripeSubscription, succeeded,
}

next_action_of : PaymentIntent → Option NextAction
next_action_of pi =
    if is_empty pi.next_action_type
    then none
    else some (record {
      type = pi.next_action_type;
      url = pi.next_action_url;
      return_url = pi.next_action_return;
    })

unfoldable pub to_stripe_response : PaymentIntent → StripePaymentIntent
unfolding next_action_of
to_stripe_response pi = record {
  id = pi.id;
  object = "payment_intent";
  amount = pi.amount_minor;
  amount_capturable = 0;
  amount_received = (if pi.status == succeeded then pi.amount_minor else 0);
  currency = pi.currency;
  status = pi.status;
  capture_method = "automatic";
  confirmation_method = "manual";
  client_secret = pi.client_secret;
  payment_method_types =
      (if is_empty pi.payment_method_type then [] else pi.payment_method_type ∷ []);
  next_action = next_action_of pi;
  last_payment_error =
      (if is_empty pi.failure_message then none else some ("api_error", pi.failure_message));
  description = pi.description;
  metadata = pi.metadata;
  created = pi.created;
  livemode = pi.livemode;
}

unfoldable pub to_stripe_checkout_session : Session → StripeCheckoutSession
to_stripe_checkout_session s = record {
  id = s.id;
  object = "checkout.session";
  mode = s.mode;
  status = s.status;
  payment_status = s.payment_status;
  amount_subtotal = s.amount_subtotal;
  amount_total = s.amount_total;
  currency = s.currency;
  customer = s.customer_id;
  customer_email = s.customer_email;
  customer_details = (if is_empty s.customer_email then none else some s.customer_email);
  success_url = s.success_url;
  cancel_url = s.cancel_url;
  url = s.url;
  payment_intent = s.payment_intent_id;
  subscription = s.subscription_id;
  client_reference_id = s.client_reference_id;
  metadata = s.metadata;
  created = s.created;
  expires_at = s.expires_at;
  livemode = s.livemode;
}

unfoldable pub to_stripe_refund : Refund → StripeRefund
to_stripe_refund r = record {
  id = r.id;
  object = "refund";
  amount = r.amount;
  currency = r.currency;
  status = r.status;
  reason = r.reason;
  payment_intent = r.payment_intent_id;
  metadata = r.metadata;
  created = r.created;
  livemode = r.livemode;
}

unfoldable pub to_stripe_invoice : Invoice → StripeInvoice
to_stripe_invoice i = record {
  id = i.id;
  object = "invoice";
  status = i.status;
  customer = i.customer_id;
  subscription = i.subscription_id;
  payment_intent = i.payment_intent_id;
  total = i.amount_minor;
  currency = i.currency;
  billing_reason = i.billing_reason;
  created = i.created;
  livemode = i.livemode;
}

unfoldable pub to_stripe_price : Price → StripePrice
to_stripe_price p = record {
  id = p.id;
  object = "price";
  product = p.product_id;
  unit_amount = p.unit_amount;
  currency = p.currency;
  type = p.type;
  billing_scheme = "per_unit";
  recurring =
      (if p.type == "recurring" then some (p.interval, p.interval_count, p.usage_type) else none);
  active = p.active;
  metadata = p.metadata;
  created = p.created;
  livemode = p.livemode;
}

found_price : Result String Price → Option StripePrice
unfolding to_stripe_price
found_price (ok p) = some (to_stripe_price p)
found_price (err e) = none

-- subItems, with the random id that it takes where the subscription has a price.
sub_items : String → Subscription → Memory → List StripeSubItem
unfolding found_price
sub_items rand_id sub m =
    if is_empty sub.price_id
    then []
    else record {
      id = "si_" +++ rand_id;
      object = "subscription_item";
      price = found_price (get_price sub.price_id m);
      quantity = 1;
    }
      ∷ []

-- toStripeSubscription with `withLatest` false
unfoldable pub to_stripe_subscription : String → Subscription → Memory → StripeSubscription
unfolding sub_items
to_stripe_subscription rand_id sub m = record {
  id = sub.id;
  object = "subscription";
  status = sub.status;
  customer = sub.customer_id;
  items = sub_items rand_id sub m;
  latest_invoice = sub.latest_invoice_id;
  cancel_at = sub.canceled_at;
  canceled_at = sub.canceled_at;
  current_period_end = sub.current_period_end;
  created = sub.created;
  livemode = sub.livemode;
  metadata = sub.metadata;
}
