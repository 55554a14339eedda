-- ===== src/Server/Events.antt =====
-- internal/server/webhook.go on the in-memory store: what a verified gateway notification does.
pub mod Lookup
pub mod Repeat
pub mod Cycle
pub mod Activation
pub mod Payment
pub mod Others
use payrouter.Prelude.{
  ℕ, ◌+◌, String, Bool, true, false, Option, none, some, List, [], ◌∷◌, Result, ok, err, is_empty,
  has_prefix, eqb, ◌==◌, ◌||◌, ◌+++◌, not, if◌then◌else◌,
}
use payrouter.Gateway.{
  WebhookEvent, SubscriptionGateway, ActivateSubscriptionInput, SubscriptionResult, GatewayError,
  Payer,
}
use payrouter.Store.Types.{
  PaymentIntent, Session, Customer, Product, Price, Subscription, Invoice, Memory, delivery_pending,
}
use payrouter.Store.Memory.{
  get, put, get_by_gateway_reference, get_session_by_payment_intent, put_session,
  get_subscription_by_auth_pi, get_subscription_by_gateway_id, put_subscription, get_customer,
  get_invoice, get_invoice_by_pi, put_invoice, get_price, get_product,
}
use payrouter.Store.Queue.{enqueue_webhook}
use payrouter.Server.Objects.{
  StripeObject, StripeEvent, succeeded, active, paid, payment_intent, checkout_session, invoice,
  subscription,
}
use payrouter.Server.Objects.Serializers.{
  to_stripe_response, to_stripe_checkout_session, to_stripe_invoice, to_stripe_subscription,
}

-- What lies outside: json.Marshal, the n-th draw of randID, the version of stripe-go, and the
-- gateway where it supports recurring billing.
pub record Outside (W : Type 0) : Type 0 where
  pub marshal : StripeObject → String
  pub marshal_event : StripeEvent → String
  pub rand_id : ℕ → String
  pub api_version : String
  pub subscription_gw : Option (SubscriptionGateway W)

-- The store, how many random ids have been drawn, and the gateway's own state.
pub record State (W : Type 0) : Type 0 where
  pub store : Memory
  pub drawn : ℕ
  pub world : W

-- findIntentByRef, which processEvent spells out
unfoldable pub find_intent_by_ref : String → Memory → Result String PaymentIntent
find_intent_by_ref ref m = elim (get ref m) [
  | ok pi ↦ ok pi
  | err e ↦ get_by_gateway_reference ref m
]

unfoldable pub failure_text : String
failure_text = "Payment failed; the charge was rejected by the gateway."

-- The intent after an event: its status, and what the event says of a failure.
unfoldable pub apply_status : WebhookEvent → PaymentIntent → PaymentIntent
unfolding failure_text
apply_status ev pi = record pi {
  status = ev.status;
  failure_message =
      (if ev.type == "payment_intent.payment_failed"
        then failure_text
        else if ev.status == succeeded
        then ""
        else pi.failure_message);
}

found_product : Result String Product → String
found_product (ok p) = if is_empty p.name then "Subscription" else p.name
found_product (err e) = "Subscription"

product_name : Memory → Price → String
unfolding found_product
product_name m p = found_product (get_product p.product_id m)

found_price : Memory → Result String Price → String
unfolding product_name
found_price m (ok p) = product_name m p
found_price m (err e) = "Subscription"

sub_name : Memory → Subscription → String
unfolding found_price
sub_name m sub = found_price m (get_price sub.price_id m)

found_payer : Result String Customer → Option Payer
found_payer (ok c) = some (record { id = c.id; email = c.email; name = c.name; phone = c.phone })
found_payer (err e) = none

pub activation_input : WebhookEvent → Subscription → Memory → ActivateSubscriptionInput
unfolding sub_name found_payer
activation_input ev sub m = record {
  facade_sub_id = sub.id;
  saved_token_id = ev.saved_token;
  amount_minor = sub.amount_minor;
  currency = sub.currency;
  name = sub_name m sub;
  customer =
      (if is_empty sub.customer_id then none else found_payer (get_customer sub.customer_id m));
  interval = sub.interval;
  interval_count = sub.interval_count;
  start_time = "";
  max_interval = 0;
}

-- The save-card charge has succeeded.
pub charged : String → Memory → Memory
charged reference m = elim (get reference m) [
  | err e ↦ m
  | ok pi ↦ put (record pi { status = succeeded; failure_message = "" }) m
]

unfoldable pub activated : SubscriptionResult → Subscription → Subscription
activated res sub = record sub {
  status = active;
  gateway_id = res.gateway_id;
  current_period_end =
      (if eqb res.current_period_end 0 then sub.current_period_end else res.current_period_end);
}

-- `sub.GatewayID != "" || sub.Status == active`
unfoldable pub is_registered : Subscription → Bool
is_registered sub = not (is_empty sub.gateway_id) || sub.status == active

-- The invoice of a cycle.
pub cycle_invoice : String → WebhookEvent → ℕ → Subscription → Invoice
cycle_invoice rand_id ev now sub = record {
  id = "in_" +++ rand_id;
  account_id = sub.account_id;
  subscription_id = sub.id;
  payment_intent_id = ev.reference;
  customer_id = sub.customer_id;
  amount_minor = (if eqb ev.amount_minor 0 then sub.amount_minor else ev.amount_minor);
  currency = sub.currency;
  status = paid;
  billing_reason = "subscription_cycle";
  created = now;
  livemode = sub.livemode;
  metadata = [];
}

-- The first case of dispatchEvent's switch.
unfoldable pub is_recurring : WebhookEvent → Bool
is_recurring ev =
    ev.kind == "subscription"
    || has_prefix ev.type "customer.subscription."
    || has_prefix ev.type "invoice."

module _ {W : Type 0} (out : Outside W) where
  unfoldable pub queue_event : String → String → String → ℕ → State W → State W
  queue_event event_type reference obj_json now s =
      let id = "evt_" +++ out.rand_id s.drawn in
      record s {
        drawn = s.drawn + 1;
        store =
            enqueue_webhook
              (record {
                id = id;
                type = event_type;
                reference = reference;
                payload = out.marshal_event (record {
                  id = id;
                  object = "event";
                  api_version = out.api_version;
                  created = now;
                  type = event_type;
                  data_object = obj_json;
                });
                status = delivery_pending;
                attempts = 0;
                next_attempt_at = 0;
                last_error = "";
                created = now;
              })
              s.store;
      }

  -- A payment was made: the session that it belongs to is complete.
  unfoldable pub complete_session : String → ℕ → State W → State W
  unfolding queue_event
  complete_session pi_id now s = elim (get_session_by_payment_intent pi_id s.store) [
    | err e ↦ s
    | ok sess ↦
        let done = record sess { status = "complete"; payment_status = "paid" } in
        queue_event "checkout.session.completed" done.id
          (out.marshal (checkout_session (to_stripe_checkout_session done))) now
          (record s { store = put_session done s.store })
  ]

  -- processEvent once its intent is found
  unfoldable pub process_found : WebhookEvent → ℕ → PaymentIntent → State W → State W
  unfolding queue_event complete_session apply_status
  process_found ev now pi s =
      let pi' = apply_status ev pi in
      let s' =
        queue_event ev.type pi'.id (out.marshal (payment_intent (to_stripe_response pi'))) now
          (record s { store = put pi' s.store }) in
      if pi.status == ev.status
      then s
      else if ev.status == succeeded
      then complete_session pi.id now s'
      else s'

  unfoldable pub process_event : WebhookEvent → ℕ → State W → State W
  unfolding process_found
  process_event ev now s = elim (find_intent_by_ref ev.reference s.store) [
    | err e ↦ s
    | ok pi ↦ process_found ev now pi s
  ]

  -- The part of activateSubscription after the gateway has registered the schedule.
  unfoldable pub record_activation : SubscriptionResult → ℕ → Subscription → State W → State W
  unfolding activated queue_event
  record_activation res now sub s =
      let sub' = activated res sub in
      let m = put_subscription sub' s.store in
      elim (get_invoice sub.latest_invoice_id m) [
        | err e ↦ record s { store = m }
        | ok inv ↦
            let inv' = record inv { status = paid } in
            let m' = put_invoice inv' m in
            let sub_json =
              out.marshal (subscription (to_stripe_subscription (out.rand_id s.drawn) sub' m')) in
            let drawn' = if is_empty sub'.price_id then s.drawn else s.drawn + 1 in
            queue_event "invoice.payment_succeeded" inv'.id
              (out.marshal (invoice (to_stripe_invoice inv'))) now
              (queue_event "customer.subscription.updated" sub'.id sub_json now
                (record s { store = m'; drawn = drawn' }))
      ]

  -- activateSubscription once its subscription is found
  unfoldable pub activate_found :
      SubscriptionGateway W → WebhookEvent → ℕ → Subscription → State W → State W
  unfolding record_activation charged activation_input
  activate_found sg ev now sub s =
      let m = charged ev.reference s.store in
      let (res, world') = sg.activate_subscription (activation_input ev sub m) s.world in
      if is_registered sub then s else elim res [
        | err e ↦ record s { store = m; world = world' }
        | ok r ↦ record_activation r now sub (record s { store = m; world = world' })
      ]

  unfoldable pub activate_subscription :
      SubscriptionGateway W → WebhookEvent → ℕ → State W → State W
  unfolding activate_found
  activate_subscription sg ev now s = elim (get_subscription_by_auth_pi ev.reference s.store) [
    | err e ↦ s
    | ok sub ↦ activate_found sg ev now sub s
  ]

  unfoldable pub record_cycle : WebhookEvent → ℕ → Subscription → State W → State W
  unfolding cycle_invoice queue_event
  record_cycle ev now sub s =
      let inv = cycle_invoice (out.rand_id s.drawn) ev now sub in
      queue_event "invoice.payment_succeeded" inv.id (out.marshal (invoice (to_stripe_invoice inv)))
        now (record s { store = put_invoice inv s.store; drawn = s.drawn + 1 })

  unfoldable pub record_subscription_cycle : WebhookEvent → ℕ → State W → State W
  unfolding record_cycle
  record_subscription_cycle ev now s =
      elim (get_subscription_by_gateway_id ev.gateway_sub_id s.store) [
        | err e ↦ s
        | ok sub ↦ elim (get_invoice_by_pi ev.reference s.store) [
          | ok inv ↦ s
          | err e ↦ record_cycle ev now sub s
        ]
      ]

  unfoldable pub process_subscription_event : WebhookEvent → ℕ → State W → State W
  unfolding activate_subscription record_subscription_cycle
  process_subscription_event ev now s = elim out.subscription_gw [
    | none ↦ s
    | some sg ↦
        if not (is_empty ev.saved_token)
        then activate_subscription sg ev now s
        else if not (is_empty ev.gateway_sub_id) || ev.type == "invoice.payment_succeeded"
        then record_subscription_cycle ev now s
        else s
  ]

  unfoldable pub dispatch_event : WebhookEvent → ℕ → State W → State W
  unfolding process_event process_subscription_event
  dispatch_event ev now s =
      if is_recurring ev then process_subscription_event ev now s else process_event ev now s

  -- The loop of handleWebhookIn, after the adapter has verified and parsed the callback.
  unfoldable pub dispatch_all : List WebhookEvent → ℕ → State W → State W
  unfolding dispatch_event
  dispatch_all [] now s = s
  dispatch_all (ev ∷ rest) now s = dispatch_all rest now (dispatch_event ev now s)
