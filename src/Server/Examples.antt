-- ===== src/Server/Examples.antt =====
-- The handling of notifications at concrete stores.
use payrouter.Prelude.{
  arith, ap, ◌∙◌, eq_iff, Result, ℕ, ◌+◌, String, List, [], ◌∷◌, none, some, ok, ◌≡◌, refl, lookup,
  insert,
}
use payrouter.GoLib.Int64.{pos}
use payrouter.GoLib.Strconv.{format_int}
use payrouter.Gateway.{WebhookEvent, SubscriptionGateway, SubscriptionResult}
use payrouter.Store.Types.{PaymentIntent, Subscription, Memory}
use payrouter.Store.Memory.{
  get, find, get_session_by_payment_intent, new_memory, put_subscription, put_session, put,
  put_invoice, index_by, find_by, get_subscription_by_auth_pi,
}
use payrouter.Store.Examples.{intent, session, plan, first_invoice}
use payrouter.Store.Invariant
use payrouter.Store.Invariant.{IsIndexed, Write, writes, write, new_memory-writes-IsIndexed}
use payrouter.Server.Events.{
  find_intent_by_ref, Outside, State, process_event, record_subscription_cycle,
  activate_subscription, dispatch_event,
}
use payrouter.Server.Events.Repeat.{process_event-repeat}
use payrouter.Server.Events.Payment.{completed, paid_intent, process_event-paid}
use payrouter.Server.Events.Others.{IsOther, dispatch_event-other}
use payrouter.Server.Events.Cycle.{record_subscription_cycle-repeat}
use payrouter.Server.Events.Activation.{activate_subscription-once}

-- A subscription that is not registered yet.
abbrev waiting : Subscription
waiting = record plan { gateway_id = "" }

abbrev calls : List Write
calls =
    Invariant.put_intent intent
    ∷ Invariant.put_session session
    ∷ Invariant.put_subscription waiting
    ∷ Invariant.put_invoice first_invoice
    ∷ []

abbrev store : Memory
store = writes new_memory calls

store-IsIndexed : IsIndexed store
store-IsIndexed = new_memory-writes-IsIndexed calls

-- A gateway that counts its calls.
abbrev recurring : SubscriptionGateway ℕ
recurring = record {
  activate_subscription = λ i w. (
    ok (record {
      facade_id = "sub_1";
      gateway_id = "gs_1";
      auth_reference = "";
      status = "active";
      next_action = none;
      current_period_end = 99;
      amount_minor = 0;
    }),
    w + 1,
  );
  cancel_subscription = λ id w. (
    ok (record {
      facade_id = "";
      gateway_id = id;
      auth_reference = "";
      status = "canceled";
      next_action = none;
      current_period_end = 0;
      amount_minor = 0;
    }),
    w + 1,
  );
}

abbrev outside : Outside ℕ
outside = record {
  marshal = λ o. "{}";
  marshal_event = λ e. e.id;
  rand_id = λ n. format_int (pos n);
  api_version = "2025";
  subscription_gw = some recurring;
}

abbrev start : State ℕ
start = record { store = store; drawn = 0; world = 0 }

abbrev event : String → String → String → String → WebhookEvent
event type kind saved_token gateway_sub_id = record {
  provider_event_id = "tx_1";
  type = type;
  reference = "pi_1";
  kind = kind;
  status = "succeeded";
  sub_status = "";
  saved_token = saved_token;
  gateway_sub_id = gateway_sub_id;
  amount_minor = 0;
  object_json = "";
}

abbrev payment : WebhookEvent
payment = event "payment_intent.succeeded" "" "" ""

abbrev cycle : WebhookEvent
cycle = event "invoice.payment_succeeded" "subscription" "" "gs_1"

abbrev saved_card : WebhookEvent
saved_card = event "customer.subscription.activating" "subscription" "tok_1" ""

process_event-repeat_example :
    process_event outside payment 20 (process_event outside payment 10 start)
    ≡ process_event outside payment 10 start
process_event-repeat_example = process_event-repeat outside payment 10 20 start store-IsIndexed

-- The subscription of the cycle is registered.
abbrev registered : State ℕ
registered = record {
  store = writes new_memory (Invariant.put_subscription plan ∷ []);
  drawn = 0;
  world = 0;
}

record_subscription_cycle-repeat_example :
    record_subscription_cycle outside cycle 20
      (record_subscription_cycle outside cycle 10 registered)
    ≡ record_subscription_cycle outside cycle 10 registered
record_subscription_cycle-repeat_example =
    record_subscription_cycle-repeat outside cycle 10 20 registered refl

abbrev granted : SubscriptionResult
granted = record {
  facade_id = "sub_1";
  gateway_id = "gs_1";
  auth_reference = "";
  status = "active";
  next_action = none;
  current_period_end = 99;
  amount_minor = 0;
}

activate_subscription-once_example :
    activate_subscription outside recurring saved_card 20
      (activate_subscription outside recurring saved_card 10 start)
    ≡ activate_subscription outside recurring saved_card 10 start
unfolding writes write put put_session put_subscription put_invoice index_by insert lookup
    new_memory get_subscription_by_auth_pi find_by
activate_subscription-once_example =
    activate_subscription-once outside recurring saved_card 10 20 start waiting granted 1
      store-IsIndexed refl refl

process_event-paid_example :
    (get "pi_1" (process_event outside payment 10 start).store ≡ ok (paid_intent payment intent))
    × (get_session_by_payment_intent "pi_1" (process_event outside payment 10 start).store
        ≡ ok (completed session))
unfolding writes write put put_session put_subscription put_invoice index_by insert lookup
    new_memory get find get_session_by_payment_intent find_by find_intent_by_ref
process_event-paid_example =
    process_event-paid outside payment 10 intent session start store-IsIndexed refl refl refl refl

-- A second intent beside the one that the saved card is for.
abbrev beside : State ℕ
beside = record start {
  store = put (record intent { id = "pi_2"; gateway_reference = "gw_2" }) store;
}

ok_inj : (a b : PaymentIntent) → ◌≡◌ {A = Result String PaymentIntent} (ok a) (ok b) → a ≡ b
ok_inj a b e = ground (arith, e)

beside-IsOther : IsOther "pi_2" saved_card beside.store
unfolding writes write put put_session put_subscription put_invoice index_by insert lookup
    new_memory get find find_intent_by_ref
beside-IsOther pi e same = absurd (
    ground
      (arith, ap (λ (x : PaymentIntent). x.id) (ok_inj intent pi e) ∙ same, eq_iff "pi_1" "pi_2"))

dispatch_event-other_example :
    get "pi_2" (dispatch_event outside saved_card 10 beside).store ≡ get "pi_2" beside.store
dispatch_event-other_example =
    dispatch_event-other outside "pi_2" saved_card 10 beside beside-IsOther
