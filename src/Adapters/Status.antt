-- ===== src/Adapters/Status.antt =====
-- internal/adapters/{midtrans,xendit,doku}/status.go: the gateways' statuses as Stripe's.
use payrouter.Prelude.{String, ◌||◌, ◌==◌, if◌then◌else◌}
use payrouter.GoLib.Strings.{to_upper}

-- stripe.PaymentIntentStatus…
abbrev pub succeeded : String
succeeded = "succeeded"

abbrev pub requires_action : String
requires_action = "requires_action"

abbrev pub requires_payment_method : String
requires_payment_method = "requires_payment_method"

abbrev pub requires_capture : String
requires_capture = "requires_capture"

abbrev pub canceled : String
canceled = "canceled"

unfoldable pub map_midtrans : String → String → String
map_midtrans transaction_status fraud_status =
    if transaction_status == "settlement"
    then succeeded
    else if transaction_status == "capture"
    then (if fraud_status == "deny" then requires_payment_method else succeeded)
    else if transaction_status == "pending"
    then requires_action
    else if transaction_status == "authorize"
    then requires_capture
    else if transaction_status == "deny" || transaction_status == "failure"
    then requires_payment_method
    else if transaction_status == "cancel" || transaction_status == "expire"
    then canceled
    else if transaction_status == "refund" || transaction_status == "partial_refund"
    then succeeded
    else requires_action

unfoldable pub map_xendit : String → String
map_xendit status =
    let s = to_upper status in
    if s == "PENDING"
    then requires_action
    else if s == "PAID" || s == "SETTLED"
    then succeeded
    else if s == "EXPIRED"
    then canceled
    else requires_action

unfoldable pub map_doku : String → String
map_doku status =
    let s = to_upper status in
    if s == "SUCCESS"
    then succeeded
    else if s == "PENDING"
    then requires_action
    else if s == "FAILED"
    then requires_payment_method
    else requires_action

-- stripeEventType, the same function in every adapter: the case that midtrans/status.go adds for
-- requires_capture gives what its default gives.
unfoldable pub stripe_event_type : String → String
stripe_event_type status =
    if status == succeeded
    then "payment_intent.succeeded"
    else if status == requires_payment_method
    then "payment_intent.payment_failed"
    else if status == canceled
    then "payment_intent.canceled"
    else "payment_intent.requires_action"
