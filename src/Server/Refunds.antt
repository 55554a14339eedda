-- ===== src/Server/Refunds.antt =====
-- internal/server/refund.go on the durable store: createRefund and retrieveRefund. The reservation and
-- the outcome are two transactions, with the call of the gateway between them. An answer is the object
-- or the error that is written; a gateway that returns neither a result nor an error makes Go abort
-- the request.
pub mod Ledger
pub mod Examples
use payrouter.Prelude.{
  ℕ, String, Bool, true, false, not, ◌||◌, Option, none, some, List, [], ◌∷◌, Dict, lookup, Result,
  ok, err, is_empty, ◌==◌, if◌then◌else◌,
}
use payrouter.GoLib.Int64.{ℤ, pos, negsuc}
use payrouter.GoLib.Strconv.{parse_int, NumError}
use payrouter.Gateway.{Gateway, GatewayError, RefundInput, RefundResult}
use payrouter.Store.Types.{PaymentIntent, Refund}
use payrouter.Server.Objects.{StripeRefund}
use payrouter.Server.Objects.Serializers.{to_stripe_refund}
use payrouter.Postgres.Refunds.{
  Tables, RefundError, refund_exceeds_payment, own_intent, read_refund, write_refund,
  reserve_refund,
}

-- store.ProviderAttempt, without the request and response that no handler sets
pub record ProviderAttempt : Type 0 where
  pub account_id : String
  pub payment_intent_id : String
  pub reference : String
  pub gateway : String
  pub gateway_reference : String
  pub operation : String
  pub status : String
  pub error : String

-- The status, code and message of writeStripeError.
pub record ApiError : Type 0 where
  pub status : ℕ
  pub error_code : String
  pub message : String

pub data Answer : Type 0 where
  refused : ApiError → Answer
  answered : StripeRefund → Answer
  aborted : Answer

-- The refund tables, the attempts from the newest on, and the processor.
pub record State (W : Type 0) : Type 0 where
  pub tables : Tables
  pub attempts : List ProviderAttempt
  pub world : W

-- What the handler has of its request besides the form: the account, the id of the command, the time,
-- the metadata of the form and the mode.
pub record Context : Type 0 where
  pub account_id : String
  pub command_id : String
  pub now : ℕ
  pub metadata : Dict String
  pub livemode : Bool

unfoldable pub post_form_value : String → Dict String → String
post_form_value key form = elim (lookup key form) [ none ↦ "" | some v ↦ v ]

refuse : ℕ → String → String → Result ApiError (PaymentIntent × ℕ × String)
refuse status error_code message =
    err (record { status = status; error_code = error_code; message = message })

unfoldable pub non_negative : ℤ × Option NumError → Option ℕ
non_negative (z, some e) = none
non_negative (pos n, none) = some n
non_negative (negsuc n, none) = none

-- The amount of the form; 0 means all that remains.
unfoldable pub form_amount : String → Option ℕ
unfolding non_negative
form_amount v = let parsed = non_negative (parse_int v) in if is_empty v then some 0 else parsed

unfoldable pub is_reason : String → Bool
is_reason reason =
    is_empty reason
    || reason == "duplicate"
    || reason == "fraudulent"
    || reason == "requested_by_customer"

unfoldable pub checked_amount :
    Dict String → PaymentIntent → Option ℕ → Result ApiError (PaymentIntent × ℕ × String)
unfolding refuse is_reason post_form_value
checked_amount form pi none =
    refuse 400 "parameter_invalid" "amount must be a non-negative integer (minor units)."
checked_amount form pi (some amount) =
    let reason = post_form_value "reason" form in
    if is_reason reason
    then ok (pi, amount, reason)
    else refuse 400 "parameter_invalid"
        "reason must be one of: duplicate, fraudulent, requested_by_customer."

-- The checks before anything is written; a body that cannot be parsed is `none`.
unfoldable pub check_form :
    Context → Option (Dict String) → Tables → Result ApiError (PaymentIntent × ℕ × String)
unfolding refuse own_intent post_form_value checked_amount form_amount
check_form ctx none t = refuse 400 "invalid_request_error" "Unable to parse request body."
check_form ctx (some form) t =
    let id = post_form_value "payment_intent" form in
    let found : Result ApiError (PaymentIntent × ℕ × String) =
      elim (own_intent ctx.account_id (lookup id t.intents)) [
        | none ↦ refuse 404 "resource_missing" "No such payment_intent."
        | some pi ↦ checked_amount form pi (form_amount (post_form_value "amount" form))
      ] in
    if is_empty id
    then refuse 400 "parameter_missing" "Missing required param: payment_intent."
    else found

unfoldable pub new_refund : Context → PaymentIntent → ℕ → String → Refund
new_refund ctx pi amount reason = record {
  id = ctx.command_id;
  account_id = ctx.account_id;
  payment_intent_id = pi.id;
  amount = amount;
  currency = pi.currency;
  status = "pending";
  reason = reason;
  metadata = ctx.metadata;
  created = ctx.now;
  livemode = ctx.livemode;
}

unfoldable pub reserve_error : RefundError → ApiError
reserve_error refund_exceeds_payment = record {
  status = 400;
  error_code = "amount_too_large";
  message = "Refund amount exceeds the remaining refundable amount.";
}
reserve_error e = record {
  status = 500;
  error_code = "api_error";
  message = "Unable to reserve refund.";
}

unfoldable pub error_text : GatewayError → String
error_text GatewayError.invalid_signature = "gateway: invalid webhook signature"
error_text GatewayError.stale_timestamp = "gateway: stale webhook timestamp"
error_text (GatewayError.other e) = e

module _ {W : Type 0} (gw : Gateway W) where
  unfoldable pub attempt_of : Context → Refund → String → String → String → ProviderAttempt
  attempt_of ctx rf gateway_reference status error = record {
    account_id = ctx.account_id;
    payment_intent_id = rf.payment_intent_id;
    reference = rf.id;
    gateway = gw.name;
    gateway_reference = gateway_reference;
    operation = "refund";
    status = status;
    error = error;
  }

  unfoldable pub refund_input : Refund → String → RefundInput
  refund_input rf reason = record {
    reference = rf.id;
    payment_reference = rf.payment_intent_id;
    amount_minor = rf.amount;
    reason = reason;
  }

  -- The transaction that writes what came of the call.
  unfoldable pub persist : ProviderAttempt → Refund → State W → State W
  persist att rf s = record s { tables = write_refund rf s.tables; attempts = att ∷ s.attempts }

  unfoldable pub settle :
      Context → Refund → Result GatewayError (Option RefundResult) → State W → Answer × State W
  unfolding attempt_of persist error_text
  settle ctx rf (err e) s = (
    refused (record { status = 400; error_code = "invalid_request_error"; message = error_text e }),
    persist (attempt_of ctx rf "" "failed" "provider request failed")
        (record rf { status = "failed" }) s,
  )
  settle ctx rf (ok none) s = (aborted, s)
  settle ctx rf (ok (some res)) s =
      let done = record rf { status = (if is_empty res.status then "succeeded" else res.status) } in
      (
        answered (to_stripe_refund done),
        persist (attempt_of ctx done res.gateway_reference done.status "") done s,
      )

  -- What follows a reservation.
  unfoldable pub after_reserve :
      Context → Result RefundError Refund × Tables → State W → Answer × State W
  unfolding reserve_error attempt_of refund_input settle
  after_reserve ctx (err e, t) s = (refused (reserve_error e), s)
  after_reserve ctx (ok rf, t) s =
      let reserved = record s {
        tables = t;
        attempts = attempt_of ctx rf "" "processing" "" ∷ s.attempts;
      } in
      let (res, w') = gw.refund (some (refund_input rf rf.reason)) s.world in
      let settled = settle ctx rf res (record reserved { world = w' }) in
      if rf.status == "succeeded" then (answered (to_stripe_refund rf), reserved) else settled

  unfoldable pub refund_checked :
      Context → Result ApiError (PaymentIntent × ℕ × String) → State W → Answer × State W
  unfolding new_refund after_reserve
  refund_checked ctx (err e) s = (refused e, s)
  refund_checked ctx (ok (pi, amount, reason)) s =
      after_reserve ctx (reserve_refund (new_refund ctx pi amount reason) s.tables) s

  -- createRefund
  unfoldable pub create_refund : Context → Option (Dict String) → State W → Answer × State W
  unfolding check_form refund_checked
  create_refund ctx form s = refund_checked ctx (check_form ctx form s.tables) s

-- retrieveRefund
unfoldable pub retrieve_refund : String → String → Tables → Answer
retrieve_refund account_id id t = elim (read_refund account_id id t) [
  | none ↦
      refused
        (record { status = 404; error_code = "resource_missing"; message = "No such refund." })
  | some rf ↦ answered (to_stripe_refund rf)
]
