-- ===== src/Server/Intents.antt =====
-- internal/server/paymentintent.go on the durable store: createPaymentIntent, retrievePaymentIntent and
-- confirmPaymentIntent.
-- The command is written before the gateway is called and the outcome after it, in two
-- transactions. An adapter that returns neither a result nor an error makes Go abort the request.
-- The column of the currency takes three characters, so a longer one ends the request before the
-- call; that a shorter one is padded with blanks is left out, as is a connection that fails.
pub mod Recorded
pub mod Examples
use payrouter.Prelude.{
  ℕ, zero, suc, String, Bool, true, false, not, ◌&&◌, ◌||◌, Option, none, some, List, [], ◌∷◌, Dict,
  lookup, insert, Result, ok, err, is_empty, ◌==◌, ◌+++◌, if◌then◌else◌,
}
use payrouter.GoLib.Int64.{ℤ, pos}
use payrouter.GoLib.Strconv.{parse_int}
use payrouter.GoLib.Strings.{to_lower}
use payrouter.Gateway.{Gateway, GatewayError, CreatePaymentInput, PaymentResult}
use payrouter.Store.Types.{PaymentIntent}
use payrouter.Server.Objects.{StripePaymentIntent}
use payrouter.Server.Objects.Serializers.{to_stripe_response}
use payrouter.Server.Refunds.{ProviderAttempt, ApiError, post_form_value, non_negative, error_text}
use payrouter.Orchestrator.OrderId.{extract_gateway_from_order_id}
use payrouter.Postgres.Intents.{write_intent, read_intent, set_intent_status, fits_char}

-- store.PaymentTransition, without the metadata that no handler sets
pub record PaymentTransition : Type 0 where
  pub account_id : String
  pub payment_intent_id : String
  pub from_status : String
  pub to_status : String
  pub reason : String

pub data Answer : Type 0 where
  refused : ApiError → Answer
  answered : StripePaymentIntent → Answer
  aborted : Answer

-- The table of intents, the attempts and transitions from the newest on, and the processor.
pub record State (W : Type 0) : Type 0 where
  pub intents : Dict PaymentIntent
  pub attempts : List ProviderAttempt
  pub transitions : List PaymentTransition
  pub world : W

-- What the handler has besides the form: the account, the ids of the command and of its client secret,
-- the first payment method type and the metadata of the form, the time, the mode and the configured
-- gateway.
pub record Context : Type 0 where
  pub account_id : String
  pub command_id : String
  pub secret_id : String
  pub payment_method_types : List String
  pub metadata : Dict String
  pub now : ℕ
  pub livemode : Bool
  pub active_gateway : String

first_type : List String → String
first_type [] = "id_virtual_account"
first_type (t ∷ types) = t

unfoldable pub new_intent : Context → Dict String → ℕ → PaymentIntent
unfolding first_type post_form_value
new_intent ctx form amount =
    let currency = to_lower (post_form_value "currency" form) in
    record {
      id = ctx.command_id;
      account_id = ctx.account_id;
      amount_minor = amount;
      currency = (if is_empty currency then "idr" else currency);
      status = "requires_payment_method";
      client_secret = ctx.command_id +++ "_secret_" +++ ctx.secret_id;
      payment_method_type = first_type ctx.payment_method_types;
      gateway_reference = "";
      next_action_type = "";
      next_action_url = "";
      next_action_return = "";
      description = post_form_value "description" form;
      failure_message = "";
      metadata = ctx.metadata;
      created = ctx.now;
      livemode = ctx.livemode;
    }

-- applyNextAction; the actions that the adapters return are redirects with the return URL of the input
unfoldable pub apply_next_action : Option String → String → PaymentIntent → PaymentIntent
apply_next_action none return_url pi = pi
apply_next_action (some url) return_url pi = record pi {
  next_action_type = "redirect_to_url";
  next_action_url = url;
  next_action_return = return_url;
}

module _ {W : Type 0} (gw : Gateway W) where
  -- enrichMetadata, on the metadata of the form
  unfoldable pub enrich_metadata : Context → String → Dict String
  enrich_metadata ctx reference =
      let tagged = (extract_gateway_from_order_id reference).0 in
      let selected = (if is_empty tagged || tagged == "unknown" then gw.name else tagged) in
      let least_cost =
        ctx.active_gateway == "auto"
        || ctx.active_gateway == "least_cost"
        || ctx.active_gateway == "orchestrated" in
      insert "payment_routing_mode" (if least_cost then "least_cost" else "static")
        (insert "payment_gateway_selected" selected ctx.metadata)

  unfoldable pub attempt_of : PaymentIntent → String → String → String → ProviderAttempt
  attempt_of pi gateway_reference status error = record {
    account_id = pi.account_id;
    payment_intent_id = pi.id;
    reference = pi.id;
    gateway = gw.name;
    gateway_reference = gateway_reference;
    operation = "create";
    status = status;
    error = error;
  }

  unfoldable pub payment_input : Dict String → PaymentIntent → CreatePaymentInput
  unfolding post_form_value
  payment_input form pi = record {
    reference = pi.id;
    amount_minor = pi.amount_minor;
    currency = pi.currency;
    description = pi.description;
    customer = none;
    payment_method_type = pi.payment_method_type;
    method_params = pi.metadata;
    return_url = post_form_value "return_url" form;
  }

  unfoldable pub transition_of : PaymentIntent → String → String → PaymentTransition
  transition_of pi to_status reason = record {
    account_id = pi.account_id;
    payment_intent_id = pi.id;
    from_status = pi.status;
    to_status = to_status;
    reason = reason;
  }

  -- The intent as the gateway's result leaves it.
  unfoldable pub initiated : Context → Dict String → PaymentIntent → PaymentResult → PaymentIntent
  unfolding enrich_metadata apply_next_action post_form_value
  initiated ctx form pi res =
      apply_next_action res.next_action (post_form_value "return_url" form) (record pi {
        status = res.status;
        gateway_reference = res.gateway_reference;
        metadata = enrich_metadata ctx res.reference;
      })

  -- The transaction after the call. SetIntentStatus reads the row back, so without a row of the account
  -- the transaction is undone.
  unfoldable pub settle :
      Context
      → Dict String
      → PaymentIntent
      → Result GatewayError (Option PaymentResult)
      → State W
      → Answer × State W
  unfolding initiated attempt_of transition_of write_intent set_intent_status read_intent error_text
  settle ctx form pi (err e) s =
      let failed = record s {
        intents =
            set_intent_status pi.account_id pi.id "canceled" "provider request failed" s.intents;
        attempts = attempt_of pi "" "failed" "provider request failed" ∷ s.attempts;
        transitions = transition_of pi "canceled" "provider request failed" ∷ s.transitions;
      } in
      elim (read_intent pi.account_id pi.id s.intents) [
        | none ↦ (
          refused (record {
            status = 500;
            error_code = "api_error";
            message = "Unable to persist provider failure.";
          }),
          s,
        )
        | some old ↦ (
          refused (record { status = 502; error_code = "api_error"; message = error_text e }),
          failed,
        )
      ]
  settle ctx form pi (ok none) s = (aborted, s)
  settle ctx form pi (ok (some res)) s =
      let done = initiated ctx form pi res in
      (
        answered (to_stripe_response done),
        record s {
          intents = write_intent done s.intents;
          attempts = attempt_of pi res.gateway_reference res.status "" ∷ s.attempts;
          transitions = transition_of pi res.status "create" ∷ s.transitions;
        },
      )

  -- The command is written, the gateway called, the outcome written.
  unfoldable pub initiate : Context → Dict String → PaymentIntent → State W → Answer × State W
  unfolding write_intent attempt_of payment_input settle fits_char
  initiate ctx form pi s =
      let prepared = record s {
        intents = write_intent pi s.intents;
        attempts = attempt_of pi "" "processing" "" ∷ s.attempts;
      } in
      let (res, w') = gw.create_payment (some (payment_input form pi)) s.world in
      if fits_char 3 pi.currency then settle ctx form pi res (record prepared { world = w' }) else (
        refused (record {
          status = 500;
          error_code = "api_error";
          message = "Unable to prepare payment intent.";
        }),
        s,
      )

  -- createPaymentIntent; a body that cannot be parsed is `none`
  unfoldable pub create_payment_intent : Context → Option (Dict String) → State W → Answer × State W
  unfolding post_form_value non_negative new_intent initiate
  create_payment_intent ctx none s = (
    refused (record {
      status = 400;
      error_code = "invalid_request_error";
      message = "Unable to parse request body.";
    }),
    s,
  )
  create_payment_intent ctx (some form) s =
      elim (non_negative (parse_int (post_form_value "amount" form))) [
        | none ↦ (
          refused (record {
            status = 400;
            error_code = "parameter_invalid";
            message = "amount must be a non-negative integer (minor units).";
          }),
          s,
        )
        | some amount ↦ initiate ctx form (new_intent ctx form amount) s
      ]

unfoldable pub no_such_intent : Answer
no_such_intent =
    refused (record {
      status = 404;
      error_code = "resource_missing";
      message = "No such payment_intent.";
    })

-- retrievePaymentIntent
unfoldable pub retrieve_payment_intent : String → String → Dict PaymentIntent → Answer
unfolding no_such_intent
retrieve_payment_intent account_id id intents = elim (read_intent account_id id intents) [
  | none ↦ no_such_intent
  | some pi ↦ answered (to_stripe_response pi)
]

-- confirmPaymentIntent on a form that could be parsed
unfoldable pub confirm_payment_intent :
    String → String → Dict String → Dict PaymentIntent → Answer × Dict PaymentIntent
unfolding no_such_intent read_intent write_intent post_form_value
confirm_payment_intent account_id id form intents =
    let return_url = post_form_value "return_url" form in
    elim (read_intent account_id id intents) [
      | none ↦ (no_such_intent, intents)
      | some pi ↦
          let returned = record pi { next_action_return = return_url } in
          if is_empty return_url || is_empty pi.next_action_type
          then (answered (to_stripe_response pi), intents)
          else (answered (to_stripe_response returned), write_intent returned intents)
    ]
