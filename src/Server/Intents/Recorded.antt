-- ===== src/Server/Intents/Recorded.antt =====
-- internal/server/paymentintent.go: what createPaymentIntent leaves on record.
use payrouter.Prelude.{
  ℕ, String, true, Option, none, some, ◌∷◌, Dict, lookup, Result, ok, err, ◌≡◌, refl, sym, ◌∙◌,
  subst, then-eq,
}
use payrouter.GoLib.Strconv.{parse_int}
use payrouter.Gateway.{Gateway, GatewayError, PaymentResult}
use payrouter.Store.Types.{PaymentIntent}
use payrouter.Postgres.Intents.{write_intent, set_intent_status, fits_char}
use payrouter.Postgres.Intents.Writes.{
  Stands, IsOwn, set-Stands, written-Stands, written-IsOwn, read-own,
}
use payrouter.Server.Refunds.{post_form_value, non_negative}
use payrouter.Server.Intents.{
  State, Context, Answer, fits_char, new_intent, apply_next_action, payment_input, attempt_of,
  initiated, settle, initiate, create_payment_intent,
}

-- The status that an intent has after the gateway's answer.
abbrev pub outcome_status : Result GatewayError (Option PaymentResult) → String
outcome_status (err e) = "canceled"
outcome_status (ok none) = "requires_payment_method"
outcome_status (ok (some res)) = res.status

kept :
    (action : Option String) (return_url : String) (pi : PaymentIntent)
    → ((apply_next_action action return_url pi).id ≡ pi.id)
      × ((apply_next_action action return_url pi).account_id ≡ pi.account_id)
      × ((apply_next_action action return_url pi).amount_minor ≡ pi.amount_minor)
      × ((apply_next_action action return_url pi).status ≡ pi.status)
unfolding apply_next_action
kept none return_url pi = (refl, refl, refl, refl)
kept (some url) return_url pi = (refl, refl, refl, refl)

module _ {W : Type 0} (gw : Gateway W) where
  applied-same :
      (ctx : Context) (form : Dict String) (pi : PaymentIntent) (res : PaymentResult)
      → ((initiated gw ctx form pi res).id ≡ pi.id)
        × ((initiated gw ctx form pi res).account_id ≡ pi.account_id)
        × ((initiated gw ctx form pi res).amount_minor ≡ pi.amount_minor)
        × ((initiated gw ctx form pi res).status ≡ res.status)
  unfolding initiated
  applied-same ctx form pi res = kept res.next_action _ _

  settle-Stands :
      (ctx : Context) (form : Dict String) (pi : PaymentIntent)
      (res : Result GatewayError (Option PaymentResult)) (s : State W)
      → pi.status ≡ "requires_payment_method"
      → IsOwn pi.account_id pi.id s.intents
      → Stands pi.account_id pi.id pi.amount_minor pi.status s.intents
      → Stands pi.account_id pi.id pi.amount_minor
          (outcome_status res)
          (settle gw ctx form pi res s).1.intents
  unfolding settle
  settle-Stands ctx form pi (err e) s start own (old, found, amount, status) =
      rw (found, settle)
        (subst
          (λ n.
            Stands pi.account_id pi.id n "canceled" (
              set_intent_status pi.account_id pi.id "canceled" "provider request failed" s.intents))
          amount
          (set-Stands pi.account_id pi.id "canceled" "provider request failed" s.intents old found
            (read-own pi.account_id (lookup pi.id s.intents) old found)))
  settle-Stands ctx form pi (ok none) s start own (old, found, amount, status) =
      (old, found, amount, status ∙ start)
  settle-Stands ctx form pi (ok (some res)) s start own stands =
      let done = initiated gw ctx form pi res in
      let (i, a, n, st) = applied-same ctx form pi res in
      let own' : IsOwn done.account_id done.id s.intents =
        subst (λ (k : String × String). IsOwn k.0 k.1 s.intents) (λ j. (sym a j, sym i j)) own in
      let w = written-Stands done s.intents own' in
      subst
        (λ (k : String × String × ℕ × String). Stands k.0 k.1 k.2 k.3 (write_intent done s.intents))
        (λ j. (a j, i j, n j, st j)) w

  initiate-Stands :
      (ctx : Context) (form : Dict String) (pi : PaymentIntent) (s : State W)
      → pi.status ≡ "requires_payment_method"
      → fits_char 3 pi.currency ≡ true
      → IsOwn pi.account_id pi.id s.intents
      → Stands pi.account_id pi.id pi.amount_minor
          (outcome_status (gw.create_payment (some (payment_input gw form pi)) s.world).0)
          (initiate gw ctx form pi s).1.intents
  unfolding initiate
  initiate-Stands ctx form pi s start fits own =
      let (res, w') = gw.create_payment (some (payment_input gw form pi)) s.world in
      let prepared = record s {
        intents = write_intent pi s.intents;
        attempts = attempt_of gw pi "" "processing" "" ∷ s.attempts;
        world = w';
      } in
      subst
        (λ (r : Answer × State W).
          Stands pi.account_id pi.id pi.amount_minor (outcome_status res) r.1.intents)
        (sym (then-eq (settle gw ctx form pi res prepared) _ fits))
        (settle-Stands ctx form pi res prepared start (written-IsOwn pi s.intents own)
          (written-Stands pi s.intents own))

  -- A request whose amount is a non-negative integer and whose currency has at most three characters, under
  -- a command id that no intent has or one of the account: whatever the gateway answers, the intent of the command can be read back afterwards for the
  -- account and the amount. It has the status that the gateway returned, is canceled when the gateway
  -- failed, and requires a payment method when the request was aborted.
  pub create_payment_intent-Stands :
      (ctx : Context) (form : Dict String) (s : State W) (amount : ℕ)
      → non_negative (parse_int (post_form_value "amount" form)) ≡ some amount
      → fits_char 3 (new_intent ctx form amount).currency ≡ true
      → IsOwn ctx.account_id ctx.command_id s.intents
      → Stands ctx.account_id ctx.command_id amount
          (outcome_status
            (gw.create_payment
              (some (payment_input gw form (new_intent ctx form amount)))
              s.world).0)
          (create_payment_intent gw ctx (some form) s).1.intents
  unfolding create_payment_intent new_intent
  create_payment_intent-Stands ctx form s amount valid fits own =
      rw (valid, create_payment_intent)
        (initiate-Stands ctx form (new_intent ctx form amount) s refl fits own)
