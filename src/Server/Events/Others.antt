-- ===== src/Server/Events/Others.antt =====
-- internal/server/webhook.go: what a notification leaves alone.
use payrouter.Prelude.{
  ℕ, String, Bool, true, false, Dict, lookup-insert, ok, ◌==◌, ◌≡◌, ◌≢◌, refl, ap, ◌∙◌, inl, inr,
  if◌then◌else◌, Bool-cases, Option-cases, Result-cases, eq_iff, arith,
}
use payrouter.Gateway.{WebhookEvent, SubscriptionGateway, SubscriptionResult}
use payrouter.Store.Types.{PaymentIntent, Subscription, Memory}
use payrouter.Store.Memory
use payrouter.Store.Queue.{enqueue_webhook}
use payrouter.Server.Objects.{succeeded, payment_intent}
use payrouter.Server.Objects.Serializers.{to_stripe_response}
use payrouter.Server.Events.{
  Outside, State, queue_event, complete_session, process_found, process_event, charged,
  record_activation, activate_found, activate_subscription, record_cycle, record_subscription_cycle,
  process_subscription_event, dispatch_event, apply_status, activated, activation_input,
  is_recurring, is_registered, find_intent_by_ref,
}

put-other :
    (pi : PaymentIntent) (m : Memory) (j : String)
    → pi.id ≢ j
    → Memory.get j (Memory.put pi m) ≡ Memory.get j m
unfolding Memory.get Memory.find Memory.put
put-other pi m j n = ground (arith, lookup-insert pi.id j pi m.intents, eq_iff pi.id j)

get-intents : (j : String) (a b : Memory) → a.intents ≡ b.intents → Memory.get j a ≡ Memory.get j b
unfolding Memory.get
get-intents j a b e = ap (λ (d : Dict PaymentIntent). Memory.find "no such payment_intent: " j d) e

-- The intent of an event is not the one that is looked at.
abbrev pub IsOther : String → WebhookEvent → Memory → Type 0
IsOther j ev m = (pi : PaymentIntent) → find_intent_by_ref ev.reference m ≡ ok pi → pi.id ≢ j

charged-other :
    (j : String) (ev : WebhookEvent) (m : Memory)
    → IsOther j ev m
    → Memory.get j (charged ev.reference m) ≡ Memory.get j m
unfolding charged find_intent_by_ref
charged-other j ev m other = elim (Result-cases (Memory.get ev.reference m)) [
  | inr (e, f) ↦ rw (f, charged) refl
  | inl (pi, f) ↦
      rw (f, charged)
        (put-other (record pi { status = succeeded; failure_message = "" }) m j
          (other pi (rw (f, find_intent_by_ref) refl)))
]

module _ {W : Type 0} where
  either_get :
      (j : String) (m : Memory) (b : Bool) (x y : State W)
      → Memory.get j x.store ≡ Memory.get j m
      → Memory.get j y.store ≡ Memory.get j m
      → Memory.get j (if b then x else y).store ≡ Memory.get j m
  either_get j m true x y h k = h
  either_get j m false x y h k = k

  module _ (out : Outside W) where
    complete_session-intents :
        (id : String) (now : ℕ) (s : State W)
        → (complete_session out id now s).store.intents ≡ s.store.intents
    unfolding complete_session queue_event enqueue_webhook Memory.put_session
    complete_session-intents id now s =
        elim (Result-cases (Memory.get_session_by_payment_intent id s.store)) [
          | inr (e, f) ↦ rw (f, complete_session) refl
          | inl (x, f) ↦ rw (f, complete_session) refl
        ]

    process_found-other :
        (j : String) (ev : WebhookEvent) (now : ℕ) (pi : PaymentIntent) (s : State W)
        → pi.id ≢ j
        → Memory.get j (process_found out ev now pi s).store ≡ Memory.get j s.store
    unfolding process_found queue_event enqueue_webhook apply_status
    process_found-other j ev now pi s other =
        let pi' = apply_status ev pi in
        let s' =
          queue_event out ev.type pi'.id (out.marshal (payment_intent (to_stripe_response pi'))) now
            (record s { store = Memory.put pi' s.store }) in
        let s_done = complete_session out pi.id now s' in
        let noted : Memory.get j s'.store ≡ Memory.get j s.store =
          get-intents j s'.store (Memory.put pi' s.store) refl ∙ put-other pi' s.store j other in
        either_get j s.store (pi.status == ev.status) s
          (if ev.status == succeeded then s_done else s') refl
          (either_get j s.store (ev.status == succeeded) s_done s'
            (get-intents j s_done.store s'.store (complete_session-intents pi.id now s') ∙ noted)
            noted)

    process_event-other :
        (j : String) (ev : WebhookEvent) (now : ℕ) (s : State W)
        → IsOther j ev s.store
        → Memory.get j (process_event out ev now s).store ≡ Memory.get j s.store
    unfolding process_event
    process_event-other j ev now s other =
        elim (Result-cases (find_intent_by_ref ev.reference s.store)) [
          | inr (e, f) ↦ rw (f, process_event) refl
          | inl (pi, f) ↦ rw (f, process_event) (process_found-other j ev now pi s (other pi f))
        ]

    record_activation-intents :
        (res : SubscriptionResult) (now : ℕ) (sub : Subscription) (s : State W)
        → (record_activation out res now sub s).store.intents ≡ s.store.intents
    unfolding record_activation queue_event enqueue_webhook Memory.put_subscription
        Memory.put_invoice
    record_activation-intents res now sub s =
        let m = Memory.put_subscription (activated res sub) s.store in
        elim (Result-cases (Memory.get_invoice sub.latest_invoice_id m)) [
          | inr (e, f) ↦ rw (f, record_activation) refl
          | inl (i, f) ↦ rw (f, record_activation) refl
        ]

    activate_found-other :
        (j : String) (sg : SubscriptionGateway W) (ev : WebhookEvent) (now : ℕ) (sub : Subscription)
        (s : State W)
        → IsOther j ev s.store
        → Memory.get j (activate_found out sg ev now sub s).store ≡ Memory.get j s.store
    unfolding activate_found
    activate_found-other j sg ev now sub s other =
        let m = charged ev.reference s.store in
        let kept = charged-other j ev s.store other in
        let (res, world') = sg.activate_subscription (activation_input ev sub m) s.world in
        let sw = record s { store = m; world = world' } in
        elim (Bool-cases (is_registered sub)) [
          | inl e ↦ rw (e, activate_found) refl
          | inr e ↦ elim (Result-cases res) [
            | inr (x, f) ↦ rw (e, activate_found) (rw f kept)
            | inl (r, f) ↦
                rw (e, activate_found)
                  (rw f (
                    get-intents j (record_activation out r now sub sw).store m
                      (record_activation-intents r now sub sw)
                    ∙ kept))
          ]
        ]

    activate_subscription-other :
        (j : String) (sg : SubscriptionGateway W) (ev : WebhookEvent) (now : ℕ) (s : State W)
        → IsOther j ev s.store
        → Memory.get j (activate_subscription out sg ev now s).store ≡ Memory.get j s.store
    unfolding activate_subscription
    activate_subscription-other j sg ev now s other =
        elim (Result-cases (Memory.get_subscription_by_auth_pi ev.reference s.store)) [
          | inr (e, f) ↦ rw (f, activate_subscription) refl
          | inl (sub, f) ↦
              rw (f, activate_subscription) (activate_found-other j sg ev now sub s other)
        ]

    record_subscription_cycle-intents :
        (ev : WebhookEvent) (now : ℕ) (s : State W)
        → (record_subscription_cycle out ev now s).store.intents ≡ s.store.intents
    unfolding record_subscription_cycle record_cycle queue_event enqueue_webhook Memory.put_invoice
    record_subscription_cycle-intents ev now s =
        elim (Result-cases (Memory.get_subscription_by_gateway_id ev.gateway_sub_id s.store)) [
          | inr (e, f) ↦ rw (f, record_subscription_cycle) refl
          | inl (sub, f) ↦ elim (Result-cases (Memory.get_invoice_by_pi ev.reference s.store)) [
            | inl (i, g) ↦ rw (f, record_subscription_cycle) (rw g refl)
            | inr (e, g) ↦ rw (f, record_subscription_cycle) (rw g refl)
          ]
        ]

    process_subscription_event-other :
        (j : String) (ev : WebhookEvent) (now : ℕ) (s : State W)
        → IsOther j ev s.store
        → Memory.get j (process_subscription_event out ev now s).store ≡ Memory.get j s.store
    unfolding process_subscription_event
    process_subscription_event-other j ev now s other = elim (Option-cases out.subscription_gw) [
      | inl e ↦ rw (e, process_subscription_event) refl
      | inr (sg, e) ↦
          let cycle = record_subscription_cycle out ev now s in
          rw (e, process_subscription_event)
            (either_get j s.store _ (activate_subscription out sg ev now s) _
              (activate_subscription-other j sg ev now s other)
              (either_get j s.store _ cycle s
                (get-intents j cycle.store s.store (record_subscription_cycle-intents ev now s))
                refl))
    ]

    -- A notification of any kind, known or unknown, and whatever the gateway answers to an activation,
    -- changes no intent but the one that its reference leads to: every other intent, and every id that has
    -- none, reads as before.
    pub dispatch_event-other :
        (j : String) (ev : WebhookEvent) (now : ℕ) (s : State W)
        → IsOther j ev s.store
        → Memory.get j (dispatch_event out ev now s).store ≡ Memory.get j s.store
    unfolding dispatch_event
    dispatch_event-other j ev now s other =
        either_get j s.store (is_recurring ev) (process_subscription_event out ev now s)
          (process_event out ev now s) (process_subscription_event-other j ev now s other)
          (process_event-other j ev now s other)
