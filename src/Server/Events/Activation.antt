-- ===== src/Server/Events/Activation.antt =====
-- internal/server/webhook.go: activateSubscription when its notification is repeated.
use payrouter.Prelude.{
  ℕ, String, true, false, some, ok, ◌≡◌, refl, sym, ap, ◌∙◌, inl, inr, lookup, lookup-insert,
  eq_iff, arith, Bool-cases, then-eq, Option-cases,
}
use payrouter.Store.Types.{Subscription, Memory}
use payrouter.Store.Memory.{
  find, find_by, put, get_subscription_by_auth_pi, put_subscription, put_invoice,
}
use payrouter.Store.Memory.Laws.{lookup-index_by}
use payrouter.Store.Queue.{enqueue_webhook}
use payrouter.Store.Invariant.{IsIndexed}
use payrouter.Gateway.{WebhookEvent, SubscriptionGateway, SubscriptionResult}
use payrouter.Server.Events.{
  Outside, State, queue_event, charged, activated, is_registered, activation_input,
  record_activation, activate_found, activate_subscription,
}

charged-auth :
    (ref : String) (m : Memory)
    → ((charged ref m).subscriptions ≡ m.subscriptions)
      × ((charged ref m).sub_by_auth_pi ≡ m.sub_by_auth_pi)
unfolding charged put
charged-auth ref m = ground arith

-- A subscription found by its authorization intent stands under its own id.
auth-lookup :
    (ref : String) (m : Memory) (sub : Subscription)
    → IsIndexed m
    → get_subscription_by_auth_pi ref m ≡ ok sub
    → (lookup ref m.sub_by_auth_pi ≡ some sub.id) × (lookup sub.id m.subscriptions ≡ some sub)
unfolding get_subscription_by_auth_pi find_by find
auth-lookup ref m sub h e = elim (Option-cases (lookup ref m.sub_by_auth_pi)) [
  | inl k ↦ absurd (ground arith)
  | inr (id, k) ↦
      let q : lookup id m.subscriptions ≡ some sub = ground arith in
      let o = h.subscriptions_keyed.own_id id sub q in (ground arith, ground arith)
]

-- Its new version is found in its place.
auth-put :
    (ref : String) (m : Memory) (sub sub' : Subscription)
    → lookup ref m.sub_by_auth_pi ≡ some sub.id
    → sub'.id ≡ sub.id
    → get_subscription_by_auth_pi ref (put_subscription sub' m) ≡ ok sub'
unfolding get_subscription_by_auth_pi find_by find put_subscription
auth-put ref m sub sub' k e = ground (
  arith,
  lookup-index_by sub'.auth_payment_intent_id sub'.id ref m.sub_by_auth_pi,
  lookup-insert sub'.id sub.id sub' m.subscriptions,
  eq_iff sub'.id sub.id,
)

id-activated : (r : SubscriptionResult) (sub : Subscription) → (activated r sub).id ≡ sub.id
unfolding activated
id-activated r sub = refl

module _ {W : Type 0} (out : Outside W) (sg : SubscriptionGateway W) where
  record_activation-auth :
      (res : SubscriptionResult) (now : ℕ) (sub : Subscription) (s : State W) (ref : String)
      → get_subscription_by_auth_pi ref (record_activation out res now sub s).store
        ≡ get_subscription_by_auth_pi ref (put_subscription (activated res sub) s.store)
  unfolding record_activation queue_event enqueue_webhook put_invoice get_subscription_by_auth_pi
  record_activation-auth res now sub s ref = ground arith

  registered-unchanged :
      (ev : WebhookEvent) (now : ℕ) (s : State W) (sub : Subscription)
      → get_subscription_by_auth_pi ev.reference s.store ≡ ok sub
      → is_registered sub ≡ true
      → activate_subscription out sg ev now s ≡ s
  unfolding activate_subscription activate_found
  registered-unchanged ev now s sub f r = rw (f, activate_subscription) (then-eq s _ r)

  -- The state after an activation that the gateway accepted.
  activate_found-accepted :
      (ev : WebhookEvent) (now : ℕ) (s : State W) (sub : Subscription) (r : SubscriptionResult)
      (w : W)
      → get_subscription_by_auth_pi ev.reference s.store ≡ ok sub
      → is_registered sub ≡ false
      → sg.activate_subscription (activation_input ev sub (charged ev.reference s.store)) s.world
        ≡ (ok r, w)
      → activate_subscription out sg ev now s
        ≡ record_activation out r now sub
            (record s { store = charged ev.reference s.store; world = w })
  unfolding activate_subscription activate_found
  activate_found-accepted ev now s sub r w f n a =
      rw (f, activate_subscription)
        (rw n (
          rw a (
            ap
              (λ p.
                record_activation out r now sub
                  (record s { store = charged ev.reference s.store; world = p.1 }))
              a)))

  activated-registered :
      (r : SubscriptionResult) (sub : Subscription) → is_registered (activated r sub) ≡ true
  unfolding is_registered activated
  activated-registered r sub = ground arith

  -- Once the gateway has accepted an activation, the same save-card notification changes nothing any
  -- more, at whatever time it comes: the gateway is not asked to register a second schedule, and
  -- no second event is queued.
  pub activate_subscription-once :
      (ev : WebhookEvent) (now later : ℕ) (s : State W) (sub : Subscription)
      (r : SubscriptionResult) (w : W)
      → IsIndexed s.store
      → get_subscription_by_auth_pi ev.reference s.store ≡ ok sub
      → sg.activate_subscription (activation_input ev sub (charged ev.reference s.store)) s.world
        ≡ (ok r, w)
      → activate_subscription out sg ev later (activate_subscription out sg ev now s)
        ≡ activate_subscription out sg ev now s
  activate_subscription-once ev now later s sub r w h f a =
      let again = activate_subscription out sg ev later in
      elim (Bool-cases (is_registered sub)) [
        | inl q ↦
            let k = registered-unchanged ev now s sub f q in
            ap again k ∙ registered-unchanged ev later s sub f q ∙ sym k
        | inr q ↦
            let m = charged ev.reference s.store in
            let s' = record s { store = m; world = w } in
            let t = activate_found-accepted ev now s sub r w f q a in
            let (p, _) = auth-lookup ev.reference s.store sub h f in
            let p' = ap (lookup ev.reference) (charged-auth ev.reference s.store).1 ∙ p in
            ap again t
            ∙ registered-unchanged ev later (record_activation out r now sub s') (activated r sub)
                (record_activation-auth r now sub s' ev.reference
                  ∙ auth-put ev.reference m sub (activated r sub) p' (id-activated r sub))
                (activated-registered r sub)
            ∙ sym t
      ]
