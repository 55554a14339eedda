-- ===== src/Server/Events/Cycle.antt =====
-- internal/server/webhook.go: recordSubscriptionCycle when its notification is repeated.
use payrouter.Prelude.{
  ℕ, String, false, ok, err, ◌≡◌, refl, sym, ap, ◌∙◌, inl, inr, is_empty, Result-cases,
}
use payrouter.Store.Types.{Subscription, Invoice}
use payrouter.Store.Memory.{get_subscription_by_gateway_id, get_invoice_by_pi, put_invoice}
use payrouter.Store.Memory.Laws.{get_invoice_by_pi-put_invoice}
use payrouter.Store.Queue.{enqueue_webhook}
use payrouter.Gateway.{WebhookEvent}
use payrouter.Server.Events.{
  Outside, State, queue_event, cycle_invoice, record_cycle, record_subscription_cycle,
}

module _ {W : Type 0} (out : Outside W) where
  unchanged :
      (ev : WebhookEvent) (now : ℕ) (s : State W) (sub : Subscription) (inv : Invoice)
      → get_subscription_by_gateway_id ev.gateway_sub_id s.store ≡ ok sub
      → get_invoice_by_pi ev.reference s.store ≡ ok inv
      → record_subscription_cycle out ev now s ≡ s
  unfolding record_subscription_cycle
  unchanged ev now s sub inv f g = rw (f, record_subscription_cycle) (rw g refl)

  unknown :
      (ev : WebhookEvent) (now : ℕ) (s : State W) (e : String)
      → get_subscription_by_gateway_id ev.gateway_sub_id s.store ≡ err e
      → record_subscription_cycle out ev now s ≡ s
  unfolding record_subscription_cycle
  unknown ev now s e f = rw (f, record_subscription_cycle) refl

  recorded :
      (ev : WebhookEvent) (now : ℕ) (s : State W) (sub : Subscription) (e : String)
      → get_subscription_by_gateway_id ev.gateway_sub_id s.store ≡ ok sub
      → get_invoice_by_pi ev.reference s.store ≡ err e
      → record_subscription_cycle out ev now s ≡ record_cycle out ev now sub s
  unfolding record_subscription_cycle
  recorded ev now s sub e f g = rw (f, record_subscription_cycle) (rw g refl)

  record_cycle-subscription :
      (ev : WebhookEvent) (now : ℕ) (sub : Subscription) (s : State W) (id : String)
      → get_subscription_by_gateway_id id (record_cycle out ev now sub s).store
        ≡ get_subscription_by_gateway_id id s.store
  unfolding record_cycle queue_event enqueue_webhook put_invoice get_subscription_by_gateway_id
  record_cycle-subscription ev now sub s id = refl

  record_cycle-invoice :
      (ev : WebhookEvent) (now : ℕ) (sub : Subscription) (s : State W)
      → is_empty ev.reference ≡ false
      → get_invoice_by_pi ev.reference (record_cycle out ev now sub s).store
        ≡ ok (cycle_invoice (out.rand_id s.drawn) ev now sub)
  unfolding record_cycle queue_event enqueue_webhook put_invoice get_invoice_by_pi cycle_invoice
  record_cycle-invoice ev now sub s h =
      get_invoice_by_pi-put_invoice (cycle_invoice (out.rand_id s.drawn) ev now sub) s.store h

  -- The notification of a cycle that arrives again, at any later time, records no second invoice and
  -- changes nothing else, provided that it carries a reference.
  pub record_subscription_cycle-repeat :
      (ev : WebhookEvent) (now later : ℕ) (s : State W)
      → is_empty ev.reference ≡ false
      → record_subscription_cycle out ev later (record_subscription_cycle out ev now s)
        ≡ record_subscription_cycle out ev now s
  record_subscription_cycle-repeat ev now later s h =
      let again = record_subscription_cycle out ev later in
      elim (Result-cases (get_subscription_by_gateway_id ev.gateway_sub_id s.store)) [
        | inr (e, f) ↦
            ap again (unknown ev now s e f) ∙ unknown ev later s e f ∙ sym (unknown ev now s e f)
        | inl (sub, f) ↦ elim (Result-cases (get_invoice_by_pi ev.reference s.store)) [
          | inl (i, g) ↦
              ap again (unchanged ev now s sub i f g)
              ∙ unchanged ev later s sub i f g
              ∙ sym (unchanged ev now s sub i f g)
          | inr (e, g) ↦
              let r = recorded ev now s sub e f g in
              ap again r
              ∙ unchanged ev later (record_cycle out ev now sub s) sub _
                  (record_cycle-subscription ev now sub s ev.gateway_sub_id ∙ f)
                  (record_cycle-invoice ev now sub s h)
              ∙ sym r
        ]
      ]
