-- ===== src/Server/Events/Payment.antt =====
-- internal/server/webhook.go: processEvent when a payment has succeeded.
use payrouter.Prelude.{
  ℕ, String, false, some, ok, ◌≡◌, refl, ap, ◌∙◌, inl, inr, lookup, lookup-insert, ◌==◌, eq_iff,
  eq_refl, arith, then-eq, else-eq, Option-cases, if◌then◌else◌,
}
use payrouter.Store.Types.{PaymentIntent, Session, Memory}
use payrouter.Store.Memory.{find, find_by, put, get, put_session, get_session_by_payment_intent}
use payrouter.Store.Memory.Laws.{lookup-index_by, get-put_self}
use payrouter.Store.Queue.{enqueue_webhook}
use payrouter.Store.Invariant.{IsIndexed}
use payrouter.Gateway.{WebhookEvent}
use payrouter.Server.Objects.{succeeded, payment_intent, checkout_session}
use payrouter.Server.Objects.Serializers.{to_stripe_response, to_stripe_checkout_session}
use payrouter.Server.Events.{
  Outside, State, queue_event, find_intent_by_ref, failure_text, apply_status, complete_session,
  process_found, process_event,
}

-- A session as it is after its payment.
abbrev pub completed : Session → Session
completed sess = record sess { status = "complete"; payment_status = "paid" }

-- An intent as it is after its payment.
abbrev pub paid_intent : WebhookEvent → PaymentIntent → PaymentIntent
paid_intent ev pi = record pi {
  status = "succeeded";
  failure_message =
      (if ev.type == "payment_intent.payment_failed"
        then "Payment failed; the charge was rejected by the gateway."
        else "");
}

paid_intent-eq :
    (ev : WebhookEvent) (pi : PaymentIntent)
    → ev.status ≡ succeeded
    → apply_status ev pi ≡ paid_intent ev pi
unfolding apply_status failure_text
paid_intent-eq ev pi p =
    ap
      (λ (status : String). record pi {
        status = status;
        failure_message =
            (if ev.type == "payment_intent.payment_failed"
              then "Payment failed; the charge was rejected by the gateway."
              else if status == succeeded
              then ""
              else pi.failure_message);
      })
      p

-- A session that was found by its intent is found so after it is completed.
session-put :
    (pi_id : String) (m : Memory) (sess : Session)
    → IsIndexed m
    → get_session_by_payment_intent pi_id m ≡ ok sess
    → get_session_by_payment_intent pi_id (put_session (completed sess) m) ≡ ok (completed sess)
unfolding get_session_by_payment_intent find_by find put_session
session-put pi_id m sess h e = elim (Option-cases (lookup pi_id m.session_by_pi)) [
  | inl k ↦ absurd (ground arith)
  | inr (id, k) ↦
      let q : lookup id m.sessions ≡ some sess = ground arith in
      let o = h.sessions_keyed.own_id id sess q in
      ground (
        arith,
        lookup-index_by sess.payment_intent_id sess.id pi_id m.session_by_pi,
        lookup-insert sess.id sess.id (completed sess) m.sessions,
        eq_refl sess.id,
        lookup-insert sess.id id (completed sess) m.sessions,
        eq_iff sess.id id,
      )
]

module _ {W : Type 0} (out : Outside W) where
  -- The state once the intent is written and its event queued.
  noted : WebhookEvent → ℕ → PaymentIntent → State W → State W
  noted ev now pi s =
      let pi' = apply_status ev pi in
      queue_event out ev.type pi'.id (out.marshal (payment_intent (to_stripe_response pi'))) now
        (record s { store = put pi' s.store })

  paid_event :
      (ev : WebhookEvent) (now : ℕ) (pi : PaymentIntent) (s : State W)
      → find_intent_by_ref ev.reference s.store ≡ ok pi
      → (pi.status == ev.status) ≡ false
      → ev.status ≡ succeeded
      → process_event out ev now s ≡ complete_session out pi.id now (noted ev now pi s)
  unfolding process_event process_found noted
  paid_event ev now pi s f c p =
      rw (f, process_event)
        (else-eq {b = pi.status == ev.status} _ _ c
          ∙ then-eq {b = ev.status == succeeded} _ _ ((eq_iff ev.status succeeded).1 p))

  completes :
      (pi_id : String) (now : ℕ) (s : State W) (sess : Session)
      → get_session_by_payment_intent pi_id s.store ≡ ok sess
      → complete_session out pi_id now s
        ≡ queue_event out "checkout.session.completed" sess.id
            (out.marshal (checkout_session (to_stripe_checkout_session (completed sess))))
            now
            (record s { store = put_session (completed sess) s.store })
  unfolding complete_session
  completes pi_id now s sess h = rw (h, complete_session) refl

  -- An event with the status "succeeded", where the intent had another status and belongs to a checkout
  -- session, leaves in a consistent store the intent "succeeded" and otherwise as it was, but for the
  -- failure message, which is empty unless the event's type is that of a failed payment, and the
  -- session "complete" and "paid"; each is found by the intent's id.
  pub process_event-paid :
      (ev : WebhookEvent) (now : ℕ) (pi : PaymentIntent) (sess : Session) (s : State W)
      → IsIndexed s.store
      → find_intent_by_ref ev.reference s.store ≡ ok pi
      → (pi.status == ev.status) ≡ false
      → ev.status ≡ succeeded
      → get_session_by_payment_intent pi.id s.store ≡ ok sess
      → (get pi.id (process_event out ev now s).store ≡ ok (paid_intent ev pi))
        × (get_session_by_payment_intent pi.id (process_event out ev now s).store
            ≡ ok (completed sess))
  unfolding noted queue_event enqueue_webhook put_session get get_session_by_payment_intent put
      apply_status
  process_event-paid ev now pi sess s h f c p g =
      let t = paid_event ev now pi s f c p ∙ completes pi.id now (noted ev now pi s) sess g in
      (
        ap (λ (x : State W). get pi.id x.store) t
            ∙ get-put_self (apply_status ev pi) s.store
            ∙ ap (λ x. ok x) (paid_intent-eq ev pi p),
        ap (λ (x : State W). get_session_by_payment_intent pi.id x.store) t
            ∙ session-put pi.id s.store sess h g,
      )
