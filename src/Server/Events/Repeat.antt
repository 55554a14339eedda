-- ===== src/Server/Events/Repeat.antt =====
-- internal/server/webhook.go: processEvent when its notification is repeated.
use payrouter.Prelude.{
  ℕ, String, Bool, true, false, ok, err, ◌≡◌, refl, sym, ap, ◌∙◌, inl, inr, subst, ◌==◌, eq_refl,
  arith, if◌then◌else◌, Bool-cases, then-eq, Result-cases,
}
use payrouter.Store.Types.{PaymentIntent, Memory}
use payrouter.Store.Memory.{get, put, get_by_gateway_reference, put_session}
use payrouter.Store.Queue.{enqueue_webhook}
use payrouter.Store.Invariant.{IsIndexed}
use payrouter.Gateway.{WebhookEvent}
use payrouter.Server.Objects.{succeeded, payment_intent}
use payrouter.Server.Objects.Serializers.{to_stripe_response}
use payrouter.Server.Events.{
  Outside, State, find_intent_by_ref, apply_status, queue_event, complete_session, process_found,
  process_event,
}
use payrouter.Server.Events.Lookup.{find_intent_by_ref-put}

-- The tables that an intent is looked up in.
record SameIntents (a b : Memory) : Type 0 where
  intents : a.intents ≡ b.intents
  gw_ref_index : a.gw_ref_index ≡ b.gw_ref_index

find-same :
    (ref : String) (a b : Memory)
    → SameIntents a b
    → find_intent_by_ref ref a ≡ find_intent_by_ref ref b
unfolding find_intent_by_ref get get_by_gateway_reference
find-same ref a b h = ground (arith, h.intents, h.gw_ref_index)

id-apply_status : (ev : WebhookEvent) (pi : PaymentIntent) → (apply_status ev pi).id ≡ pi.id
unfolding apply_status
id-apply_status ev pi = refl

status-apply_status :
    (ev : WebhookEvent) (pi : PaymentIntent) → ((apply_status ev pi).status == ev.status) ≡ true
unfolding apply_status
status-apply_status ev pi = eq_refl ev.status

SameIntents-trans : (a b c : Memory) → SameIntents a b → SameIntents b c → SameIntents a c
SameIntents-trans a b c h k = record {
  intents = h.intents ∙ k.intents;
  gw_ref_index = h.gw_ref_index ∙ k.gw_ref_index;
}

module _ {W : Type 0} (x y : State W) (m : Memory) where
  if-same :
      (b : Bool)
      → SameIntents x.store m
      → SameIntents y.store m
      → SameIntents (if b then x else y).store m
  if-same true h k = h
  if-same false h k = k

  else-same :
      {b : Bool} → b ≡ false → SameIntents y.store m → SameIntents (if b then x else y).store m
  else-same h k = subst (λ c. SameIntents (if c then x else y).store m) (sym h) k

module _ {W : Type 0} (out : Outside W) where
  queue_event-same :
      (type ref json : String) (now : ℕ) (s : State W)
      → SameIntents (queue_event out type ref json now s).store s.store
  unfolding queue_event enqueue_webhook
  queue_event-same type ref json now s = ground arith

  complete_session-same :
      (id : String) (now : ℕ) (s : State W)
      → SameIntents (complete_session out id now s).store s.store
  unfolding complete_session queue_event enqueue_webhook put_session
  complete_session-same id now s = ground arith

  -- After an event that changes an intent, the intent is found with the status of the event.
  process_found-put :
      (ev : WebhookEvent) (now : ℕ) (pi : PaymentIntent) (s : State W)
      → (pi.status == ev.status) ≡ false
      → SameIntents (process_found out ev now pi s).store (put (apply_status ev pi) s.store)
  unfolding process_found
  process_found-put ev now pi s h =
      let pi' = apply_status ev pi in
      let sp = record s { store = put pi' s.store } in
      let s' =
        queue_event out ev.type pi'.id (out.marshal (payment_intent (to_stripe_response pi'))) now
          sp in
      let s_done = complete_session out pi.id now s' in
      else-same s (if ev.status == succeeded then s_done else s') (put pi' s.store) h (
        if-same s_done s' _ (ev.status == succeeded)
          (SameIntents-trans _ s'.store _ (complete_session-same pi.id now s')
            (queue_event-same _ _ _ now sp))
          (queue_event-same _ _ _ now sp))

  process_event-found :
      (ev : WebhookEvent) (now : ℕ) (pi : PaymentIntent) (s : State W)
      → find_intent_by_ref ev.reference s.store ≡ ok pi
      → process_event out ev now s ≡ process_found out ev now pi s
  unfolding process_event
  process_event-found ev now pi s h = rw (h, process_event) refl

  -- An event for an intent that has its status already changes nothing.
  process_found-same :
      (ev : WebhookEvent) (now : ℕ) (pi : PaymentIntent) (s : State W)
      → (pi.status == ev.status) ≡ true
      → process_found out ev now pi s ≡ s
  unfolding process_found
  process_found-same ev now pi s h = then-eq s _ h

  process_event-unknown :
      (ev : WebhookEvent) (now : ℕ) (e : String) (s : State W)
      → find_intent_by_ref ev.reference s.store ≡ err e
      → process_event out ev now s ≡ s
  unfolding process_event
  process_event-unknown ev now e s h = rw (h, process_event) refl

  unchanged-repeat :
      (ev : WebhookEvent) (now later : ℕ) (s : State W)
      → process_event out ev now s ≡ s
      → process_event out ev later s ≡ s
      → process_event out ev later (process_event out ev now s) ≡ process_event out ev now s
  unchanged-repeat ev now later s h k = ap (process_event out ev later) h ∙ k ∙ sym h

  -- A one-time notification that arrives again, at any later time, changes nothing more: neither
  -- the store, nor the queue of events, nor the random ids drawn.
  pub process_event-repeat :
      (ev : WebhookEvent) (now later : ℕ) (s : State W)
      → IsIndexed s.store
      → process_event out ev later (process_event out ev now s) ≡ process_event out ev now s
  process_event-repeat ev now later s h =
      elim (Result-cases (find_intent_by_ref ev.reference s.store)) [
        | inr (e, f) ↦
            unchanged-repeat ev now later s (process_event-unknown ev now e s f)
              (process_event-unknown ev later e s f)
        | inl (pi, f) ↦ elim (Bool-cases (pi.status == ev.status)) [
          | inl q ↦
              unchanged-repeat ev now later s
                (process_event-found ev now pi s f ∙ process_found-same ev now pi s q)
                (process_event-found ev later pi s f ∙ process_found-same ev later pi s q)
          | inr q ↦
              let g =
                find-same ev.reference _ _ (process_found-put ev now pi s q)
                ∙ find_intent_by_ref-put ev.reference s.store pi (apply_status ev pi) h
                    (id-apply_status ev pi) f in
              let t = process_event-found ev now pi s f in
              ap (process_event out ev later) t
              ∙ process_event-found ev later (apply_status ev pi) (process_found out ev now pi s) g
              ∙ process_found-same ev later (apply_status ev pi) (process_found out ev now pi s)
                  (status-apply_status ev pi)
              ∙ sym t
        ]
      ]
