-- ===== src/Postgres/Refunds/Retried.antt =====
-- internal/storepg/store.go: a failed refund that is reserved again.
use payrouter.Prelude.{
  ℕ, ◌+◌, some, lookup, ok, eq_iff, ◌≡◌, refl, ap, ◌∙◌, arith, then-eq, else-eq,
}
use payrouter.Store.Types.{PaymentIntent, Refund}
use payrouter.Postgres.Refunds.{
  Tables, pending, succeeded, failed, own_intent, upserted, write_refund, counted, reserved,
  is_mismatch, resume, reserve_refund,
}
use payrouter.Postgres.Refunds.Bounds.{reserved-insert, reserve_refund-resumed}

resume-retried :
    (t : Tables) (rf old : Refund)
    → old.payment_intent_id ≡ rf.payment_intent_id
    → old.currency ≡ rf.currency
    → old.amount ≡ rf.amount
    → old.status ≡ failed
    → resume rf old t
      ≡ (ok (record rf { status = pending }), write_refund (record rf { status = pending }) t)
unfolding resume
resume-retried t rf old c d f g =
    else-eq {b = is_mismatch rf old} _ _ (
      unfold is_mismatch in
      ground
        (arith, eq_iff old.payment_intent_id rf.payment_intent_id, eq_iff old.currency rf.currency))
    ∙ then-eq _ _ ((eq_iff old.status failed).1 g)
    ∙ ap (λ (x : ℕ). let r = record rf { amount = x; status = pending } in (ok r, write_refund r t))
        f

retried-reserved :
    (t : Tables) (r old : Refund)
    → lookup r.id t.refunds ≡ some old
    → old.account_id ≡ r.account_id
    → old.payment_intent_id ≡ r.payment_intent_id
    → old.amount ≡ r.amount
    → old.status ≡ failed
    → r.status ≡ pending
    → reserved r.account_id r.payment_intent_id (write_refund r t).refunds
      ≡ reserved r.account_id r.payment_intent_id t.refunds + r.amount
unfolding write_refund upserted counted
retried-reserved t r old e b c f g p =
    rw (e, write_refund)
      (ground (
        arith,
        reserved-insert r.account_id r.payment_intent_id r.id (upserted r (some old)) old t.refunds,
        eq_iff old.account_id r.account_id,
        eq_iff old.payment_intent_id r.payment_intent_id,
        eq_iff r.status pending,
        eq_iff old.status pending,
        eq_iff old.status succeeded,
        eq_iff failed pending,
        eq_iff failed succeeded,
      ))

-- A failed refund that is tried again, by the same request under the same id, is granted and
-- reserved again by its whole amount without a look at what remains: the sum of the reserved
-- refunds of its intent grows by the amount, however much was refunded since it failed.
pub reserve_refund-retried :
    (t : Tables) (rf old : Refund) (pi : PaymentIntent)
    → lookup rf.payment_intent_id t.intents ≡ some pi
    → pi.account_id ≡ rf.account_id
    → lookup rf.id t.refunds ≡ some old
    → old.account_id ≡ rf.account_id
    → old.payment_intent_id ≡ rf.payment_intent_id
    → old.currency ≡ rf.currency
    → old.amount ≡ rf.amount
    → old.status ≡ failed
    → (t' : Tables) × (reserve_refund rf t ≡ (ok (record rf { status = pending }), t'))
      × (reserved rf.account_id rf.payment_intent_id t'.refunds
          ≡ reserved rf.account_id rf.payment_intent_id t.refunds + rf.amount)
unfolding own_intent
reserve_refund-retried t rf old pi i a e b c d f g =
    let q : own_intent rf.account_id (lookup rf.payment_intent_id t.intents) ≡ some pi =
      ground (arith, eq_iff pi.account_id rf.account_id) in
    let r = record rf { status = pending } in
    (
      write_refund r t,
      reserve_refund-resumed t rf old pi e b q ∙ resume-retried t rf old c d f g,
      retried-reserved t r old e b c f g refl,
    )
