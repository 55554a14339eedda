-- ===== src/Postgres/Refunds.antt =====
-- internal/storepg/store.go: WriteRefund and ReserveRefund on the tables payment_intents and refunds.
-- Amounts are not negative, as the schema's CHECK constraints say. A failed connection is not a state
-- of the model.
pub mod Bounds
pub mod Retried
use payrouter.Prelude.{
  ℕ, ◌+◌, ◌-◌, String, Bool, true, false, ◌&&◌, ◌||◌, Option, none, some, [], ◌∷◌, Dict, lookup,
  insert, Result, ok, err, eqb, ltb, leb, ◌==◌, not, if◌then◌else◌,
}
use payrouter.Store.Types.{PaymentIntent, Refund}

-- The two tables, by the primary key `id`.
pub record Tables : Type 0 where
  pub intents : Dict PaymentIntent
  pub refunds : Dict Refund

-- store.ErrNotFound, ErrIdempotencyPayloadMismatch, ErrRefundExceedsPayment
pub data RefundError : Type 0 where
  not_found : RefundError
  idempotency_payload_mismatch : RefundError
  refund_exceeds_payment : RefundError

abbrev pub pending : String
pending = "pending"

abbrev pub succeeded : String
succeeded = "succeeded"

abbrev pub failed : String
failed = "failed"

-- `SELECT … WHERE account_id=$1 AND id=$2`
unfoldable pub own_intent : String → Option PaymentIntent → Option PaymentIntent
own_intent account none = none
own_intent account (some pi) = if pi.account_id == account then some pi else none

unfoldable pub own_refund : String → Option Refund → Option Refund
own_refund account none = none
own_refund account (some r) = if r.account_id == account then some r else none

unfoldable pub read_refund : String → String → Tables → Option Refund
unfolding own_refund
read_refund account id t = own_refund account (lookup id t.refunds)

-- The row that `INSERT … ON CONFLICT (id) DO UPDATE SET status, reason, metadata` leaves.
unfoldable pub upserted : Refund → Option Refund → Refund
upserted rf none = rf
upserted rf (some old) = record old {
  status = rf.status;
  reason = rf.reason;
  metadata = rf.metadata;
}

unfoldable pub write_refund : Refund → Tables → Tables
unfolding upserted
write_refund rf t = record t {
  refunds = insert rf.id (upserted rf (lookup rf.id t.refunds)) t.refunds;
}

-- What a row adds to the sum over the reserved refunds of an intent.
unfoldable pub counted : String → String → Refund → ℕ
counted account pi r =
    if r.account_id == account
      && r.payment_intent_id == pi
      && (r.status == pending || r.status == succeeded)
    then r.amount
    else 0

-- `SELECT COALESCE(SUM(amount_minor),0) … status IN ('pending','succeeded')`
unfoldable pub reserved : String → String → Dict Refund → ℕ
unfolding counted
reserved account pi [] = 0
reserved account pi ((id, r) ∷ rest) = counted account pi r + reserved account pi rest

-- The retry asks for something else than the row holds; an amount of 0 asks for the row's.
unfoldable pub is_mismatch : Refund → Refund → Bool
is_mismatch rf old =
    not (old.payment_intent_id == rf.payment_intent_id)
    || not (old.currency == rf.currency)
    || (not (eqb rf.amount 0) && not (eqb rf.amount old.amount))

-- A reservation that is there already is resumed.
unfoldable pub resume : Refund → Refund → Tables → Result RefundError Refund × Tables
unfolding write_refund is_mismatch
resume rf old t =
    let taken = record rf { amount = old.amount; status = old.status } in
    let retried = record rf { amount = old.amount; status = pending } in
    if is_mismatch rf old
    then (err idempotency_payload_mismatch, t)
    else if old.status == failed
    then (ok retried, write_refund retried t)
    else (ok taken, t)

-- A new one takes what is asked, or all that remains. Where more is reserved than was paid the code
-- has a negative `remaining`, which the last test refuses as it refuses 0.
unfoldable pub reserve_new : Refund → ℕ → ℕ → Tables → Result RefundError Refund × Tables
unfolding write_refund
reserve_new rf amount remaining t =
    let fresh = record rf { amount = amount; status = pending } in
    if leb amount 0 || ltb remaining amount
    then (err refund_exceeds_payment, t)
    else (ok fresh, write_refund fresh t)

unfoldable pub reserve_refund : Refund → Tables → Result RefundError Refund × Tables
unfolding own_intent read_refund resume reserve_new reserved
reserve_refund rf t = elim (own_intent rf.account_id (lookup rf.payment_intent_id t.intents)) [
  | none ↦ (err not_found, t)
  | some pi ↦ elim (read_refund rf.account_id rf.id t) [
    | some old ↦ resume rf old t
    | none ↦
        let remaining = pi.amount_minor - reserved rf.account_id rf.payment_intent_id t.refunds in
        reserve_new rf (if eqb rf.amount 0 then remaining else rf.amount) remaining t
  ]
]
