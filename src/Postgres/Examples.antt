-- ===== src/Postgres/Examples.antt =====
-- The refund reservations and the notifications on concrete tables.
use payrouter.Prelude.{
  true, ℕ, ◌+◌, ◌≤◌, String, [], ◌∷◌, lookup, insert, ok, ◌≡◌, refl, arith, eq_iff, false, none,
  some, err,
}
use payrouter.Store.Types.{Refund}
use payrouter.Store.Examples.{intent}
use payrouter.Postgres.Rows.{update_where, first_due, sooner}
use payrouter.Postgres.Inbound.{
  InboundEvent, Inbox, claim_lost, complete_inbound, reclaim_stuck_inbound, oldest_due, lease_row,
  leased_row, is_reclaimable,
}
use payrouter.Postgres.Inbound.Claims.{KnownAfter, claim_inbound-again, complete_inbound-stale}
use payrouter.Postgres.Refunds.{
  Tables, pending, failed, own_intent, own_refund, read_refund, reserve_refund, reserve_new,
  reserved, counted, write_refund, upserted,
}
use payrouter.Postgres.Refunds.Retried.{reserve_refund-retried}
use payrouter.Postgres.Refunds.Bounds.{IsWithin, reserve_refund-IsWithin, write_refund-IsWithin}

abbrev asked : String → ℕ → String → Refund
asked id amount status = record {
  id = id;
  account_id = "acct";
  payment_intent_id = "pi_1";
  amount = amount;
  currency = "idr";
  status = status;
  reason = "";
  metadata = [];
  created = 1;
  livemode = false;
}

abbrev pub unrefunded : Tables
unrefunded = record { intents = ("pi_1", intent) ∷ []; refunds = [] }

-- The whole amount, asked for as 0, is reserved.
abbrev reserved_whole : Tables
reserved_whole = record {
  intents = ("pi_1", intent) ∷ [];
  refunds = ("re_1", asked "re_1" 10000 pending) ∷ [];
}

-- A refund of everything failed; then another one, of everything, succeeded.
abbrev refunded_since : Tables
refunded_since = record {
  intents = ("pi_1", intent) ∷ [];
  refunds = ("re_1", asked "re_1" 10000 failed) ∷ ("re_2", asked "re_2" 10000 "succeeded") ∷ [];
}

-- Nothing is refunded yet.
pub unrefunded-IsWithin : IsWithin unrefunded
unfolding lookup reserved
unrefunded-IsWithin = record { bound = λ id pi e. ground arith }

reserve_refund-IsWithin_example : (pending ≡ pending) × (1 ≤ 10000) × IsWithin reserved_whole
unfolding lookup insert reserve_refund own_intent read_refund own_refund reserved reserve_new
    write_refund upserted
reserve_refund-IsWithin_example =
    reserve_refund-IsWithin unrefunded reserved_whole (asked "re_1" 0 "pending")
      (asked "re_1" 10000 pending) unrefunded-IsWithin refl refl

reserved_whole-IsWithin : IsWithin reserved_whole
unfolding lookup reserved counted
reserved_whole-IsWithin = record { bound = λ id pi e. ground (arith, eq_iff "pi_1" id) }

write_refund-IsWithin_example :
    IsWithin (write_refund (asked "re_1" 10000 "succeeded") reserved_whole)
unfolding lookup
write_refund-IsWithin_example =
    write_refund-IsWithin reserved_whole (asked "re_1" 10000 "succeeded")
      (asked "re_1" 10000 pending) reserved_whole-IsWithin refl refl

reserve_refund-retried_example :
    (t' : Tables) × (reserve_refund (asked "re_1" 10000 pending) refunded_since
      ≡ (ok (asked "re_1" 10000 pending), t'))
    × (reserved "acct" "pi_1" t'.refunds ≡ reserved "acct" "pi_1" refunded_since.refunds + 10000)
unfolding lookup
reserve_refund-retried_example =
    reserve_refund-retried refunded_since (asked "re_1" 10000 pending) (asked "re_1" 10000 failed)
      intent refl refl refl refl refl refl refl refl

abbrev notice : InboundEvent
notice = record {
  id = 0;
  account_id = "acct";
  gateway = "midtrans";
  provider_event_id = "tx_1";
  event_hash = "hash";
  event_type = "payment_intent.succeeded";
  reference = "pi_1";
  raw = "{}";
  parsed = "[]";
  status = "pending";
  attempts = 0;
  last_error = "";
  claim_token = none;
  claimed_until = none;
  available_at = 0;
  applied_at = none;
  created_at = 0;
}

abbrev no_notices : Inbox
no_notices = record { rows = []; next_id = 1 }

-- The worker with the token "a" was interrupted.
abbrev interrupted : Inbox
interrupted = record {
  rows =
      record notice {
        id = 1;
        status = "processing";
        attempts = 1;
        claim_token = some "a";
        claimed_until = some 130;
      }
      ∷ [];
  next_id = 2;
}

abbrev taken_over : InboundEvent
taken_over = record notice {
  id = 1;
  status = "processing";
  attempts = 2;
  claim_token = some "b";
  claimed_until = some 230;
}

abbrev reclaimed : Inbox
reclaimed = record { rows = taken_over ∷ []; next_id = 2 }

claim_inbound-again_example : KnownAfter no_notices "a" 100 "b" 101 notice
claim_inbound-again_example = claim_inbound-again no_notices "a" "b" 100 101 notice

complete_inbound-stale_example :
    complete_inbound (λ n. n) 1 "a" "" true "" 8 201 reclaimed ≡ (err claim_lost, reclaimed)
unfolding reclaim_stuck_inbound oldest_due lease_row leased_row update_where is_reclaimable
    first_due sooner
complete_inbound-stale_example =
    complete_inbound-stale (λ n. n) "midtrans" "b" "a" "" "" true 30 8 200 201 interrupted reclaimed
      taken_over refl (λ e. ground (arith, eq_iff "b" "a")) (omega arith)
