-- ===== src/Postgres/Outbound/Examples.antt =====
-- The outbox on concrete events.
use payrouter.Prelude.{false, true, none, some, List, [], ◌∷◌, err, ◌≡◌, refl, arith, eq_iff, leb}
use payrouter.GoLib.Strings.{trim_space, is_space}
use payrouter.Postgres.Rows.{find_first, update_where, first_due, sooner, bounded_error}
use payrouter.Postgres.Outbound.{
  OutboundEvent, claim_lost, get_outbound, enqueued_row, is_due, before, leased_row, lease_row,
  lease_due_outbound, complete_outbound, is_claimed, is_held, failed_row, resolved_row, update_one,
}
use payrouter.Postgres.Outbound.Calls.{Command, run, exec}
use payrouter.Postgres.Outbound.Lifecycle.{Survives, run-Survives, Buried, run-Buried}
use payrouter.Postgres.Outbound.Tokens.{Settled, complete_outbound-stale, complete_outbound-settles}

abbrev paid_event : OutboundEvent
paid_event = record {
  id = "evt_1";
  account_id = "acct";
  type = "payment_intent.succeeded";
  reference = "pi_1";
  payload = "{}";
  status = "";
  attempts = 0;
  max_attempts = 0;
  next_attempt_at = none;
  last_error = "";
  claim_token = none;
  claimed_until = none;
  created = 100;
  created_at = 0;
  delivered_at = none;
}

abbrev queued : OutboundEvent
queued = record paid_event {
  status = "pending";
  max_attempts = 5;
  next_attempt_at = some 100;
  created_at = 100;
}

abbrev leased : OutboundEvent
leased = record queued {
  status = "in_flight";
  attempts = 1;
  claim_token = some "t1";
  claimed_until = some 131;
}

abbrev dead_letter : OutboundEvent
dead_letter = record queued {
  status = "dead";
  attempts = 1;
  next_attempt_at = some 200;
  last_error = "timeout";
}

abbrev filling : List Command
filling = Command.enqueue 100 paid_event ∷ []

-- One attempt, of one, fails.
abbrev failing : List Command
failing =
    Command.enqueue 100 paid_event
    ∷ Command.lease 30 "t1" 101
    ∷ Command.complete "evt_1" "t1" false "timeout" 200 1 102
    ∷ []

abbrev calls : List Command
calls =
    Command.lease 30 "t2" 300
    ∷ Command.replay "evt_1" 301
    ∷ Command.enqueue 302 paid_event
    ∷ Command.complete "evt_1" "t2" true "" 400 5 303
    ∷ []

run-Survives_example : Survives "evt_1" queued calls (run filling [])
unfolding run exec get_outbound find_first enqueued_row
run-Survives_example = run-Survives filling calls "evt_1" queued refl

run-Buried_example : Buried "evt_1" 500 (run calls (run failing []))
unfolding run exec get_outbound find_first enqueued_row first_due sooner is_due before leased_row
    lease_row lease_due_outbound update_where complete_outbound is_claimed is_held failed_row
    resolved_row update_one bounded_error trim_space is_space
run-Buried_example = run-Buried failing calls "evt_1" 500 dead_letter refl refl

complete_outbound-stale_example :
    complete_outbound "evt_1" "t0" true "" 200 5 140 (leased ∷ []) ≡ (err claim_lost, leased ∷ [])
unfolding first_due sooner is_due leased_row lease_row lease_due_outbound update_where
complete_outbound-stale_example =
    complete_outbound-stale 30 "t1" "t0" true "" 200 5 101 140 (queued ∷ []) (leased ∷ []) leased
      refl (λ e. ground (arith, e, eq_iff "t1" "t0")) (ground arith)

complete_outbound-settles_example :
    Settled leased "t1" false
      (leb 5 1)
      (complete_outbound "evt_1" "t1" false "timeout" 200 5 102 (leased ∷ []))
unfolding run exec get_outbound find_first enqueued_row first_due sooner is_due leased_row lease_row
    lease_due_outbound update_where
complete_outbound-settles_example =
    complete_outbound-settles filling 30 "t1" false "timeout" 200 5 101 102 (leased ∷ []) leased
      refl (ground arith)
