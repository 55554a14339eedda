-- ===== src/Postgres/Outbound.antt =====
-- internal/storepg/outbound.go: the transactional outbox, filled, leased, completed and replayed. A
-- time is a count of seconds; each statement is one step on the rows. Of rows that are due at the
-- same time PostgreSQL takes any; here it is the one nearest to the front.
pub mod Steps
pub mod Calls
pub mod Lifecycle
pub mod Leases
pub mod Tokens
pub mod Examples
use payrouter.Prelude.{
  ℕ, ◌+◌, String, Bool, true, false, ◌&&◌, ◌||◌, Option, none, some, List, [], ◌∷◌, length, select,
  Result, ok, err, eqb, ltb, leb, ◌==◌, if◌then◌else◌,
}
use payrouter.Postgres.Rows.{find_first, update_where, has_token, expired, bounded_error, first_due}

-- store.OutboundEvent; an absent token, lease or time is `none`
pub record OutboundEvent : Type 0 where
  pub id : String
  pub account_id : String
  pub type : String
  pub reference : String
  pub payload : String
  pub status : String
  pub attempts : ℕ
  pub max_attempts : ℕ
  pub next_attempt_at : Option ℕ
  pub last_error : String
  pub claim_token : Option String
  pub claimed_until : Option ℕ
  pub created : ℕ
  pub created_at : ℕ
  pub delivered_at : Option ℕ

pub data OutboundError : Type 0 where
  claim_lost bad_max_attempts bad_lease not_found : OutboundError

abbrev pub outbound_pending : String
outbound_pending = "pending"

abbrev pub outbound_in_flight : String
outbound_in_flight = "in_flight"

abbrev pub outbound_delivered : String
outbound_delivered = "delivered"

abbrev pub outbound_failed : String
outbound_failed = "failed"

abbrev pub outbound_dead : String
outbound_dead = "dead"

or_now : ℕ → Option ℕ → ℕ
or_now now none = now
or_now now (some t) = t

-- The row that the INSERT writes.
unfoldable pub enqueued_row : ℕ → OutboundEvent → OutboundEvent
unfolding or_now
enqueued_row now ev = record ev {
  status = "pending";
  attempts = 0;
  max_attempts = (if eqb ev.max_attempts 0 then 5 else ev.max_attempts);
  next_attempt_at = some (or_now now ev.next_attempt_at);
  last_error = "";
  claim_token = none;
  claimed_until = none;
  created_at = now;
  delivered_at = none;
}

-- GetOutbound
unfoldable pub get_outbound : String → List OutboundEvent → Option OutboundEvent
unfolding find_first
get_outbound id rows = find_first (λ row. row.id == id) rows

-- EnqueueOutbound; `ON CONFLICT (id) DO NOTHING`
unfoldable pub enqueue_outbound : ℕ → OutboundEvent → List OutboundEvent → List OutboundEvent
unfolding get_outbound enqueued_row
enqueue_outbound now ev rows = elim (get_outbound ev.id rows) [
  | some row ↦ rows
  | none ↦ enqueued_row now ev ∷ rows
]

elapsed : ℕ → Option ℕ → Bool
elapsed now none = false
elapsed now (some t) = leb t now

unfoldable pub is_due : ℕ → OutboundEvent → Bool
unfolding elapsed expired
is_due now row =
    row.status == "pending"
    || (row.status == "failed" && elapsed now row.next_attempt_at)
    || (row.status == "in_flight" && expired now row.claimed_until)

-- `ORDER BY next_attempt_at, created`
unfoldable pub before : OutboundEvent → OutboundEvent → Bool
unfolding or_now
before a b =
    let x = or_now 0 a.next_attempt_at in
    let y = or_now 0 b.next_attempt_at in ltb x y || (eqb x y && ltb a.created b.created)

unfoldable pub leased_row : String → ℕ → ℕ → OutboundEvent → OutboundEvent
leased_row token now lease_seconds row = record row {
  status = "in_flight";
  attempts = row.attempts + 1;
  claim_token = some token;
  claimed_until = some (now + lease_seconds);
}

-- The UPDATE of the row that is due.
unfoldable pub lease_row :
    String
    → ℕ
    → ℕ
    → Option OutboundEvent
    → List OutboundEvent
    → Option OutboundEvent × List OutboundEvent
unfolding leased_row update_where
lease_row token now lease_seconds none rows = (none, rows)
lease_row token now lease_seconds (some due) rows = (
  some (leased_row token now lease_seconds due),
  update_where (λ row. row.id == due.id) (leased_row token now lease_seconds) rows,
)

-- LeaseDueOutbound under a fresh token
unfoldable pub lease_due_outbound :
    ℕ
    → String
    → ℕ
    → List OutboundEvent
    → Result OutboundError (Option OutboundEvent) × List OutboundEvent
unfolding first_due is_due before lease_row
lease_due_outbound lease_seconds token now rows =
    let (leased, rows') =
      lease_row token now lease_seconds (first_due before (is_due now) rows) rows in
    if ltb lease_seconds 1 || ltb 3600 lease_seconds
    then (err bad_lease, rows)
    else (ok leased, rows')

-- `WHERE id=$1 AND claim_token=$2`
unfoldable pub is_claimed : String → String → OutboundEvent → Bool
unfolding has_token
is_claimed id token row = row.id == id && has_token token row.claim_token

-- `... AND status='in_flight'`
unfoldable pub is_held : String → String → OutboundEvent → Bool
unfolding is_claimed
is_held id token row = is_claimed id token row && row.status == "in_flight"

unfoldable pub delivered_row : ℕ → OutboundEvent → OutboundEvent
delivered_row now row = record row {
  status = "delivered";
  delivered_at = some now;
  last_error = "";
  claim_token = none;
  claimed_until = none;
  next_attempt_at = some now;
}

unfoldable pub failed_row : Bool → String → ℕ → OutboundEvent → OutboundEvent
unfolding bounded_error
failed_row dead last_error next_attempt row = record row {
  last_error = bounded_error last_error;
  status = (if dead then outbound_dead else outbound_failed);
  claim_token = none;
  claimed_until = none;
  next_attempt_at = some next_attempt;
}

-- The UPDATE after an attempt.
unfoldable pub resolved_row : Bool → Bool → String → ℕ → ℕ → OutboundEvent → OutboundEvent
unfolding delivered_row failed_row
resolved_row true dead last_error next_attempt now row = delivered_row now row
resolved_row false dead last_error next_attempt now row =
    failed_row dead last_error next_attempt row

-- An UPDATE, and the test of the number of rows that it touched.
unfoldable pub update_one :
    OutboundError
    → (OutboundEvent → Bool)
    → (OutboundEvent → OutboundEvent)
    → List OutboundEvent
    → Result OutboundError (Unit {0}) × List OutboundEvent
unfolding update_where
update_one e p f rows =
    ((if eqb (length (select p rows)) 1 then ok tt else err e), update_where p f rows)

-- CompleteOutbound
unfoldable pub complete_outbound :
    String
    → String
    → Bool
    → String
    → ℕ
    → ℕ
    → ℕ
    → List OutboundEvent
    → Result OutboundError (Unit {0}) × List OutboundEvent
unfolding find_first is_claimed is_held resolved_row update_one
complete_outbound id token delivered last_error next_attempt max_attempts now rows =
    if ltb max_attempts 1
    then (err bad_max_attempts, rows)
    else elim (find_first (is_held id token) rows) [
      | none ↦ (err claim_lost, rows)
      | some row ↦
          let dead = leb max_attempts row.attempts in
          update_one claim_lost (is_claimed id token)
            (resolved_row delivered dead last_error next_attempt now) rows
    ]

-- `WHERE id=$1 AND status IN ('delivered','failed')`
unfoldable pub is_replayable : String → OutboundEvent → Bool
is_replayable id row = row.id == id && (row.status == "delivered" || row.status == "failed")

unfoldable pub replayed_row : ℕ → OutboundEvent → OutboundEvent
replayed_row now row = record row {
  status = "pending";
  next_attempt_at = some now;
  claim_token = none;
  claimed_until = none;
}

-- ReplayOutbound
unfoldable pub replay_outbound :
    String → ℕ → List OutboundEvent → Result OutboundError (Unit {0}) × List OutboundEvent
unfolding update_one is_replayable replayed_row
replay_outbound id now rows = update_one not_found (is_replayable id) (replayed_row now) rows
