-- ===== src/Postgres/Inbound.antt =====
-- internal/storepg/inbound.go: the table of provider notifications, claimed, completed and reclaimed.
-- A time is a count of seconds. Each operation is one transaction, so no other one holds a row
-- lock while it runs.
pub mod Claims
use payrouter.Prelude.{
  ℕ, zero, suc, ◌+◌, String, Bool, true, false, ◌&&◌, ◌||◌, Option, none, some, List, [], ◌∷◌, ◌++◌,
  map, Result, ok, err, eqb, ltb, leb, is_empty, ◌==◌, if◌then◌else◌,
}
use payrouter.Postgres.Rows.{find_first, update_where, has_token, expired, bounded_error, first_due}

-- store.InboundEvent; an absent token, lease or time is `none`
pub record InboundEvent : Type 0 where
  pub id : ℕ
  pub account_id : String
  pub gateway : String
  pub provider_event_id : String
  pub event_hash : String
  pub event_type : String
  pub reference : String
  pub raw : String
  pub parsed : String
  pub status : String
  pub attempts : ℕ
  pub last_error : String
  pub claim_token : Option String
  pub claimed_until : Option ℕ
  pub available_at : ℕ
  pub applied_at : Option ℕ
  pub created_at : ℕ

-- The rows, and the id that the next one gets.
pub record Inbox : Type 0 where
  pub rows : List InboundEvent
  pub next_id : ℕ

pub data InboundError : Type 0 where
  claim_lost bad_max_attempts bad_lease : InboundError

-- The two unique indexes, and the query of readInboundDuplicate.
unfoldable pub is_duplicate : InboundEvent → InboundEvent → Bool
is_duplicate ev row =
    if is_empty ev.provider_event_id
    then row.gateway == ev.gateway
      && row.event_hash == ev.event_hash
      && row.event_type == ev.event_type
      && row.reference == ev.reference
      && is_empty row.provider_event_id
    else row.gateway == ev.gateway
      && row.provider_event_id == ev.provider_event_id
      && row.event_type == ev.event_type

-- The row that the INSERT writes.
unfoldable pub claimed_row : String → ℕ → ℕ → InboundEvent → InboundEvent
claimed_row token now id ev = record ev {
  id = id;
  status = "processing";
  attempts = 1;
  last_error = "";
  claim_token = some token;
  claimed_until = some (now + 30);
  available_at = now;
  applied_at = none;
  created_at = now;
}

-- The row of the event, and whether the caller owns it.
unfoldable pub claim_inbound : String → ℕ → InboundEvent → Inbox → (InboundEvent × Bool) × Inbox
unfolding find_first is_duplicate claimed_row
claim_inbound token now ev t = elim (find_first (is_duplicate ev) t.rows) [
  | some row ↦ ((row, false), t)
  | none ↦
      let row = claimed_row token now t.next_id ev in
      ((row, true), record { rows = row ∷ t.rows; next_id = t.next_id + 1 })
]

-- `WHERE id=$1 AND status='processing' AND claim_token=$2`; the UPDATE finds the row that this
-- selected by its id and token.
unfoldable pub is_held : ℕ → String → InboundEvent → Bool
unfolding has_token
is_held id token row =
    eqb row.id id && row.status == "processing" && has_token token row.claim_token

-- `COALESCE(NULLIF($3,''),account_id)`
unfoldable pub coalesced : String → String → String
coalesced given old = if is_empty given then old else given

unfoldable pub applied_row : String → ℕ → InboundEvent → InboundEvent
unfolding coalesced
applied_row account now row = record row {
  account_id = coalesced account row.account_id;
  status = "applied";
  applied_at = some now;
  claim_token = none;
  claimed_until = none;
  last_error = "";
}

-- `delay` is retryDelay with its random jitter.
unfoldable pub failed_row : (ℕ → ℕ) → String → String → ℕ → ℕ → InboundEvent → InboundEvent
unfolding coalesced bounded_error
failed_row delay account last_error max_attempts now row =
    let dead = leb max_attempts row.attempts in
    record row {
      account_id = coalesced account row.account_id;
      last_error = bounded_error last_error;
      status = (if dead then "dead" else "failed");
      claim_token = none;
      claimed_until = none;
      available_at = (if dead then now else now + delay row.attempts);
    }

unfoldable pub complete_inbound :
    (ℕ → ℕ)
    → ℕ
    → String
    → String
    → Bool
    → String
    → ℕ
    → ℕ
    → Inbox
    → Result InboundError (Unit {0}) × Inbox
unfolding find_first is_held update_where applied_row failed_row
complete_inbound delay id token account applied last_error max_attempts now t =
    let resolve = λ (row : InboundEvent).
      if applied
      then applied_row account now row
      else failed_row delay account last_error max_attempts now row in
    if ltb max_attempts 1
    then (err bad_max_attempts, t)
    else elim (find_first (is_held id token) t.rows) [
      | none ↦ (err claim_lost, t)
      | some row ↦ (ok tt, record t { rows = update_where (is_held id token) resolve t.rows })
    ]

unfoldable pub is_reclaimable : String → ℕ → InboundEvent → Bool
unfolding expired
is_reclaimable gateway now row =
    row.gateway == gateway
    && (((row.status == "pending" || row.status == "failed") && leb row.available_at now)
        || (row.status == "processing" && expired now row.claimed_until))

-- `ORDER BY created_at, id`
unfoldable pub before : InboundEvent → InboundEvent → Bool
before a b = ltb a.created_at b.created_at || (eqb a.created_at b.created_at && ltb a.id b.id)

unfoldable pub oldest_due : String → ℕ → List InboundEvent → Option InboundEvent
unfolding is_reclaimable before first_due
oldest_due gateway now rows = first_due before (is_reclaimable gateway now) rows

unfoldable pub leased_row : String → ℕ → ℕ → InboundEvent → InboundEvent
leased_row token now lease_seconds row = record row {
  status = "processing";
  attempts = row.attempts + 1;
  claim_token = some token;
  claimed_until = some (now + lease_seconds);
}

-- The UPDATE of the row that is due.
unfoldable pub lease_row :
    String → ℕ → ℕ → Option InboundEvent → Inbox → Result InboundError (Option InboundEvent) × Inbox
unfolding leased_row update_where
lease_row token now lease_seconds none t = (ok none, t)
lease_row token now lease_seconds (some due) t = (
  ok (some (leased_row token now lease_seconds due)),
  record t {
    rows = update_where (λ row. eqb row.id due.id) (leased_row token now lease_seconds) t.rows;
  },
)

unfoldable pub reclaim_stuck_inbound :
    String → ℕ → String → ℕ → Inbox → Result InboundError (Option InboundEvent) × Inbox
unfolding oldest_due lease_row
reclaim_stuck_inbound gateway lease_seconds token now t =
    if ltb lease_seconds 1 || ltb 3600 lease_seconds
    then (err bad_lease, t)
    else lease_row token now lease_seconds (oldest_due gateway now t.rows) t
