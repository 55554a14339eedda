-- ===== src/Postgres/Idempotency.antt =====
-- internal/storepg/store.go: the table of idempotency records, one for each account, operation and key.
-- A time is a count of seconds.
pub mod Records
pub mod Stored
pub mod Leases
use payrouter.Prelude.{
  ℕ, ◌+◌, String, Bool, true, false, not, ◌&&◌, ◌||◌, Option, none, some, List, [], ◌∷◌, Result, ok,
  err, length, select, eqb, ltb, ◌==◌, if◌then◌else◌,
}
use payrouter.Postgres.Rows.{find_first, update_where, expired}

pub record IdempotencyRecord : Type 0 where
  pub account_id : String
  pub operation : String
  pub idempotency_key : String
  pub request_hash : String
  pub status : String
  pub response_status : Option ℕ
  pub response_body : String
  pub processing_expires_at : Option ℕ

abbrev pub idempotency_processing : String
idempotency_processing = "processing"

abbrev pub idempotency_completed : String
idempotency_completed = "completed"

abbrev pub idempotency_failed : String
idempotency_failed = "failed"

pub record ClaimResult : Type 0 where
  pub status : String
  pub response_status : ℕ
  pub response_body : String
  pub owned : Bool

pub data IdempotencyError : Type 0 where
  payload_mismatch in_progress no_longer_owned : IdempotencyError

-- The unique key of a record.
pub record Scope : Type 0 where
  pub account_id : String
  pub operation : String
  pub key : String

-- `WHERE account_id=$1 AND operation=$2 AND idempotency_key=$3`
unfoldable pub is_scoped : Scope → IdempotencyRecord → Bool
is_scoped scope row =
    row.account_id == scope.account_id
    && row.operation == scope.operation
    && row.idempotency_key == scope.key

unfoldable pub claimed_record : Scope → String → ℕ → IdempotencyRecord
claimed_record scope hash now = record {
  account_id = scope.account_id;
  operation = scope.operation;
  idempotency_key = scope.key;
  request_hash = hash;
  status = "processing";
  response_status = none;
  response_body = "";
  processing_expires_at = some (now + 30);
}

abbrev pub ownership : ClaimResult
ownership = record { status = "processing"; response_status = 0; response_body = ""; owned = true }

unfoldable or_zero : Option ℕ → ℕ
or_zero none = 0
or_zero (some n) = n

unfoldable pub stored_result : IdempotencyRecord → ClaimResult
unfolding or_zero
stored_result row = record {
  status = "completed";
  response_status = or_zero row.response_status;
  response_body = row.response_body;
  owned = false;
}

-- `processingExpires == nil || processingExpires.Before(time.Now())`
unfoldable pub is_lapsed : ℕ → Option ℕ → Bool
is_lapsed now none = true
is_lapsed now (some until) = ltb until now

unfoldable pub reclaimed_record : ℕ → IdempotencyRecord → IdempotencyRecord
reclaimed_record now row = record row {
  status = "processing";
  processing_expires_at = some (now + 30);
}

-- What ClaimIdempotency does with the row that is there.
unfoldable pub claim_existing :
    Scope
    → String
    → ℕ
    → IdempotencyRecord
    → List IdempotencyRecord
    → Result IdempotencyError ClaimResult × List IdempotencyRecord
unfolding stored_result is_lapsed reclaimed_record update_where is_scoped
claim_existing scope hash now row rows =
    if not (row.request_hash == hash)
    then (err payload_mismatch, rows)
    else if row.status == "completed"
    then (ok (stored_result row), rows)
    else if row.status == "failed" || is_lapsed now row.processing_expires_at
    then (ok ownership, update_where (is_scoped scope) (reclaimed_record now) rows)
    else (err in_progress, rows)

-- ClaimIdempotency; `ON CONFLICT DO NOTHING RETURNING id`
unfoldable pub claim_idempotency :
    Scope
    → String
    → ℕ
    → List IdempotencyRecord
    → Result IdempotencyError ClaimResult × List IdempotencyRecord
unfolding find_first claimed_record claim_existing is_scoped
claim_idempotency scope hash now rows = elim (find_first (is_scoped scope) rows) [
  | none ↦ (ok ownership, claimed_record scope hash now ∷ rows)
  | some row ↦ claim_existing scope hash now row rows
]

-- `... AND status='processing'`
unfoldable pub is_processing : Scope → IdempotencyRecord → Bool
unfolding is_scoped
is_processing scope row = is_scoped scope row && row.status == "processing"

unfoldable pub completed_record : ℕ → String → IdempotencyRecord → IdempotencyRecord
completed_record status body row = record row {
  status = "completed";
  response_status = some status;
  response_body = body;
  processing_expires_at = none;
}

-- CompleteIdempotency
unfoldable pub complete_idempotency :
    Scope
    → ℕ
    → String
    → List IdempotencyRecord
    → Result IdempotencyError (Unit {0}) × List IdempotencyRecord
unfolding is_processing completed_record update_where
complete_idempotency scope status body rows = (
  (if eqb (length (select (is_processing scope) rows)) 1 then ok tt else err no_longer_owned),
  update_where (is_processing scope) (completed_record status body) rows,
)

unfoldable pub failed_record : IdempotencyRecord → IdempotencyRecord
failed_record row = record row { status = "failed"; processing_expires_at = none }

-- FailIdempotency
unfoldable pub fail_idempotency : Scope → List IdempotencyRecord → List IdempotencyRecord
unfolding is_processing failed_record update_where
fail_idempotency scope rows = update_where (is_processing scope) failed_record rows
