-- ===== src/Server/Idempotency.antt =====
-- internal/server/server.go: the Idempotency-Key wrapper around the handlers that write. A request is
-- served in one piece; the claims of other requests that come in between are calls on the table.
pub mod Replay
pub mod Examples
use payrouter.Prelude.{
  ℕ, String, Bool, not, ◌||◌, Option, none, some, List, [], ◌∷◌, Result, ok, err, is_empty, leb,
  ◌+++◌, if◌then◌else◌,
}
use payrouter.Server.Http.{Request, Response, Libraries, write_stripe_error}
use payrouter.Postgres.Idempotency.{
  IdempotencyRecord, ClaimResult, IdempotencyError, payload_mismatch, in_progress, no_longer_owned,
  Scope, claim_idempotency, complete_idempotency, fail_idempotency,
}

module _ (lib : Libraries) where
  unfoldable pub canonical : String → String
  canonical body = elim (lib.canonical_form body) [ none ↦ body | some form ↦ form ]

  unfoldable pub request_hash : Request → String → String
  unfolding canonical
  request_hash r body = lib.sha256 (r.method +++ "\n" +++ r.path +++ "\n" +++ canonical body)

  unfoldable pub claim_error : IdempotencyError → Response
  unfolding write_stripe_error
  claim_error payload_mismatch =
      write_stripe_error lib 409 "idempotency_payload_mismatch"
        "Keys for idempotent requests can only be used with the same parameters they were first used with."
  claim_error in_progress =
      write_stripe_error lib 409 "idempotency_in_progress"
        "A request with the same Idempotency-Key is currently in progress; retry shortly."
  claim_error no_longer_owned =
      write_stripe_error lib 500 "api_error" "idempotency claim is no longer owned"

  -- The stored response, verbatim.
  unfoldable pub replay : ClaimResult → Response
  replay claim = record {
    status = claim.response_status;
    header = ("Content-Type", "application/json") ∷ [];
    body = claim.response_body;
  }

  -- The response is stored, or the claim is given up after a server error.
  unfoldable pub finalize :
      Scope → Response → List IdempotencyRecord → Response × List IdempotencyRecord
  unfolding write_stripe_error
  finalize scope response records =
      let (stored, records') = complete_idempotency scope response.status response.body records in
      if leb 500 response.status then (response, fail_idempotency scope records) else elim stored [
        | ok done ↦ (response, records')
        | err e ↦ (
          write_stripe_error lib 500 "api_error" "Unable to persist idempotency result.",
          records,
        )
      ]

  module _ {W : Type 0} where
    -- What follows the claim.
    unfoldable pub after_claim :
        (String → Request → W → Response × W)
        → Scope
        → Request
        → W
        → Result IdempotencyError ClaimResult × List IdempotencyRecord
        → List IdempotencyRecord
        → Response × (List IdempotencyRecord × W)
    unfolding claim_error replay finalize
    after_claim h scope r w (err e, claimed) records = (claim_error e, (records, w))
    after_claim h scope r w (ok claim, claimed) records =
        let (response, w') = h r.idempotency_key r w in
        let (final, records') = finalize scope response claimed in
        if claim.owned then (final, (records', w')) else (replay claim, (claimed, w))

    -- A request with a key, by its body.
    unfoldable pub keyed :
        (String → Request → W → Response × W)
        → Scope
        → ℕ
        → Request
        → W
        → Option String
        → List IdempotencyRecord
        → Response × (List IdempotencyRecord × W)
    unfolding write_stripe_error request_hash after_claim
    keyed h scope now r w none records = (
      write_stripe_error lib 400 "invalid_request_error" "Unable to read request body.",
      (records, w),
    )
    keyed h scope now r w (some body) records =
        after_claim h scope r w (claim_idempotency scope (request_hash r body) now records) records

    -- The wrapper at a time, for an operation and its handler, which gets the key of the context; a store without idempotency records, or
    -- a request without a key, goes straight to the handler.
    unfoldable pub idempotency :
        Bool
        → String
        → (String → Request → W → Response × W)
        → ℕ
        → Request
        → List IdempotencyRecord × W
        → Response × (List IdempotencyRecord × W)
    unfolding keyed
    idempotency durable operation h now r (records, w) =
        let scope : Scope = record {
          account_id = r.account_id;
          operation = operation;
          key = r.idempotency_key;
        } in
        let (plain, w') = h "" r w in
        if not durable || is_empty r.idempotency_key
        then (plain, (records, w'))
        else keyed h scope now r w r.body records
