-- ===== src/Server/Idempotency/Replay.antt =====
-- internal/server/server.go: a request with an Idempotency-Key that is sent again.
use payrouter.Prelude.{
  ℕ, String, true, false, some, List, [], ◌∷◌, ok, is_empty, leb, ◌≡◌, ◌≢◌, refl, sym, ap, ◌∙◌,
  subst, then-eq, else-eq,
}
use payrouter.Server.Http.{Request, Response, Libraries}
use payrouter.Server.Idempotency.{
  request_hash, replay, claim_error, finalize, after_claim, keyed, idempotency,
}
use payrouter.Postgres.Idempotency.{
  IdempotencyRecord, ClaimResult, payload_mismatch, Scope, claim_idempotency, complete_idempotency,
}
use payrouter.Postgres.Idempotency.Records.{Command, run, OnePer, IsStored, run-IsStored}
use payrouter.Postgres.Idempotency.Stored.{
  claim-OnePer, IsClaimed, Outcome, Owns, claim-IsClaimed, complete-IsStored, stored-claim,
  mismatched-claim,
}

abbrev pub scope_of : String → Request → Scope
scope_of operation r = record {
  account_id = r.account_id;
  operation = operation;
  key = r.idempotency_key;
}

-- A request that the wrapper claims for: it has a key and a body that can be read.
abbrev pub IsKeyed : Request → String → Type 0
IsKeyed r body = (is_empty r.idempotency_key ≡ false) × (r.body ≡ some body)

module _ (lib : Libraries) {W : Type 0} (operation : String)
    (h : String → Request → W → Response × W) where
  keyed-claims :
      (now : ℕ) (r : Request) (body : String) (records : List IdempotencyRecord) (w : W)
      → IsKeyed r body
      → idempotency lib true operation h now r (records, w)
        ≡ after_claim lib h
            (scope_of operation r)
            r
            w
            (claim_idempotency (scope_of operation r) (request_hash lib r body) now records)
            records
  unfolding idempotency keyed
  keyed-claims now r body records w (nonempty, readable) =
      else-eq _ _ nonempty ∙ ap (λ b. keyed lib h (scope_of operation r) now r w b records) readable

  -- What a request that owns its claim gets and leaves.
  finalize-stored :
      (scope : Scope) (hash : String) (now : ℕ) (response : Response)
      (records : List IdempotencyRecord)
      → leb 500 response.status ≡ false
      → OnePer records
      → IsClaimed scope hash now records
      → (finalize lib scope response records
          ≡ (response, (complete_idempotency scope response.status response.body records).1))
  unfolding finalize
  finalize-stored scope hash now response records fine one claimed =
      let stored =
        (complete-IsStored scope hash now response.status response.body records one claimed).0 in
      rw (stored, finalize) (else-eq _ _ fine)

  owned-after :
      (scope : Scope) (r : Request) (w : W) (claim : ClaimResult)
      (claimed records : List IdempotencyRecord)
      → claim.owned ≡ true
      → after_claim lib h scope r w (ok claim, claimed) records ≡ (
        (finalize lib scope (h r.idempotency_key r w).0 claimed).0,
        ((finalize lib scope (h r.idempotency_key r w).0 claimed).1, (h r.idempotency_key r w).1),
      )
  unfolding after_claim
  owned-after scope r w claim claimed records own = then-eq _ _ own

  -- A request that owns its claim and is not answered by a server error gets the answer of the handler,
  -- which is stored.
  served :
      (now : ℕ) (r : Request) (body : String) (records claimed : List IdempotencyRecord) (w : W)
      (claim : ClaimResult)
      → IsKeyed r body
      → OnePer claimed
      → claim_idempotency (scope_of operation r) (request_hash lib r body) now records
        ≡ (ok claim, claimed)
      → claim.owned ≡ true
      → leb 500 (h r.idempotency_key r w).0.status ≡ false
      → (left : List IdempotencyRecord) × (idempotency lib true operation h now r (records, w)
          ≡ ((h r.idempotency_key r w).0, (left, (h r.idempotency_key r w).1)))
        × IsStored
            (scope_of operation r)
            (request_hash lib r body)
            (h r.idempotency_key r w).0.status
            (h r.idempotency_key r w).0.body
            left
  served now r body records claimed w claim asks one claims own fine =
      let scope = scope_of operation r in
      let response = (h r.idempotency_key r w).0 in
      let owns : Owns (claim_idempotency scope (request_hash lib r body) now records) =
        subst Owns (sym claims) own in
      let is_claimed : IsClaimed scope (request_hash lib r body) now claimed =
        subst (λ (x : Outcome). IsClaimed scope (request_hash lib r body) now x.1) claims
          (claim-IsClaimed scope (request_hash lib r body) now records owns) in
      (
        (complete_idempotency scope response.status response.body claimed).1,
        keyed-claims now r body records w asks
            ∙ ap (λ (x : Outcome). after_claim lib h scope r w x records) claims
            ∙ owned-after scope r w claim claimed records own
            ∙ ap
                (λ (x : Response × List IdempotencyRecord).
                  (x.0, (x.1, (h r.idempotency_key r w).1)))
                (finalize-stored scope (request_hash lib r body) now response claimed fine one
                  is_claimed),
        (complete-IsStored scope (request_hash lib r body) now response.status response.body claimed
            one is_claimed).1,
      )

  -- The wrapper on a request whose claim is known.
  known-claim :
      (now : ℕ) (r : Request) (body : String) (scope : Scope) (hash : String)
      (records : List IdempotencyRecord) (w : W) (outcome : Outcome)
      → IsKeyed r body
      → scope_of operation r ≡ scope
      → request_hash lib r body ≡ hash
      → claim_idempotency scope hash now records ≡ outcome
      → idempotency lib true operation h now r (records, w)
        ≡ after_claim lib h (scope_of operation r) r w outcome records
  known-claim now r body scope hash records w outcome asks same digest e =
      keyed-claims now r body records w asks
      ∙ ap (λ (x : Outcome). after_claim lib h (scope_of operation r) r w x records)
          ((λ i. claim_idempotency (same i) (digest i) now records) ∙ e)

abbrev pub Handler : Type 0 → Type 0
Handler W = String → Request → W → Response × W

-- How a request is answered that comes again.
abbrev pub Replays :
    {W : Type 0}
    → Libraries
    → String
    → Handler W
    → Handler W
    → ℕ
    → ℕ
    → Request
    → Request
    → List Command
    → List Command
    → W
    → W
    → Type 0
Replays lib operation h h' now later r r' earlier between w w' =
    let first = (idempotency lib true operation h now r (run earlier [], w)).0 in
    let records = run between (idempotency lib true operation h now r (run earlier [], w)).1.0 in
    idempotency lib true operation h' later r' (records, w') ≡ (
      record {
        status = first.status;
        header = ("Content-Type", "application/json") ∷ [];
        body = first.body;
      },
      (records, w'),
    )

-- A request with an Idempotency-Key that is sent again with the same content gets the answer that the
-- first one got, its status and its body, without running a handler or changing anything: whenever it
-- comes, and whatever was claimed, completed or given up under any keys in between. The first request
-- owned its claim, on a table that any calls had filled, and was not answered by a server error.
pub idempotency-Replays :
    (lib : Libraries) {W : Type 0} (operation : String) (h h' : Handler W) (now later : ℕ)
    (r r' : Request) (body body' : String) (earlier between : List Command) (w w' : W)
    (claim : ClaimResult) (claimed : List IdempotencyRecord)
    → IsKeyed r body
    → claim_idempotency (scope_of operation r) (request_hash lib r body) now (run earlier [])
      ≡ (ok claim, claimed)
    → claim.owned ≡ true
    → leb 500 (h r.idempotency_key r w).0.status ≡ false
    → IsKeyed r' body'
    → scope_of operation r' ≡ scope_of operation r
    → request_hash lib r' body' ≡ request_hash lib r body
    → Replays lib operation h h' now later r r' earlier between w w'
unfolding after_claim replay
idempotency-Replays lib operation h h' now later r r' body body' earlier between w w' claim claimed
      asks claims own fine asks' same digest =
    let scope = scope_of operation r in
    let hash = request_hash lib r body in
    let one = claim-OnePer earlier scope hash now claim claimed claims in
    let (left, ran, stored) =
      served lib operation h now r body (run earlier []) claimed w claim asks one claims own fine in
    let kept = run-IsStored between left scope hash _ _ stored in
    let again = stored-claim scope hash _ later _ (run between left) kept in
    rw ran (
      known-claim lib operation h' later r' body' scope hash (run between left) w' _ asks' same
        digest again)

-- The same key with another content is refused with a conflict: no handler runs and nothing changes.
abbrev pub Conflicts :
    {W : Type 0}
    → Libraries
    → String
    → Handler W
    → Handler W
    → ℕ
    → ℕ
    → Request
    → Request
    → List Command
    → List Command
    → W
    → W
    → Type 0
Conflicts lib operation h h' now later r r' earlier between w w' =
    let records = run between (idempotency lib true operation h now r (run earlier [], w)).1.0 in
    idempotency lib true operation h' later r' (records, w')
    ≡ (claim_error lib payload_mismatch, (records, w'))

-- A request that reuses the Idempotency-Key of an answered one for the same operation, but whose hash
-- differs, is answered by the payload mismatch error, at any later time and after any further calls:
-- no handler runs, no record and nothing else changes. The first request is as for a replay.
pub idempotency-Conflicts :
    (lib : Libraries) {W : Type 0} (operation : String) (h h' : Handler W) (now later : ℕ)
    (r r' : Request) (body body' : String) (earlier between : List Command) (w w' : W)
    (claim : ClaimResult) (claimed : List IdempotencyRecord)
    → IsKeyed r body
    → claim_idempotency (scope_of operation r) (request_hash lib r body) now (run earlier [])
      ≡ (ok claim, claimed)
    → claim.owned ≡ true
    → leb 500 (h r.idempotency_key r w).0.status ≡ false
    → IsKeyed r' body'
    → scope_of operation r' ≡ scope_of operation r
    → request_hash lib r body ≢ request_hash lib r' body'
    → Conflicts lib operation h h' now later r r' earlier between w w'
unfolding after_claim
idempotency-Conflicts lib operation h h' now later r r' body body' earlier between w w' claim
      claimed asks claims own fine asks' same differs =
    let scope = scope_of operation r in
    let hash = request_hash lib r body in
    let one = claim-OnePer earlier scope hash now claim claimed claims in
    let (left, ran, stored) =
      served lib operation h now r body (run earlier []) claimed w claim asks one claims own fine in
    let kept = run-IsStored between left scope hash _ _ stored in
    let refused =
      mismatched-claim scope hash (request_hash lib r' body') _ later _ (run between left) kept
        differs in
    rw ran (
      known-claim lib operation h' later r' body' scope (request_hash lib r' body')
        (run between left) w' _ asks' same refl refused)
