-- ===== src/Postgres/Idempotency/Leases.antt =====
-- internal/storepg/store.go: how long a claim of an idempotency key is its owner's alone.
use payrouter.Prelude.{
  ℕ, ◌<◌, ◌+◌, ◌≤◌, String, true, false, List, [], ◌∷◌, ok, err, eqb, ◌==◌, ◌≡◌, refl, sym, ap, ◌∙◌,
  subst, if◌then◌else◌, arith, eq_iff,
}
use payrouter.Postgres.Rows.{update_where}
use payrouter.Postgres.Rows.Updates.{select-update, select-other}
use payrouter.Postgres.Idempotency.{
  IdempotencyRecord, ClaimResult, in_progress, no_longer_owned, Scope, is_scoped, ownership,
  is_lapsed, reclaimed_record, claim_existing, claim_idempotency, is_processing, completed_record,
  complete_idempotency,
}
use payrouter.Postgres.Idempotency.Records.{
  OnePer, IsStored, Command, committed, exec, run, run-OnePer,
}
use payrouter.Postgres.Idempotency.Stored.{
  processing-within, claim-OnePer, IsClaimed, Outcome, Owns, claim-IsClaimed, complete-IsStored,
}

claimed-facts :
    (row : IdempotencyRecord) (hash : String)
    → row.status ≡ "processing"
    → row.request_hash ≡ hash
    → ((row.request_hash == hash) ≡ true)
      × ((row.status == "completed") ≡ false)
      × ((row.status == "failed") ≡ false)
claimed-facts row hash e same =
    ((eq_iff row.request_hash hash).1 same, ap (λ s. s == "completed") e, ap (λ s. s == "failed") e)

-- A key that was claimed is its owner's alone for thirty seconds: until then a claim of the same request
-- fails as in progress and changes nothing, on a table that any calls had filled.
pub claim_idempotency-exclusive :
    (earlier : List Command) (scope : Scope) (hash : String) (now later : ℕ) (claim : ClaimResult)
    (claimed : List IdempotencyRecord)
    → claim_idempotency scope hash now (run earlier []) ≡ (ok claim, claimed)
    → claim.owned ≡ true
    → later ≤ now + 30
    → claim_idempotency scope hash later claimed ≡ (err in_progress, claimed)
unfolding claim_idempotency claim_existing is_lapsed
claim_idempotency-exclusive earlier scope hash now later claim claimed claims own early =
    let owns : Owns (claim_idempotency scope hash now (run earlier [])) =
      subst Owns (sym claims) own in
    let (row, found, state, same, until) : IsClaimed scope hash now claimed =
      subst (λ (x : Outcome). IsClaimed scope hash now x.1) claims
        (claim-IsClaimed scope hash now (run earlier []) owns) in
    let (q, c, f) = claimed-facts row hash state same in
    let l : is_lapsed later row.processing_expires_at ≡ false =
      ap (is_lapsed later) until ∙ ground arith in
    rw (found, claim_idempotency) (rw (q, c, f, l, claim_existing) refl)

completed-shut :
    (scope : Scope) (row : IdempotencyRecord)
    → row.status ≡ "completed"
    → is_processing scope row ≡ false
unfolding is_processing
completed-shut scope row e = ground (arith, ap (λ s. s == "processing") e)

taken-OnePer :
    (scope : Scope) (hash : String) (now : ℕ) (rows taken : List IdempotencyRecord)
    → OnePer rows
    → claim_idempotency scope hash now rows ≡ (ok ownership, taken)
    → OnePer taken
unfolding run exec committed
taken-OnePer scope hash now rows taken one took =
    subst OnePer (ap (λ (x : Outcome). committed x rows) took)
      (run-OnePer (Command.claim scope hash now ∷ []) rows one)

-- A claim whose lease ran out is taken over.
taken-over :
    (scope : Scope) (hash : String) (now later : ℕ) (rows : List IdempotencyRecord)
    → IsClaimed scope hash now rows
    → now + 30 < later
    → (rows' : List IdempotencyRecord) × (claim_idempotency scope hash later rows
        ≡ (ok ownership, rows'))
unfolding claim_idempotency claim_existing is_lapsed
taken-over scope hash now later rows (row, found, state, same, until) late =
    let (q, c, f) = claimed-facts row hash state same in
    let l : is_lapsed later row.processing_expires_at ≡ true =
      ap (is_lapsed later) until ∙ ground arith in
    (
      update_where (is_scoped scope) (reclaimed_record later) rows,
      rw (found, claim_idempotency) (rw (q, c, f, l, claim_existing) refl),
    )

completed-once :
    (scope : Scope) (hash : String) (status other : ℕ) (body text : String)
    (rows : List IdempotencyRecord)
    → OnePer rows
    → IsStored scope hash status body rows
    → (complete_idempotency scope other text rows).0 ≡ err no_longer_owned
unfolding complete_idempotency
completed-once scope hash status other body text rows one (row, found, done, same, code, stored) =
    let none_left =
      select-other (is_processing scope) (is_scoped scope) rows row (processing-within scope) found
        (completed-shut scope row done) (one scope) in
    ap (λ n. if eqb n 1 then ok tt else err no_longer_owned) none_left

-- What happens when the owner of a claim outlives its lease.
abbrev pub Overtaken :
    Scope → String → ℕ → ℕ → ℕ → String → String → List IdempotencyRecord → Type 0
Overtaken scope hash later first second body body' rows =
    (taken : List IdempotencyRecord) × (claim_idempotency scope hash later rows
      ≡ (ok ownership, taken))
    × ((complete_idempotency scope first body taken).0 ≡ ok tt)
    × ((complete_idempotency scope second body' (complete_idempotency scope first body taken).1).0
        ≡ err no_longer_owned)

-- A claim carries no token. When its thirty seconds are over, another claim of the same request owns the
-- key too; the completion of whoever comes first, the owner that was overtaken included, is accepted,
-- and the other one is told that it no longer owns its claim.
pub complete_idempotency-Overtaken :
    (earlier : List Command) (scope : Scope) (hash : String) (now later first second : ℕ)
    (body body' : String) (claim : ClaimResult) (claimed : List IdempotencyRecord)
    → claim_idempotency scope hash now (run earlier []) ≡ (ok claim, claimed)
    → claim.owned ≡ true
    → now + 30 < later
    → Overtaken scope hash later first second body body' claimed
unfolding complete_idempotency completed_record is_scoped
complete_idempotency-Overtaken earlier scope hash now later first second body body' claim claimed
      claims own late =
    let owns : Owns (claim_idempotency scope hash now (run earlier [])) =
      subst Owns (sym claims) own in
    let is_claimed : IsClaimed scope hash now claimed =
      subst (λ (x : Outcome). IsClaimed scope hash now x.1) claims
        (claim-IsClaimed scope hash now (run earlier []) owns) in
    let one = claim-OnePer earlier scope hash now claim claimed claims in
    let (taken, took) = taken-over scope hash now later claimed is_claimed late in
    let again : IsClaimed scope hash later taken =
      subst (λ (x : Outcome). IsClaimed scope hash later x.1) took
        (claim-IsClaimed scope hash later claimed (subst Owns (sym took) refl)) in
    let one' = taken-OnePer scope hash later claimed taken one took in
    let (accepted, stored) = complete-IsStored scope hash later first body taken one' again in
    (
      taken,
      took,
      accepted,
      completed-once scope hash first second body body'
          (complete_idempotency scope first body taken).1
          (λ s.
            subst (λ n. n ≤ 1)
              (sym (
                select-update (is_scoped s) (is_processing scope) (completed_record first body)
                  (λ x. refl) taken))
              (one' s))
          stored,
    )
