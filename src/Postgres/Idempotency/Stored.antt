-- ===== src/Postgres/Idempotency/Stored.antt =====
-- internal/storepg/store.go: what an owned claim and its completion leave.
use payrouter.Prelude.{
  ℕ, ◌+◌, ◌≤◌, String, true, false, ◌||◌, Option, some, List, [], ◌∷◌, Result, ok, err, length,
  select, eqb, ◌==◌, ◌≡◌, ◌≢◌, refl, ap, ◌∙◌, subst, inl, inr, if◌then◌else◌, arith, eq_iff,
  Bool-cases, Option-cases, then-eq,
}
use payrouter.Postgres.Rows.{find_first, update_where}
use payrouter.Postgres.Rows.Updates.{
  find_first-update, select-fewer, select-found, find_first-met, passed-over,
}
use payrouter.Postgres.Idempotency.{
  IdempotencyRecord, ClaimResult, IdempotencyError, payload_mismatch, no_longer_owned, Scope,
  is_scoped, claimed_record, stored_result, is_lapsed, reclaimed_record, or_zero, claim_existing,
  claim_idempotency, is_processing, completed_record, complete_idempotency,
}
use payrouter.Postgres.Idempotency.Records.{
  OnePer, IsStored, own-record, Command, committed, exec, run, run-OnePer,
}

-- The record that an owned claim leaves under its scope.
abbrev pub IsClaimed : Scope → String → ℕ → List IdempotencyRecord → Type 0
IsClaimed scope hash now rows =
    (row : IdempotencyRecord) × (find_first (is_scoped scope) rows ≡ some row)
    × (row.status ≡ "processing")
    × (row.request_hash ≡ hash)
    × (row.processing_expires_at ≡ some (now + 30))

abbrev pub Outcome : Type 0
Outcome = Result IdempotencyError ClaimResult × List IdempotencyRecord

pub claim-OnePer :
    (earlier : List Command) (scope : Scope) (hash : String) (now : ℕ) (claim : ClaimResult)
    (claimed : List IdempotencyRecord)
    → claim_idempotency scope hash now (run earlier []) ≡ (ok claim, claimed)
    → OnePer claimed
unfolding run exec committed
claim-OnePer earlier scope hash now claim claimed claims =
    subst OnePer (ap (λ (x : Outcome). committed x (run earlier [])) claims) (
      run-OnePer (Command.claim scope hash now ∷ []) (run earlier [])
        (run-OnePer earlier [] (λ s. omega arith)))

-- An outcome that is owned.
abbrev pub Owns : Outcome → Type 0
Owns (ok claim, rows) = claim.owned ≡ true
Owns (err e, rows) = ⊥

reclaimed :
    (scope : Scope) (hash : String) (now : ℕ) (row : IdempotencyRecord)
    (rows : List IdempotencyRecord)
    → find_first (is_scoped scope) rows ≡ some row
    → row.request_hash ≡ hash
    → IsClaimed scope hash now (update_where (is_scoped scope) (reclaimed_record now) rows)
unfolding reclaimed_record is_scoped
reclaimed scope hash now row rows found same = (
  reclaimed_record now row,
  find_first-update (is_scoped scope) (is_scoped scope) (reclaimed_record now) (λ x. refl) rows row
        found
      ∙ ap some (then-eq _ _ (find_first-met (is_scoped scope) rows row found)),
  refl,
  same,
  refl,
)

existing-claimed :
    (scope : Scope) (hash : String) (now : ℕ) (row : IdempotencyRecord)
    (rows : List IdempotencyRecord)
    → find_first (is_scoped scope) rows ≡ some row
    → Owns (claim_existing scope hash now row rows)
    → IsClaimed scope hash now (claim_existing scope hash now row rows).1
unfolding claim_existing
existing-claimed scope hash now row rows found = elim (Bool-cases (row.request_hash == hash)) [
  | inr q ↦ rw (q, claim_existing) (λ no. absurd no)
  | inl q ↦ elim (Bool-cases (row.status == "completed")) [
    | inl c ↦ rw (q, c, claim_existing) (λ no. absurd (ground (arith, no)))
    | inr c ↦
        elim (Bool-cases (row.status == "failed" || is_lapsed now row.processing_expires_at)) [
          | inl l ↦
              rw (q, c, l, claim_existing)
                (λ own.
                  reclaimed scope hash now row rows found ((eq_iff row.request_hash hash).0 q))
          | inr l ↦ rw (q, c, l, claim_existing) (λ no. absurd no)
        ]
  ]
]

-- An owned claim leaves a record of its scope in processing, with the hash of the request.
pub claim-IsClaimed :
    (scope : Scope) (hash : String) (now : ℕ) (rows : List IdempotencyRecord)
    → Owns (claim_idempotency scope hash now rows)
    → IsClaimed scope hash now (claim_idempotency scope hash now rows).1
unfolding claim_idempotency find_first claimed_record
claim-IsClaimed scope hash now rows = elim (Option-cases (find_first (is_scoped scope) rows)) [
  | inl e ↦
      rw (e, claim_idempotency)
        (λ own. (
          claimed_record scope hash now,
          then-eq _ _ (own-record scope hash now),
          refl,
          refl,
          refl,
        ))
  | inr (row, e) ↦ rw (e, claim_idempotency) (existing-claimed scope hash now row rows e)
]

pub processing-within :
    (scope : Scope) (row : IdempotencyRecord)
    → is_processing scope row ≡ true
    → is_scoped scope row ≡ true
unfolding is_processing
processing-within scope row h = ground arith

processing-claimed :
    (scope : Scope) (row : IdempotencyRecord)
    → is_scoped scope row ≡ true
    → row.status ≡ "processing"
    → is_processing scope row ≡ true
unfolding is_processing
processing-claimed scope row own e = ground (arith, ap (λ s. s == "processing") e)

some_processing :
    (scope : Scope) (rows : List IdempotencyRecord) (row : IdempotencyRecord)
    → find_first (is_scoped scope) rows ≡ some row
    → is_processing scope row ≡ true
    → 1 ≤ length (select (is_processing scope) rows)
some_processing scope rows row found hit =
    elim (Option-cases (find_first (is_processing scope) rows)) [
      | inl e ↦ absurd (
          ground (arith, passed-over (is_processing scope) (is_scoped scope) rows row e found, hit))
      | inr (x, e) ↦ select-found (is_processing scope) rows x e
    ]

-- Completing a claimed record touches one record and stores the response.
pub complete-IsStored :
    (scope : Scope) (hash : String) (now status : ℕ) (body : String) (rows : List IdempotencyRecord)
    → OnePer rows
    → IsClaimed scope hash now rows
    → ((complete_idempotency scope status body rows).0 ≡ ok tt)
      × IsStored scope hash status body (complete_idempotency scope status body rows).1
unfolding complete_idempotency completed_record is_scoped
complete-IsStored scope hash now status body rows one (row, found, state, same, until) =
    let own = find_first-met (is_scoped scope) rows row found in
    let hit = processing-claimed scope row own state in
    let most =
      select-fewer (is_processing scope) (is_scoped scope) rows (processing-within scope) in
    let least = some_processing scope rows row found hit in
    let exactly : length (select (is_processing scope) rows) ≡ 1 =
      omega (arith, most, least, one scope) in
    (
      ap (λ n. if eqb n 1 then ok tt else err no_longer_owned) exactly,
      (
        completed_record status body row,
        find_first-update (is_scoped scope) (is_processing scope) (completed_record status body)
              (λ x. refl) rows row found
            ∙ ap some (then-eq _ _ hit),
        refl,
        same,
        refl,
        refl,
      ),
    )

result_of : Option ℕ → String → ClaimResult
unfolding or_zero
result_of status body = record {
  status = "completed";
  response_status = or_zero status;
  response_body = body;
  owned = false;
}

-- A stored response is what the next claim of the same request gets.
pub stored-claim :
    (scope : Scope) (hash : String) (status now : ℕ) (body : String) (rows : List IdempotencyRecord)
    → IsStored scope hash status body rows
    → claim_idempotency scope hash now rows ≡ (
      ok (record {
        status = "completed";
        response_status = status;
        response_body = body;
        owned = false;
      }),
      rows,
    )
unfolding claim_idempotency claim_existing stored_result result_of or_zero
stored-claim scope hash status now body rows (row, found, done, same, code, text) =
    let q = (eq_iff row.request_hash hash).1 same in
    let d = (eq_iff row.status "completed").1 done in
    rw (found, claim_idempotency)
      (rw (q, d, claim_existing)
        (ap (λ (x : Option ℕ × String). (ok (result_of x.0 x.1), rows)) (λ i. (code i, text i))))

-- A claim of another request under the same key is refused.
pub mismatched-claim :
    (scope : Scope) (hash other : String) (status now : ℕ) (body : String)
    (rows : List IdempotencyRecord)
    → IsStored scope hash status body rows
    → hash ≢ other
    → claim_idempotency scope other now rows ≡ (err payload_mismatch, rows)
unfolding claim_idempotency claim_existing
mismatched-claim scope hash other status now body rows (row, found, done, same, code, text) n =
    let q : (row.request_hash == other) ≡ false =
      ground (arith, eq_iff row.request_hash other, same, n) in
    rw (found, claim_idempotency) (rw (q, claim_existing) refl)
