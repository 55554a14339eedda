-- ===== src/Postgres/Idempotency/Records.antt =====
-- internal/storepg/store.go: the idempotency records under any claims, completions and failures.
use payrouter.Prelude.{
  ℕ, suc, ◌≤◌, String, Bool, true, false, ◌||◌, none, some, List, [], ◌∷◌, Result, ok, err, length,
  select, eqb, ◌==◌, ◌≡◌, ◌≢◌, refl, sym, ap, ◌∙◌, subst, inl, inr, arith, eq_iff, eq_refl,
  Bool-cases, Option-cases, else-eq,
}
use payrouter.Postgres.Rows.{find_first, update_where}
use payrouter.Postgres.Rows.Updates.{find_first-update, select-update, select-none, find_first-met}
use payrouter.Postgres.Idempotency.{
  IdempotencyRecord, IdempotencyError, Scope, is_scoped, claimed_record, is_lapsed,
  reclaimed_record, claim_existing, claim_idempotency, is_processing, completed_record,
  complete_idempotency, failed_record, fail_idempotency,
}

-- A call of the store, which the server makes in a transaction of its own.
pub data Command : Type 0 where
  claim : Scope → String → ℕ → Command
  complete : Scope → ℕ → String → Command
  fail : Scope → Command

-- RunInTx: an error rolls back.
unfoldable pub committed :
    {A : Type 0}
    → Result IdempotencyError A × List IdempotencyRecord
    → List IdempotencyRecord
    → List IdempotencyRecord
committed (ok a, rows') rows = rows'
committed (err e, rows') rows = rows

unfoldable pub exec : Command → List IdempotencyRecord → List IdempotencyRecord
unfolding committed
exec (claim scope hash now) rows = committed (claim_idempotency scope hash now rows) rows
exec (complete scope status body) rows =
    committed (complete_idempotency scope status body rows) rows
exec (fail scope) rows = fail_idempotency scope rows

unfoldable pub run : List Command → List IdempotencyRecord → List IdempotencyRecord
unfolding exec
run [] rows = rows
run (c ∷ commands) rows = run commands (exec c rows)

-- One record for each account, operation and key.
abbrev pub OnePer : List IdempotencyRecord → Type 0
OnePer rows = (scope : Scope) → length (select (is_scoped scope) rows) ≤ 1

-- The response to the request with a hash is stored.
abbrev pub IsStored : Scope → String → ℕ → String → List IdempotencyRecord → Type 0
IsStored scope hash status body rows =
    (row : IdempotencyRecord) × (find_first (is_scoped scope) rows ≡ some row)
    × (row.status ≡ "completed")
    × (row.request_hash ≡ hash)
    × (row.response_status ≡ some status)
    × (row.response_body ≡ body)

-- Two scopes that one record is in.
scoped-agree :
    (s t : Scope) (row x : IdempotencyRecord)
    → is_scoped s row ≡ true
    → is_scoped t row ≡ true
    → is_scoped s x ≡ is_scoped t x
unfolding is_scoped
scoped-agree s t row x hs ht = ground (
  arith,
  eq_iff row.account_id s.account_id,
  eq_iff row.account_id t.account_id,
  eq_iff row.operation s.operation,
  eq_iff row.operation t.operation,
  eq_iff row.idempotency_key s.key,
  eq_iff row.idempotency_key t.key,
)

find-agree :
    (p q : IdempotencyRecord → Bool) (rows : List IdempotencyRecord)
    → ((x : IdempotencyRecord) → p x ≡ q x)
    → find_first p rows ≡ find_first q rows
find-agree p q rows h = ap (λ (t : IdempotencyRecord → Bool). find_first t rows) (λ i x. h x i)

-- What one call makes of the records.
data Shape (rows : List IdempotencyRecord) : List IdempotencyRecord → Type 0 where
  unchanged : Shape rows rows
  added :
      (scope : Scope) (hash : String) (now : ℕ)
      → find_first (is_scoped scope) rows ≡ none
      → Shape rows (claimed_record scope hash now ∷ rows)
  changed :
      (p : IdempotencyRecord → Bool) (f : IdempotencyRecord → IdempotencyRecord)
      → ((scope : Scope) (x : IdempotencyRecord) → is_scoped scope (f x) ≡ is_scoped scope x)
      → ((scope : Scope) (row : IdempotencyRecord)
          → find_first (is_scoped scope) rows ≡ some row
          → p row ≡ true
          → row.status ≢ "completed")
      → Shape rows (update_where p f rows)

processing-open :
    (scope : Scope) (row : IdempotencyRecord)
    → is_processing scope row ≡ true
    → row.status ≢ "completed"
unfolding is_processing
processing-open scope row h e = ground (arith, ap (λ s. s == "processing") e)

complete-Shape :
    (scope : Scope) (status : ℕ) (body : String) (rows : List IdempotencyRecord)
    → Shape rows (committed (complete_idempotency scope status body rows) rows)
unfolding committed complete_idempotency completed_record is_scoped
complete-Shape scope status body rows =
    elim (Bool-cases (eqb (length (select (is_processing scope) rows)) 1)) [
      | inl q ↦
          rw (q, committed, complete_idempotency)
            (changed (is_processing scope) (completed_record status body) (λ s x. refl)
              (λ s row found. processing-open scope row))
      | inr q ↦ rw (q, committed, complete_idempotency) unchanged
    ]

-- The record that a claim takes over is not completed, under whatever scope it is found.
reclaim-open :
    (scope : Scope) (row : IdempotencyRecord) (rows : List IdempotencyRecord)
    → find_first (is_scoped scope) rows ≡ some row
    → (row.status == "completed") ≡ false
    → (s : Scope) (other : IdempotencyRecord) → find_first (is_scoped s) rows ≡ some other
    → is_scoped scope other ≡ true
    → other.status ≢ "completed"
reclaim-open scope row rows found not_done s other there hit e =
    let agree = λ (x : IdempotencyRecord).
      scoped-agree s scope other x (find_first-met (is_scoped s) rows other there) hit in
    let same : some other ≡ some row =
      sym there ∙ find-agree (is_scoped s) (is_scoped scope) rows agree ∙ found in
    ground (arith, same, eq_iff row.status "completed")

claim_existing-Shape :
    (scope : Scope) (hash : String) (now : ℕ) (row : IdempotencyRecord)
    (rows : List IdempotencyRecord)
    → find_first (is_scoped scope) rows ≡ some row
    → Shape rows (committed (claim_existing scope hash now row rows) rows)
unfolding committed claim_existing reclaimed_record is_scoped
claim_existing-Shape scope hash now row rows found = elim (Bool-cases (row.request_hash == hash)) [
  | inr q ↦ rw (q, committed, claim_existing) unchanged
  | inl q ↦ elim (Bool-cases (row.status == "completed")) [
    | inl c ↦ rw (q, c, committed, claim_existing) unchanged
    | inr c ↦
        elim (Bool-cases (row.status == "failed" || is_lapsed now row.processing_expires_at)) [
          | inl l ↦
              rw (q, c, l, committed, claim_existing)
                (changed (is_scoped scope) (reclaimed_record now) (λ s x. refl)
                  (reclaim-open scope row rows found c))
          | inr l ↦ rw (q, c, l, committed, claim_existing) unchanged
        ]
  ]
]

claim-Shape :
    (scope : Scope) (hash : String) (now : ℕ) (rows : List IdempotencyRecord)
    → Shape rows (committed (claim_idempotency scope hash now rows) rows)
unfolding committed claim_idempotency
claim-Shape scope hash now rows = elim (Option-cases (find_first (is_scoped scope) rows)) [
  | inl e ↦ rw (e, committed, claim_idempotency) (added scope hash now e)
  | inr (row, e) ↦
      rw (e, committed, claim_idempotency) (claim_existing-Shape scope hash now row rows e)
]

exec-Shape : (c : Command) (rows : List IdempotencyRecord) → Shape rows (exec c rows)
unfolding exec fail_idempotency failed_record is_scoped
exec-Shape (claim scope hash now) rows = claim-Shape scope hash now rows
exec-Shape (complete scope status body) rows = complete-Shape scope status body rows
exec-Shape (fail scope) rows =
    changed (is_processing scope) failed_record (λ s x. refl)
      (λ s row found. processing-open scope row)

pub own-record :
    (scope : Scope) (hash : String) (now : ℕ)
    → is_scoped scope (claimed_record scope hash now) ≡ true
unfolding is_scoped claimed_record
own-record scope hash now =
    ground (arith, eq_refl scope.account_id, eq_refl scope.operation, eq_refl scope.key)

Shape-OnePer : (rows rows' : List IdempotencyRecord) → Shape rows rows' → OnePer rows → OnePer rows'
Shape-OnePer rows rows' unchanged one s = one s
Shape-OnePer rows rows' (added scope hash now new) one s =
    let row = claimed_record scope hash now in
    elim (Bool-cases (is_scoped s row)) [
      | inr q ↦ rw q (one s)
      | inl q ↦
          let gone = select-none (is_scoped s) rows (
            find-agree (is_scoped s) (is_scoped scope) rows
              (λ x. scoped-agree s scope row x q (own-record scope hash now))
            ∙ new) in
          rw q (subst (λ n. suc n ≤ 1) (sym gone) (omega arith))
    ]
Shape-OnePer rows rows' (changed p f kept shut) one s =
    subst (λ n. n ≤ 1) (sym (select-update (is_scoped s) p f (kept s) rows)) (one s)

pub run-OnePer :
    (commands : List Command) (rows : List IdempotencyRecord)
    → OnePer rows
    → OnePer (run commands rows)
unfolding run
run-OnePer [] rows one = one
run-OnePer (c ∷ commands) rows one =
    run-OnePer commands (exec c rows) (Shape-OnePer rows (exec c rows) (exec-Shape c rows) one)

Shape-stored :
    (rows rows' : List IdempotencyRecord) (scope : Scope) (row : IdempotencyRecord)
    → Shape rows rows'
    → find_first (is_scoped scope) rows ≡ some row
    → row.status ≡ "completed"
    → find_first (is_scoped scope) rows' ≡ some row
unfolding find_first
Shape-stored rows rows' scope row unchanged found done = found
Shape-stored rows rows' scope row (added other hash now new) found done =
    let fresh = claimed_record other hash now in
    elim (Bool-cases (is_scoped scope fresh)) [
      | inr q ↦ else-eq _ _ q ∙ found
      | inl q ↦
          let gone =
            find-agree (is_scoped scope) (is_scoped other) rows
              (λ x. scoped-agree scope other fresh x q (own-record other hash now))
            ∙ new in
          absurd (ground (arith, sym gone ∙ found))
    ]
Shape-stored rows rows' scope row (changed p f kept shut) found done = elim (Bool-cases (p row)) [
  | inl q ↦ absurd (shut scope row found q done)
  | inr q ↦
      find_first-update (is_scoped scope) p f (kept scope) rows row found ∙ ap some (else-eq _ _ q)
]

-- A stored response stays, whatever is claimed, completed or given up.
pub run-IsStored :
    (commands : List Command) (rows : List IdempotencyRecord) (scope : Scope) (hash : String)
    (status : ℕ) (body : String)
    → IsStored scope hash status body rows
    → IsStored scope hash status body (run commands rows)
unfolding run
run-IsStored [] rows scope hash status body stored = stored
run-IsStored (c ∷ commands) rows scope hash status body (row, found, done, same, code, text) =
    run-IsStored commands (exec c rows) scope hash status body (
      row,
      Shape-stored rows (exec c rows) scope row (exec-Shape c rows) found done,
      done,
      same,
      code,
      text,
    )
