-- ===== src/Postgres/Outbound/Calls.antt =====
-- internal/storepg/outbound.go: any sequence of calls on the outbox, and what one call can do.
use payrouter.Prelude.{
  ℕ, String, Bool, true, ◌||◌, Option, none, some, List, [], ◌∷◌, ◌==◌, ltb, ◌≡◌, refl, sym, ap,
  ◌∙◌, inl, inr, arith, eq_iff, Bool-cases, Option-cases,
}
use payrouter.Postgres.Rows.{find_first, update_where, first_due}
use payrouter.Postgres.Rows.Keys.{Keyed, first_due-found, find_first-found, find_key_unique}
use payrouter.Postgres.Outbound.{
  OutboundEvent, get_outbound, enqueued_row, enqueue_outbound, is_due, before, leased_row,
  lease_row, lease_due_outbound, is_claimed, is_held, resolved_row, update_one, complete_outbound,
  is_replayable, replayed_row, replay_outbound,
}
use payrouter.Postgres.Outbound.Steps.{
  Call, enqueuing, leasing, completing, replaying, Step, identity, id_of, lease-Step, resolved-Step,
  resolved-identity, held-facts, replay-Step,
}

-- A call of the store.
pub data Command : Type 0 where
  enqueue : ℕ → OutboundEvent → Command
  lease : ℕ → String → ℕ → Command
  complete : String → String → Bool → String → ℕ → ℕ → ℕ → Command
  replay : String → ℕ → Command

unfoldable pub call_of : Command → Call
call_of (enqueue now ev) = enqueuing
call_of (lease seconds token now) = leasing
call_of (complete id token delivered error next max_attempts now) = completing
call_of (replay id now) = replaying

unfoldable pub exec : Command → List OutboundEvent → List OutboundEvent
unfolding enqueue_outbound lease_due_outbound complete_outbound replay_outbound
exec (enqueue now ev) rows = enqueue_outbound now ev rows
exec (lease seconds token now) rows = (lease_due_outbound seconds token now rows).1
exec (complete id token delivered error next max_attempts now) rows =
    (complete_outbound id token delivered error next max_attempts now rows).1
exec (replay id now) rows = (replay_outbound id now rows).1

unfoldable pub run : List Command → List OutboundEvent → List OutboundEvent
unfolding exec
run [] rows = rows
run (c ∷ commands) rows = run commands (exec c rows)

-- What one call makes of the rows: nothing, an insertion under a new id, or an UPDATE that keeps the
-- identity of each row and takes a step of the lifecycle on each row that it matches.
pub data Shape (call : Call) (rows : List OutboundEvent) : List OutboundEvent → Type 0 where
  unchanged : Shape call rows rows
  inserted :
      (now : ℕ) (ev : OutboundEvent)
      → get_outbound ev.id rows ≡ none
      → Shape call rows (enqueued_row now ev ∷ rows)
  updated :
      (p : OutboundEvent → Bool) (f : OutboundEvent → OutboundEvent)
      → ((row : OutboundEvent) → identity (f row) ≡ identity row)
      → ((id : String) (row : OutboundEvent)
          → get_outbound id rows ≡ some row
          → p row ≡ true
          → Step call row.status (f row).status)
      → Shape call rows (update_where p f rows)

enqueue-Shape :
    (now : ℕ) (ev : OutboundEvent) (rows : List OutboundEvent)
    → Shape enqueuing rows (enqueue_outbound now ev rows)
unfolding enqueue_outbound
enqueue-Shape now ev rows = elim (Option-cases (get_outbound ev.id rows)) [
  | inr (old, e) ↦ rw (e, enqueue_outbound) unchanged
  | inl e ↦ rw (e, enqueue_outbound) (inserted now ev e)
]

lease_row-Shape :
    (token : String) (now seconds : ℕ) (rows : List OutboundEvent) (o : Option OutboundEvent)
    → Keyed id_of rows
    → first_due before (is_due now) rows ≡ o
    → Shape leasing rows (lease_row token now seconds o rows).1
unfolding lease_row get_outbound leased_row
lease_row-Shape token now seconds rows none keyed e = unchanged
lease_row-Shape token now seconds rows (some due) keyed e =
    let (at_key, is) = first_due-found id_of before (is_due now) rows due keyed e in
    updated (λ x. x.id == due.id) (leased_row token now seconds) (λ x. refl)
      (λ id row found hit.
        let i : row.id ≡ due.id = (eq_iff row.id due.id).0 hit in
        let same : row ≡ due = find_key_unique id_of id rows row due found at_key i in
        lease-Step token now seconds row (ap (is_due now) same ∙ is))

lease-Shape :
    (seconds : ℕ) (token : String) (now : ℕ) (rows : List OutboundEvent)
    → Keyed id_of rows
    → Shape leasing rows (lease_due_outbound seconds token now rows).1
unfolding lease_due_outbound
lease-Shape seconds token now rows keyed = elim (Bool-cases (ltb seconds 1 || ltb 3600 seconds)) [
  | inl q ↦ rw (q, lease_due_outbound) unchanged
  | inr q ↦ rw (q, lease_due_outbound) (lease_row-Shape token now seconds rows _ keyed refl)
]

resolve-Shape :
    (id token : String) (done dead : Bool) (error : String) (next now : ℕ)
    (rows : List OutboundEvent) (held : OutboundEvent)
    → Keyed id_of rows
    → find_first (is_held id token) rows ≡ some held
    → Shape completing rows
        (update_where (is_claimed id token) (resolved_row done dead error next now) rows)
unfolding get_outbound is_claimed
resolve-Shape id token done dead error next now rows held keyed e =
    let (at_key, h) = find_first-found id_of (is_held id token) rows held keyed e in
    let (i, in_flight) = held-facts id token held h in
    updated (is_claimed id token) (resolved_row done dead error next now)
      (resolved-identity done dead error next now)
      (λ wanted row found hit.
        let j : row.id ≡ id = ground (arith, eq_iff row.id id) in
        let same : row ≡ held =
          find_key_unique id_of wanted rows row held found at_key (j ∙ sym i) in
        resolved-Step done dead error next now row (ap (λ x. x.status) same ∙ in_flight))

complete-Shape :
    (id token : String) (done : Bool) (error : String) (next max_attempts now : ℕ)
    (rows : List OutboundEvent)
    → Keyed id_of rows
    → Shape completing rows (complete_outbound id token done error next max_attempts now rows).1
unfolding complete_outbound update_one
complete-Shape id token done error next max_attempts now rows keyed =
    elim (Bool-cases (ltb max_attempts 1)) [
      | inl q ↦ rw (q, complete_outbound) unchanged
      | inr q ↦ elim (Option-cases (find_first (is_held id token) rows)) [
        | inl e ↦ rw (q, e, complete_outbound) unchanged
        | inr (held, e) ↦
            rw (q, e, complete_outbound)
              (resolve-Shape id token done _ error next now rows held keyed e)
      ]
    ]

pub exec-Shape :
    (c : Command) (rows : List OutboundEvent)
    → Keyed id_of rows
    → Shape (call_of c) rows (exec c rows)
unfolding exec call_of replay_outbound update_one replayed_row
exec-Shape (enqueue now ev) rows keyed = enqueue-Shape now ev rows
exec-Shape (lease seconds token now) rows keyed = lease-Shape seconds token now rows keyed
exec-Shape (complete id token done error next max_attempts now) rows keyed =
    complete-Shape id token done error next max_attempts now rows keyed
exec-Shape (replay id now) rows keyed =
    updated (is_replayable id) (replayed_row now) (λ x. refl)
      (λ i row found. replay-Step id now row)
