-- ===== src/Postgres/Outbound/Lifecycle.antt =====
-- internal/storepg/outbound.go: the life of one event of the outbox under any calls.
use payrouter.Prelude.{
  ℕ, err, String, true, false, ◌||◌, none, some, List, [], ◌∷◌, ◌==◌, ◌≡◌, ◌≢◌, ◌⊎◌, refl, sym, ap,
  ◌∙◌, inl, inr, arith, eq_iff, Bool-cases, Option-cases, then-eq, else-eq,
}
use payrouter.Postgres.Rows.{find_first}
use payrouter.Postgres.Rows.Updates.{select-none, update-none}
use payrouter.Postgres.Rows.Keys.{
  Keyed, find_first-update, Keyed-update, find_first-found, find_key_unique, key-found,
}
use payrouter.Postgres.Outbound.{
  not_found, OutboundEvent, get_outbound, enqueued_row, is_due, update_one, is_replayable,
  replayed_row, replay_outbound,
}
use payrouter.Postgres.Outbound.Steps.{Call, Step, identity, id_of}
use payrouter.Postgres.Outbound.Calls.{
  Command, call_of, exec, run, Shape, unchanged, inserted, updated, exec-Shape,
}

-- The row of an event after a call.
abbrev Moved : Call → String → OutboundEvent → List OutboundEvent → Type 0
Moved call id row rows =
    (row' : OutboundEvent) × (get_outbound id rows ≡ some row')
    × (identity row' ≡ identity row)
    × ((row' ≡ row) ⊎ Step call row.status row'.status)

identity-id : (a b : OutboundEvent) → identity a ≡ identity b → a.id ≡ b.id
identity-id a b e = ap (λ (i : String × String × String × String × String × ℕ). i.0) e

Shape-Moved :
    (call : Call) (rows rows' : List OutboundEvent) (id : String) (row : OutboundEvent)
    → Shape call rows rows'
    → get_outbound id rows ≡ some row
    → Moved call id row rows'
unfolding get_outbound find_first enqueued_row
Shape-Moved call rows rows' id row unchanged found = (row, found, refl, inl refl)
Shape-Moved call rows rows' id row (inserted now ev new) found = elim (Bool-cases (ev.id == id)) [
  | inl q ↦
      absurd
        (ground (arith, sym new ∙ ap (λ i. get_outbound i rows) ((eq_iff ev.id id).0 q) ∙ found))
  | inr q ↦ (row, else-eq _ _ q ∙ found, refl, inl refl)
]
Shape-Moved call rows rows' id row (updated p f same step) found =
    let there = find_first-update id_of p f id rows row (λ x. identity-id (f x) x (same x)) found in
    elim (Bool-cases (p row)) [
      | inl e ↦ (f row, there ∙ ap some (then-eq _ _ e), same row, inr (step id row found e))
      | inr e ↦ (row, there ∙ ap some (else-eq _ _ e), refl, inl refl)
    ]

Shape-Keyed :
    (call : Call) (rows rows' : List OutboundEvent)
    → Shape call rows rows'
    → Keyed id_of rows
    → Keyed id_of rows'
unfolding get_outbound enqueued_row
Shape-Keyed call rows rows' unchanged keyed = keyed
Shape-Keyed call rows rows' (inserted now ev new) keyed = (new, keyed)
Shape-Keyed call rows rows' (updated p f same step) keyed =
    Keyed-update id_of p f rows (λ x. identity-id (f x) x (same x)) keyed

pub run-Keyed :
    (commands : List Command) (rows : List OutboundEvent)
    → Keyed id_of rows
    → Keyed id_of (run commands rows)
unfolding run
run-Keyed [] rows keyed = keyed
run-Keyed (c ∷ commands) rows keyed =
    run-Keyed commands (exec c rows)
      (Shape-Keyed (call_of c) rows _ (exec-Shape c rows keyed) keyed)

-- An event along calls: after each of them its row is there under its id, with its identity, and is the
-- row of before or has made a move of the lifecycle that is one of the call's kind.
abbrev pub Survives : String → OutboundEvent → List Command → List OutboundEvent → Type 0
Survives id row [] rows = get_outbound id rows ≡ some row
Survives id row (c ∷ commands) rows =
    (next : OutboundEvent) × (get_outbound id (exec c rows) ≡ some next)
    × (identity next ≡ identity row)
    × ((next ≡ row) ⊎ Step (call_of c) row.status next.status)
    × Survives id next commands (exec c rows)

survive :
    (commands : List Command) (rows : List OutboundEvent) (id : String) (row : OutboundEvent)
    → Keyed id_of rows
    → get_outbound id rows ≡ some row
    → Survives id row commands rows
survive [] rows id row keyed found = found
survive (c ∷ commands) rows id row keyed found =
    let shape = exec-Shape c rows keyed in
    let (next, here, kept, step) = Shape-Moved (call_of c) rows (exec c rows) id row shape found in
    (
      next,
      here,
      kept,
      step,
      survive commands (exec c rows) id next (Shape-Keyed (call_of c) rows _ shape keyed) here,
    )

-- An event that was put into the outbox stays in it through any further calls, in any order and with
-- any arguments. After each single call its id, type, reference, account, payload and time of creation
-- are what they were, and either its row is unchanged or its status has made one step: a lease takes
-- "pending", "failed" or "in_flight" to "in_flight", a completion "in_flight" to "delivered", "failed" or
-- "dead", a replay "delivered" or "failed" to "pending", and an enqueue makes no step.
pub run-Survives :
    (earlier later : List Command) (id : String) (row : OutboundEvent)
    → get_outbound id (run earlier []) ≡ some row
    → Survives id row later (run earlier [])
run-Survives earlier later id row found =
    survive later (run earlier []) id row (run-Keyed earlier [] tt) found

Step-dead : (call : Call) (s t : String) → Step call s t → (s == "dead") ≡ false
Step-dead call s t Step.taken = refl
Step-dead call s t Step.retaken = refl
Step-dead call s t Step.recovered = refl
Step-dead call s t Step.acknowledged = refl
Step-dead call s t Step.requeued = refl
Step-dead call s t Step.buried = refl
Step-dead call s t Step.replayed = refl
Step-dead call s t Step.retried = refl

-- A dead event stays dead along any calls.
stays-dead :
    (commands : List Command) (rows : List OutboundEvent) (id : String) (row : OutboundEvent)
    → Survives id row commands rows
    → row.status ≡ "dead"
    → (last : OutboundEvent) × (get_outbound id (run commands rows) ≡ some last)
      × (last.status ≡ "dead")
unfolding run
stays-dead [] rows id row found dead = (row, found, dead)
stays-dead (c ∷ commands) rows id row (next, here, kept, inl same, rest) dead =
    stays-dead commands (exec c rows) id next rest (ap (λ x. x.status) same ∙ dead)
stays-dead (c ∷ commands) rows id row (next, here, kept, inr step, rest) dead =
    absurd (ground (arith, Step-dead _ _ _ step, (eq_iff row.status "dead").1 dead))

replayable-facts :
    (id : String) (row : OutboundEvent)
    → is_replayable id row ≡ true
    → (row.id ≡ id) × (row.status ≢ "dead")
unfolding is_replayable
replayable-facts id row h = (
  ground (arith, eq_iff row.id id),
  λ dead. ground (arith, ap (λ s. s == "delivered" || s == "failed") dead),
)

-- A row that an UPDATE would match, by the row of its id.
dead-unmatched :
    (id : String) (rows : List OutboundEvent) (row : OutboundEvent)
    → Keyed id_of rows
    → get_outbound id rows ≡ some row
    → row.status ≡ "dead"
    → find_first (is_replayable id) rows ≡ none
unfolding get_outbound is_replayable
dead-unmatched id rows row keyed found dead =
    elim (Option-cases (find_first (is_replayable id) rows)) [
      | inl e ↦ e
      | inr (other, e) ↦
          let (at_key, hit) = find_first-found id_of (is_replayable id) rows other keyed e in
          let (i, alive) = replayable-facts id other hit in
          let same =
            find_key_unique id_of id rows row other found at_key
              (key-found id_of id rows row found ∙ sym i) in
          absurd (alive (ap (λ x. x.status) (sym same) ∙ dead))
    ]

-- An event that no one sends again.
abbrev pub Buried : String → ℕ → List OutboundEvent → Type 0
Buried id now rows =
    (row : OutboundEvent) × (get_outbound id rows ≡ some row)
    × (row.status ≡ "dead")
    × (is_due now row ≡ false)
    × (replay_outbound id now rows ≡ (err not_found, rows))

dead-due : (now : ℕ) (row : OutboundEvent) → row.status ≡ "dead" → is_due now row ≡ false
unfolding is_due
dead-due now row e =
    ground
      (arith, ap (λ s. s == "pending") e, ap (λ s. s == "failed") e, ap (λ s. s == "in_flight") e)

replay-unmatched :
    (id : String) (now : ℕ) (rows : List OutboundEvent)
    → find_first (is_replayable id) rows ≡ none
    → replay_outbound id now rows ≡ (err not_found, rows)
unfolding replay_outbound update_one
replay-unmatched id now rows e =
    let none_touched = select-none (is_replayable id) rows e in
    let unchanged = update-none (is_replayable id) (replayed_row now) rows e in
    rw (none_touched, unchanged, replay_outbound) refl

-- A dead-lettered event is never sent again: after any further calls it is still dead, no worker leases
-- it, and a replay fails with not found and changes nothing.
pub run-Buried :
    (earlier later : List Command) (id : String) (now : ℕ) (row : OutboundEvent)
    → get_outbound id (run earlier []) ≡ some row
    → row.status ≡ "dead"
    → Buried id now (run later (run earlier []))
run-Buried earlier later id now row found dead =
    let (last, there, still) =
      stays-dead later (run earlier []) id row (run-Survives earlier later id row found) dead in
    let keyed = run-Keyed later (run earlier []) (run-Keyed earlier [] tt) in
    (
      last,
      there,
      still,
      dead-due now last still,
      replay-unmatched id now _ (dead-unmatched id _ last keyed there still),
    )
