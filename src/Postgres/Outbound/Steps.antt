-- ===== src/Postgres/Outbound/Steps.antt =====
-- internal/storepg/outbound.go: the lifecycle of an event, and the step that each UPDATE makes.
use payrouter.Prelude.{
  ℕ, String, Bool, true, false, ◌==◌, ◌≡◌, refl, sym, subst, inl, inr, arith, eq_iff, Bool-cases,
}
use payrouter.Postgres.Outbound.{
  OutboundEvent, is_due, leased_row, is_claimed, is_held, delivered_row, failed_row, resolved_row,
  is_replayable, replayed_row,
}

-- The kinds of calls on the outbox.
pub data Call : Type 0 where
  enqueuing leasing completing replaying : Call

-- The lifecycle of an event: the moves that each kind of call may make.
pub data Step : Call → String → String → Type 0 where
  taken : Step leasing "pending" "in_flight"
  retaken : Step leasing "failed" "in_flight"
  recovered : Step leasing "in_flight" "in_flight"
  acknowledged : Step completing "in_flight" "delivered"
  requeued : Step completing "in_flight" "failed"
  buried : Step completing "in_flight" "dead"
  replayed : Step replaying "delivered" "pending"
  retried : Step replaying "failed" "pending"

-- The columns that the trigger facade_outbound_immutable_fields guards.
abbrev pub identity : OutboundEvent → String × String × String × String × String × ℕ
identity row = (row.id, row.type, row.reference, row.account_id, row.payload, row.created)

abbrev pub id_of : OutboundEvent → String
id_of row = row.id

pub lease-Step :
    (token : String) (now seconds : ℕ) (row : OutboundEvent)
    → is_due now row ≡ true
    → Step leasing row.status (leased_row token now seconds row).status
unfolding is_due leased_row
lease-Step token now seconds row due = elim (Bool-cases (row.status == "pending")) [
  | inl e ↦ subst (λ s. Step leasing s "in_flight") (sym ((eq_iff row.status "pending").0 e)) taken
  | inr n ↦ elim (Bool-cases (row.status == "failed")) [
    | inl e ↦
        subst (λ s. Step leasing s "in_flight") (sym ((eq_iff row.status "failed").0 e)) retaken
    | inr m ↦
        subst (λ s. Step leasing s "in_flight")
          (sym ((eq_iff row.status "in_flight").0 (ground arith))) recovered
  ]
]

pub resolved-Step :
    (done dead : Bool) (error : String) (next now : ℕ) (row : OutboundEvent)
    → row.status ≡ "in_flight"
    → Step completing row.status (resolved_row done dead error next now row).status
unfolding resolved_row delivered_row failed_row
resolved-Step true dead error next now row e =
    subst (λ s. Step completing s "delivered") (sym e) acknowledged
resolved-Step false true error next now row e = subst (λ s. Step completing s "dead") (sym e) buried
resolved-Step false false error next now row e =
    subst (λ s. Step completing s "failed") (sym e) requeued

pub held-facts :
    (id token : String) (row : OutboundEvent)
    → is_held id token row ≡ true
    → (row.id ≡ id) × (row.status ≡ "in_flight")
unfolding is_held is_claimed
held-facts id token row h =
    (ground (arith, eq_iff row.id id), ground (arith, eq_iff row.status "in_flight"))

pub resolved-identity :
    (done dead : Bool) (error : String) (next now : ℕ) (row : OutboundEvent)
    → identity (resolved_row done dead error next now row) ≡ identity row
unfolding resolved_row delivered_row failed_row
resolved-identity true dead error next now row = refl
resolved-identity false dead error next now row = refl

pub replay-Step :
    (id : String) (now : ℕ) (row : OutboundEvent)
    → is_replayable id row ≡ true
    → Step replaying row.status (replayed_row now row).status
unfolding is_replayable replayed_row
replay-Step id now row e = elim (Bool-cases (row.status == "delivered")) [
  | inl d ↦
      subst (λ s. Step replaying s "pending") (sym ((eq_iff row.status "delivered").0 d)) replayed
  | inr n ↦
      subst (λ s. Step replaying s "pending") (sym ((eq_iff row.status "failed").0 (ground arith)))
        retried
]
