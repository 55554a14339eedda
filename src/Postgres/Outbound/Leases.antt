-- ===== src/Postgres/Outbound/Leases.antt =====
-- internal/storepg/outbound.go: what a lease did, and the branches of a completion.
use payrouter.Prelude.{
  ℕ, Result, ok, err, String, eq_refl, Bool, true, false, ◌||◌, Option, none, some, List, ◌==◌, leb,
  ltb, ◌≡◌, refl, sym, ap, ◌∙◌, inl, inr, if◌then◌else◌, arith, eq_iff, Bool-cases, then-eq,
  else-eq,
}
use payrouter.Postgres.Rows.{find_first, update_where, first_due, has_token}
use payrouter.Postgres.Rows.Keys.{Keyed, find_key, find_first-update, Keyed-update}
use payrouter.Postgres.Outbound.{
  OutboundError, claim_lost, OutboundEvent, get_outbound, is_due, before, leased_row, lease_row,
  lease_due_outbound, is_claimed, is_held, delivered_row, failed_row, resolved_row, update_one,
  complete_outbound,
}
use payrouter.Postgres.Outbound.Steps.{id_of}

abbrev pub id_key : String → OutboundEvent → Bool
id_key id row = row.id == id

lease_row-due :
    (token : String) (now seconds : ℕ) (o : Option OutboundEvent) (rows rows' : List OutboundEvent)
    (ev : OutboundEvent)
    → (lease_row token now seconds o rows).0 ≡ some ev
    → (lease_row token now seconds o rows).1 ≡ rows'
    → (due : OutboundEvent) × (o ≡ some due)
      × (leased_row token now seconds due ≡ ev)
      × (rows' ≡ update_where (id_key due.id) (leased_row token now seconds) rows)
unfolding lease_row
lease_row-due token now seconds none rows rows' ev h r = absurd (ground arith)
lease_row-due token now seconds (some due) rows rows' ev h r = (due, refl, ground (arith, h), sym r)

abbrev LeaseOutcome : Type 0
LeaseOutcome = Result OutboundError (Option OutboundEvent) × List OutboundEvent

ok_inj :
    (a b : Option OutboundEvent)
    → ◌≡◌ {A = Result OutboundError (Option OutboundEvent)} (ok a) (ok b)
    → a ≡ b
ok_inj a b e = ground (arith, e)

-- What a lease that found an event did.
pub lease-due :
    (seconds : ℕ) (token : String) (now : ℕ) (rows rows' : List OutboundEvent) (ev : OutboundEvent)
    → lease_due_outbound seconds token now rows ≡ (ok (some ev), rows')
    → (due : OutboundEvent) × (first_due before (is_due now) rows ≡ some due)
      × (leased_row token now seconds due ≡ ev)
      × (rows' ≡ update_where (id_key due.id) (leased_row token now seconds) rows)
unfolding lease_due_outbound
lease-due seconds token now rows rows' ev h =
    elim (Bool-cases (ltb seconds 1 || ltb 3600 seconds)) [
      | inl q ↦ absurd (ground (arith, ap (λ (x : LeaseOutcome). x.0) (sym (then-eq _ _ q) ∙ h)))
      | inr q ↦
          let e = sym (else-eq _ _ q) ∙ h in
          lease_row-due token now seconds (first_due before (is_due now) rows) rows rows' ev
            (ok_inj _ _ (ap (λ (x : LeaseOutcome). x.0) e)) (ap (λ (x : LeaseOutcome). x.1) e)
    ]

pub same-id :
    (token : String) (now seconds : ℕ) (due ev : OutboundEvent)
    → leased_row token now seconds due ≡ ev
    → due.id ≡ ev.id
unfolding leased_row
same-id token now seconds due ev e = ap (λ x. x.id) e

-- What CompleteOutbound does without a row, and with one.
pub complete-lost :
    (id token : String) (done : Bool) (error : String) (next max_attempts now : ℕ)
    (rows : List OutboundEvent)
    → ltb max_attempts 1 ≡ false
    → find_first (is_held id token) rows ≡ none
    → complete_outbound id token done error next max_attempts now rows ≡ (err claim_lost, rows)
unfolding complete_outbound
complete-lost id token done error next max_attempts now rows q e =
    rw (e, complete_outbound) (else-eq {b = ltb max_attempts 1} _ _ q)

pub complete-held :
    (id token : String) (done : Bool) (error : String) (next max_attempts now : ℕ)
    (rows : List OutboundEvent) (row : OutboundEvent)
    → ltb max_attempts 1 ≡ false
    → find_first (is_held id token) rows ≡ some row
    → complete_outbound id token done error next max_attempts now rows
      ≡ update_one claim_lost
          (is_claimed id token)
          (resolved_row done (leb max_attempts row.attempts) error next now)
          rows
unfolding complete_outbound
complete-held id token done error next max_attempts now rows row q e =
    rw (e, complete_outbound) (else-eq {b = ltb max_attempts 1} _ _ q)

pub leased-held :
    (token : String) (now seconds : ℕ) (due ev : OutboundEvent)
    → leased_row token now seconds due ≡ ev
    → (is_claimed ev.id token ev ≡ true) × (is_held ev.id token ev ≡ true)
unfolding is_held is_claimed has_token leased_row
leased-held token now seconds due ev e =
    let claim : ev.claim_token ≡ some token = ap (λ x. x.claim_token) (sym e) in
    let status : (ev.status == "in_flight") ≡ true = ap (λ x. x.status == "in_flight") (sym e) in
    let own : has_token token ev.claim_token ≡ true = ap (has_token token) claim ∙ eq_refl token in
    (ground (arith, own, eq_refl ev.id), ground (arith, own, status, eq_refl ev.id))

pub claimed-key :
    (id token : String) (row : OutboundEvent) → is_claimed id token row ≡ true → row.id ≡ id
unfolding is_claimed
claimed-key id token row h = ground (arith, eq_iff row.id id)

pub resolved-outcome :
    (done dead : Bool) (error : String) (next now : ℕ) (row : OutboundEvent)
    → ((resolved_row done dead error next now row).status
        ≡ (if done then "delivered" else if dead then "dead" else "failed"))
      × ((resolved_row done dead error next now row).attempts ≡ row.attempts)
      × ((resolved_row done dead error next now row).claim_token ≡ none)
unfolding resolved_row delivered_row failed_row
resolved-outcome true dead error next now row = (refl, refl, refl)
resolved-outcome false true error next now row = (refl, refl, refl)
resolved-outcome false false error next now row = (refl, refl, refl)

pub leased-Keyed :
    (token : String) (now seconds : ℕ) (id : String) (rows : List OutboundEvent)
    → Keyed id_of rows
    → Keyed id_of (update_where (id_key id) (leased_row token now seconds) rows)
unfolding leased_row
leased-Keyed token now seconds id rows keyed =
    Keyed-update id_of (id_key id) (leased_row token now seconds) rows (λ x. refl) keyed

pub leased-here :
    (token : String) (now seconds : ℕ) (due ev : OutboundEvent) (rows rows' : List OutboundEvent)
    → find_key id_of due.id rows ≡ some due
    → leased_row token now seconds due ≡ ev
    → rows' ≡ update_where (id_key due.id) (leased_row token now seconds) rows
    → get_outbound ev.id rows' ≡ some ev
unfolding leased_row get_outbound
leased-here token now seconds due ev rows rows' found leased left =
    ap (λ rs. get_outbound ev.id rs) left
    ∙ ap (λ id. get_outbound id (update_where (id_key due.id) (leased_row token now seconds) rows))
        (sym (same-id token now seconds due ev leased))
    ∙ find_first-update id_of (id_key due.id) (leased_row token now seconds) due.id rows due
        (λ x. refl) found
    ∙ ap some (then-eq _ _ (eq_refl due.id))
    ∙ ap some leased
