-- ===== src/Postgres/Outbound/Tokens.antt =====
-- internal/storepg/outbound.go: who may settle a leased event.
use payrouter.Prelude.{
  ℕ, Result, ok, err, String, ◌≤◌, Bool, true, none, some, List, [], ◌∷◌, ◌==◌, leb, eqb, ◌≡◌, ◌≢◌,
  refl, sym, ap, ◌∙◌, subst, inl, inr, if◌then◌else◌, arith, eq_iff, Bool-cases, then-eq,
}
use payrouter.Postgres.Rows.{find_first, update_where, has_token}
use payrouter.Postgres.Rows.Keys.{
  Keyed, find_first-update, first_due-found, find_first-at, select-one,
}
use payrouter.Postgres.Outbound.{
  OutboundError, claim_lost, OutboundEvent, get_outbound, is_due, before, leased_row,
  lease_due_outbound, is_claimed, is_held, resolved_row, update_one, complete_outbound,
}
use payrouter.Postgres.Outbound.Steps.{id_of, held-facts, resolved-identity}
use payrouter.Postgres.Outbound.Calls.{Command, run}
use payrouter.Postgres.Outbound.Lifecycle.{run-Keyed}
use payrouter.Postgres.Outbound.Leases.{
  id_key, lease-due, same-id, complete-lost, complete-held, leased-held, claimed-key,
  resolved-outcome, leased-Keyed, leased-here,
}

-- The worker that leased an event settles it.
abbrev pub Settled :
    OutboundEvent
    → String
    → Bool
    → Bool
    → Result OutboundError (Unit {0}) × List OutboundEvent
    → Type 0
Settled ev token done dead outcome =
    (row : OutboundEvent) × (outcome.0 ≡ ok tt)
    × (get_outbound ev.id outcome.1 ≡ some row)
    × (row.status ≡ (if done then "delivered" else if dead then "dead" else "failed"))
    × (row.attempts ≡ ev.attempts)
    × (row.claim_token ≡ none)

-- A row that was leased under a fresh token is not held under another one.
leased-unheld :
    (stale token : String) (now seconds : ℕ) (id : String) (rows : List OutboundEvent)
    → token ≢ stale
    → find_first (is_held id stale) (update_where (id_key id) (leased_row token now seconds) rows)
      ≡ none
unfolding find_first update_where is_held is_claimed has_token leased_row
leased-unheld stale token now seconds id [] fresh = refl
leased-unheld stale token now seconds id (x ∷ rows) fresh =
    let rest = leased-unheld stale token now seconds id rows fresh in
    elim (Bool-cases (x.id == id)) [
      | inl e ↦ rw e (ground (arith, eq_iff token stale, rest))
      | inr e ↦ rw e (ground (arith, rest))
    ]

-- A worker that lost its lease cannot settle the event: after a lease under a fresh token, completing
-- the leased event under any other token fails as lost and changes nothing.
pub complete_outbound-stale :
    (seconds : ℕ) (token stale : String) (done : Bool) (error : String)
    (next max_attempts now later : ℕ) (rows rows' : List OutboundEvent) (ev : OutboundEvent)
    → lease_due_outbound seconds token now rows ≡ (ok (some ev), rows')
    → token ≢ stale
    → 1 ≤ max_attempts
    → complete_outbound ev.id stale done error next max_attempts later rows'
      ≡ (err claim_lost, rows')
complete_outbound-stale seconds token stale done error next max_attempts now later rows rows' ev h
      fresh positive =
    let (due, at, leased, left) = lease-due seconds token now rows rows' ev h in
    let unheld =
      ap (λ rs. find_first (is_held ev.id stale) rs) left
      ∙ ap
          (λ id.
            find_first (is_held id stale)
              (update_where (id_key due.id) (leased_row token now seconds) rows))
          (sym (same-id token now seconds due ev leased))
      ∙ leased-unheld stale token now seconds due.id rows fresh in
    complete-lost ev.id stale done error next max_attempts later rows' (ground arith) unheld

-- Completing an event that stands in a keyed table under the token that it holds.
settle-held :
    (token : String) (done : Bool) (error : String) (next max_attempts now : ℕ)
    (rows : List OutboundEvent) (ev : OutboundEvent)
    → Keyed id_of rows
    → get_outbound ev.id rows ≡ some ev
    → (is_claimed ev.id token ev ≡ true) × (is_held ev.id token ev ≡ true)
    → 1 ≤ max_attempts
    → Settled ev token done
        (leb max_attempts ev.attempts)
        (complete_outbound ev.id token done error next max_attempts now rows)
unfolding get_outbound update_one
settle-held token done error next max_attempts now rows ev keyed here (claimed, held) positive =
    let dead = leb max_attempts ev.attempts in
    let f = resolved_row done dead error next now in
    let found =
      find_first-at id_of (is_held ev.id token) rows ev keyed
        (λ x met. (held-facts ev.id token x met).0) here held in
    let one =
      select-one id_of (is_claimed ev.id token) rows ev keyed (claimed-key ev.id token) here
        claimed in
    let there =
      find_first-update id_of (is_claimed ev.id token) f ev.id rows ev
        (λ x.
          ap (λ (i : String × String × String × String × String × ℕ). i.0)
            (resolved-identity done dead error next now x))
        here in
    let (status, attempts, free) = resolved-outcome done dead error next now ev in
    rw (complete-held ev.id token done error next max_attempts now rows ev (ground arith) found) (
      f ev,
      ap (λ n. if eqb n 1 then ok tt else err claim_lost) one,
      there ∙ ap some (then-eq _ _ claimed),
      status,
      attempts,
      free,
    )

-- The worker that leased an event settles it: completing it under the token of the lease succeeds and
-- leaves it delivered if the merchant took it, dead if it did not and the attempts reached their
-- maximum, and else failed, which is to be tried again; the count of attempts stays and the token goes.
pub complete_outbound-settles :
    (earlier : List Command) (seconds : ℕ) (token : String) (done : Bool) (error : String)
    (next max_attempts now later : ℕ) (rows' : List OutboundEvent) (ev : OutboundEvent)
    → lease_due_outbound seconds token now (run earlier []) ≡ (ok (some ev), rows')
    → 1 ≤ max_attempts
    → Settled ev token done
        (leb max_attempts ev.attempts)
        (complete_outbound ev.id token done error next max_attempts later rows')
complete_outbound-settles earlier seconds token done error next max_attempts now later rows' ev h
      positive =
    let rows = run earlier [] in
    let keyed = run-Keyed earlier [] tt in
    let (due, at, leased, left) = lease-due seconds token now rows rows' ev h in
    let (found, is) = first_due-found id_of before (is_due now) rows due keyed at in
    settle-held token done error next max_attempts later rows' ev
      (subst (Keyed id_of) (sym left) (leased-Keyed token now seconds due.id rows keyed))
      (leased-here token now seconds due ev rows rows' found leased left)
      (leased-held token now seconds due ev leased) positive
