-- ===== src/Webhook/Durable/Drain.antt =====
-- internal/webhook/deliverer.go over the Postgres outbox: that a drain ends.
use payrouter.Prelude.{
  ℕ, zero, suc, ◌+◌, ◌≤◌, ◌<◌, String, false, Option, none, some, List, [], length, select, Result,
  ok, is_empty, ◌≡◌, ap, ◌∙◌, inl, inr, arith, Option-cases,
}
use payrouter.Webhook.Deliverer.{Outside, Deliverer}
use payrouter.Webhook.Durable.{
  Session, or_empty, attempts_limit, attempt_durable, drain_durable, deliver_once_durable,
}
use payrouter.Webhook.Durable.Attempts.{left_of, after_lease, settled-fewer}
use payrouter.Postgres.Rows.{first_due}
use payrouter.Postgres.Rows.Keys.{Keyed}
use payrouter.Postgres.Rows.Totals.{total}
use payrouter.Postgres.Rows.Updates.{select-due}
use payrouter.Postgres.Outbound.{
  OutboundEvent, OutboundError, is_due, before, leased_row, lease_due_outbound, lease_row,
}
use payrouter.Postgres.Outbound.Steps.{id_of}
use payrouter.Postgres.Outbound.Calls.{Command, run}
use payrouter.Postgres.Outbound.Lifecycle.{run-Keyed}

-- How many events are due.
abbrev pub due_events : ℕ → List OutboundEvent → ℕ
due_events now rows = length (select (is_due now) rows)

abbrev LeaseOutcome : Type 0
LeaseOutcome = Result OutboundError (Option OutboundEvent) × List OutboundEvent

-- A lease of thirty seconds, by what is due.
leased_by :
    (token : String) (now : ℕ) (rows : List OutboundEvent) (o : Option OutboundEvent)
    → first_due before (is_due now) rows ≡ o
    → lease_due_outbound 30 token now rows
      ≡ (ok (lease_row token now 30 o rows).0, (lease_row token now 30 o rows).1)
unfolding lease_due_outbound
leased_by token now rows o e =
    ap (λ o. (ok (lease_row token now 30 o rows).0, (lease_row token now 30 o rows).1)) e

module _ (out : Outside) (dl : Deliverer) (session : Session) where
  drain-none :
      (fuel n : ℕ) (rows : List OutboundEvent)
      → first_due before (is_due (session.lease_time n)) rows ≡ none
      → drain_durable out dl session (suc fuel) n rows ≡ some (n, rows)
  unfolding drain_durable lease_row
  drain-none fuel n rows e =
      let lease = leased_by (session.token n) (session.lease_time n) rows none e in
      rw (lease, drain_durable) (ap (λ (x : LeaseOutcome). some (n, x.1)) lease)

  -- The rows after a lease and the attempt that follows it.
  after_attempt : ℕ → OutboundEvent → List OutboundEvent → List OutboundEvent
  after_attempt n due rows =
      attempt_durable out dl session n (leased_row (session.token n) (session.lease_time n) 30 due)
        (after_lease (session.token n) (session.lease_time n) due rows)

  drain-some :
      (fuel n : ℕ) (due : OutboundEvent) (rows : List OutboundEvent)
      → first_due before (is_due (session.lease_time n)) rows ≡ some due
      → drain_durable out dl session (suc fuel) n rows
        ≡ drain_durable out dl session fuel (n + 1) (after_attempt n due rows)
  unfolding drain_durable lease_row after_attempt
  drain-some fuel n due rows e =
      let lease = leased_by (session.token n) (session.lease_time n) rows (some due) e in
      let ev = leased_row (session.token n) (session.lease_time n) 30 due in
      rw (lease, drain_durable)
        (ap
          (λ (x : LeaseOutcome).
            drain_durable out dl session fuel (n + 1) (attempt_durable out dl session n ev x.1))
          lease)

  -- A round of the loop uses up an attempt.
  attempted-fewer :
      (n : ℕ) (due : OutboundEvent) (rows : List OutboundEvent)
      → 1 ≤ dl.max_attempts
      → Keyed id_of rows
      → first_due before (is_due (session.lease_time n)) rows ≡ some due
      → Keyed id_of (after_attempt n due rows)
        × (total (left_of dl) (after_attempt n due rows) < total (left_of dl) rows)
  unfolding after_attempt attempt_durable leased_row or_empty attempts_limit
  attempted-fewer n due rows positive keyed e =
      settled-fewer dl (session.token n) (session.lease_time n) _ _ _ (session.complete_time n) due
        rows positive keyed e

  -- With more fuel than there are attempts left the loop ends by its own test.
  drain-ends :
      (fuel n : ℕ) (rows : List OutboundEvent)
      → 1 ≤ dl.max_attempts
      → Keyed id_of rows
      → total (left_of dl) rows < fuel
      → (m : ℕ) × (rows' : List OutboundEvent) × (drain_durable out dl session fuel n rows
          ≡ some (m, rows'))
        × (m ≤ n + total (left_of dl) rows)
        × (due_events (session.lease_time m) rows' ≡ 0)
  drain-ends zero n rows positive keyed h = absurd (omega arith)
  drain-ends (suc fuel) n rows positive keyed h =
      elim (Option-cases (first_due before (is_due (session.lease_time n)) rows)) [
        | inl e ↦ (
          n,
          rows,
          drain-none fuel n rows e,
          omega arith,
          select-due before (is_due (session.lease_time n)) rows e,
        )
        | inr (due, e) ↦
            let (keyed', fewer) = attempted-fewer n due rows positive keyed e in
            let (m, rows', ran, most, idle) =
              drain-ends fuel (n + 1) (after_attempt n due rows) positive keyed'
                (omega (arith, fewer, h)) in
            (m, rows', drain-some fuel n due rows e ∙ ran, omega (arith, fewer, most), idle)
      ]

-- How a drain of the outbox is to end.
abbrev pub DurablyDrains : Outside → Deliverer → Session → ℕ → List OutboundEvent → Type 0
DurablyDrains out dl session fuel rows =
    (n : ℕ) × (rows' : List OutboundEvent) × (deliver_once_durable out dl session fuel rows
      ≡ some (n, rows'))
    × (n ≤ total (left_of dl) rows)
    × (due_events (session.lease_time n) rows' ≡ 0)

-- DeliverOnce over an outbox that any calls have led to and that nobody else calls meanwhile, with an
-- endpoint set and at least one attempt allowed, ends, whatever the merchant answers, however the clocks of the database and of the process run
-- and whatever the schedule of retries is: any fuel above the attempts that the events have left is
-- enough. It makes at most that many attempts, and at the time of its last query no event is due. An
-- event that is delivered or dead has no attempts left; another one has its limit less those that
-- were made, and one at least.
pub deliver_once_durable-DurablyDrains :
    (out : Outside) (dl : Deliverer) (session : Session) (fuel : ℕ) (earlier : List Command)
    → 1 ≤ dl.max_attempts
    → is_empty dl.url ≡ false
    → total (left_of dl) (run earlier []) < fuel
    → DurablyDrains out dl session fuel (run earlier [])
unfolding deliver_once_durable
deliver_once_durable-DurablyDrains out dl session fuel earlier positive url h =
    let (n, rows', ran, most, idle) =
      drain-ends out dl session fuel 0 (run earlier []) positive (run-Keyed earlier [] tt) h in
    (n, rows', rw (url, deliver_once_durable) ran, omega (arith, most), idle)
