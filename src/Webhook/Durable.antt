-- ===== src/Webhook/Durable.antt =====
-- internal/webhook/deliverer.go over the Postgres outbox: deliverOnceDurable. The loop runs on fuel;
-- fresh tokens and the clocks of the database and of the process are parameters.
pub mod Attempts
pub mod Drain
pub mod Examples
use payrouter.Prelude.{
  ℕ, zero, suc, ◌+◌, String, Bool, Option, none, some, List, ok, err, Result, eqb, is_empty,
  if◌then◌else◌,
}
use payrouter.Webhook.Deliverer.{Outside, Deliverer, deliver_payload}
use payrouter.Postgres.Outbound.{
  OutboundEvent, OutboundError, lease_due_outbound, complete_outbound,
}

-- The token of the n-th lease; the time of the database at the n-th lease and completion; the time of
-- the process after the n-th POST.
pub record Session : Type 0 where
  pub token : ℕ → String
  pub lease_time : ℕ → ℕ
  pub complete_time : ℕ → ℕ
  pub posted_time : ℕ → ℕ

unfoldable pub or_empty : Option String → String
or_empty none = ""
or_empty (some s) = s

unfoldable pub attempts_limit : Deliverer → OutboundEvent → ℕ
attempts_limit d ev = if eqb ev.max_attempts 0 then d.max_attempts else ev.max_attempts

module _ (out : Outside) (d : Deliverer) (session : Session) where
  -- The body of the loop: the event is posted and completed; an error of the completion is logged.
  unfoldable pub attempt_durable : ℕ → OutboundEvent → List OutboundEvent → List OutboundEvent
  unfolding or_empty attempts_limit
  attempt_durable n ev rows =
      let (done, error) = deliver_payload out d n ev.payload in
      let next = d.backoff ev.attempts (session.posted_time n) in
      (complete_outbound ev.id (or_empty ev.claim_token) done error next (attempts_limit d ev)
        (session.complete_time n) rows).1

  -- The loop; `none` means that the fuel ran out.
  unfoldable pub drain_durable : ℕ → ℕ → List OutboundEvent → Option (ℕ × List OutboundEvent)
  drain_durable zero n rows = none
  drain_durable (suc fuel) n rows =
      let (leased, rows') = lease_due_outbound 30 (session.token n) (session.lease_time n) rows in
      elim leased [
        | err e ↦ some (n, rows')
        | ok none ↦ some (n, rows')
        | ok (some ev) ↦ drain_durable fuel (n + 1) (attempt_durable n ev rows')
      ]

  -- DeliverOnce on a store with an outbox.
  unfoldable pub deliver_once_durable : ℕ → List OutboundEvent → Option (ℕ × List OutboundEvent)
  deliver_once_durable fuel rows =
      let rest = drain_durable fuel 0 rows in if is_empty d.url then some (0, rows) else rest
