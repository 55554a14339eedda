-- ===== src/Webhook/Durable/Attempts.antt =====
-- internal/webhook/deliverer.go over the Postgres outbox: the attempts that the events of the outbox have
-- left, and that one round of the loop uses one up.
use payrouter.Prelude.{
  ℕ, ◌+◌, ◌-◌, ◌≤◌, ◌<◌, String, Bool, true, false, ◌||◌, some, List, ◌==◌, leb, if◌then◌else◌, ◌≡◌,
  refl, sym, ap, subst, inl, inr, Bool-cases, arith, eq_iff, eq_refl,
}
use payrouter.Webhook.Deliverer.{Deliverer}
use payrouter.Webhook.Durable.{attempts_limit}
use payrouter.Postgres.Rows.{update_where, first_due}
use payrouter.Postgres.Rows.Keys.{Keyed, Keyed-update, first_due-found, find_first-at}
use payrouter.Postgres.Rows.Totals.{total, total-update}
use payrouter.Postgres.Outbound.{
  OutboundEvent, get_outbound, is_due, before, leased_row, is_claimed, is_held, delivered_row,
  failed_row, resolved_row, update_one, complete_outbound,
}
use payrouter.Postgres.Outbound.Steps.{id_of, held-facts, resolved-identity}
use payrouter.Postgres.Outbound.Leases.{
  id_key, complete-held, leased-held, claimed-key, leased-Keyed, leased-here,
}

-- A row that may become due at some time.
abbrev is_live : OutboundEvent → Bool
is_live row = row.status == "pending" || row.status == "failed" || row.status == "in_flight"

-- How often an event of a given limit may still be attempted: an event that waits is attempted at least
-- once, whatever its count.
abbrev pub attempts_left : ℕ → OutboundEvent → ℕ
attempts_left limit row =
    if is_live row then (if leb limit (row.attempts + 1) then 1 else limit - row.attempts) else 0

due-live : (now : ℕ) (row : OutboundEvent) → is_due now row ≡ true → is_live row ≡ true
unfolding is_due
due-live now row due = ground arith

resolved-left :
    (limit : ℕ) (token : String) (now : ℕ) (done : Bool) (error : String) (next later : ℕ)
    (row : OutboundEvent)
    → is_due now row ≡ true
    → attempts_left limit (
        resolved_row done
          (leb limit (row.attempts + 1))
          error
          next
          later
          (leased_row token now 30 row))
      < attempts_left limit row
unfolding resolved_row delivered_row failed_row leased_row
resolved-left limit token now true error next later row due = ground (arith, due-live now row due)
resolved-left limit token now false error next later row due =
    elim (Bool-cases (leb limit (row.attempts + 1))) [
      | inl q ↦ rw q (ground (arith, due-live now row due))
      | inr q ↦ rw q (ground (arith, due-live now row due, q))
    ]

identity-id :
    (done dead : Bool) (error : String) (next now : ℕ) (row : OutboundEvent)
    → (resolved_row done dead error next now row).id ≡ row.id
identity-id done dead error next now row =
    ap (λ (i : String × String × String × String × String × ℕ). i.0)
      (resolved-identity done dead error next now row)

-- The attempts that an event has left under a deliverer.
abbrev pub left_of : Deliverer → OutboundEvent → ℕ
left_of dl row = attempts_left (attempts_limit dl row) row

resolved-limit :
    (dl : Deliverer) (done dead : Bool) (error : String) (next now : ℕ) (row : OutboundEvent)
    → attempts_limit dl (resolved_row done dead error next now row) ≡ attempts_limit dl row
unfolding attempts_limit resolved_row delivered_row failed_row
resolved-limit dl true dead error next now row = refl
resolved-limit dl false dead error next now row = refl

limit-positive :
    (dl : Deliverer) (row : OutboundEvent) → 1 ≤ dl.max_attempts → 1 ≤ attempts_limit dl row
unfolding attempts_limit
limit-positive dl row positive = ground arith

-- The rows after the lease of an event.
abbrev pub after_lease : String → ℕ → OutboundEvent → List OutboundEvent → List OutboundEvent
after_lease token now due rows = update_where (id_key due.id) (leased_row token now 30) rows

two_updates :
    (a b c before leased after : ℕ)
    → b + before ≡ a + leased
    → c + leased ≡ b + after
    → after < before
    → c < a
two_updates a b c before leased after e f less = omega (arith, e, f, less)

-- Completing the leased event: the rows stay keyed, and fewer attempts are left.
pub settled-fewer :
    (dl : Deliverer) (token : String) (now : ℕ) (done : Bool) (error : String) (next later : ℕ)
    (due : OutboundEvent) (rows : List OutboundEvent)
    → 1 ≤ dl.max_attempts
    → Keyed id_of rows
    → first_due before (is_due now) rows ≡ some due
    → let rows' =
        (complete_outbound due.id token done error next
          (attempts_limit dl due)
          later
          (after_lease token now due rows)).1 in
      Keyed id_of rows' × (total (left_of dl) rows' < total (left_of dl) rows)
unfolding leased_row get_outbound update_one attempts_limit
settled-fewer dl token now done error next later due rows positive keyed at =
    let (found, is) = first_due-found id_of before (is_due now) rows due keyed at in
    let ev = leased_row token now 30 due in
    let rows1 = after_lease token now due rows in
    let dead = leb (attempts_limit dl due) (due.attempts + 1) in
    let f = resolved_row done dead error next later in
    let same : attempts_limit dl (f ev) ≡ attempts_limit dl due =
      resolved-limit dl done dead error next later ev in
    let keyed1 = leased-Keyed token now 30 due.id rows keyed in
    let here = leased-here token now 30 due ev rows rows1 found refl refl in
    let (claimed, held) = leased-held token now 30 due ev refl in
    let at_held =
      find_first-at id_of (is_held due.id token) rows1 ev keyed1
        (λ x met. (held-facts due.id token x met).0) here held in
    let ran =
      complete-held due.id token done error next (attempts_limit dl due) later rows1 ev
        (ground (arith, limit-positive dl due positive)) at_held in
    let leased =
      total-update id_of (left_of dl) (id_key due.id) (leased_row token now 30) rows due keyed
        (λ x hit. (eq_iff x.id due.id).0 hit) found (eq_refl due.id) in
    let settled =
      total-update id_of (left_of dl) (is_claimed due.id token) f rows1 ev keyed1
        (claimed-key due.id token) here claimed in
    let less = resolved-left (attempts_limit dl due) token now done error next later due is in
    let less' : left_of dl (f ev) < left_of dl due =
      subst (λ l. attempts_left l (f ev) < left_of dl due) (sym same) less in
    rw ran (
      Keyed-update id_of (is_claimed due.id token) f rows1 (identity-id done dead error next later)
          keyed1,
      two_updates (total (left_of dl) rows) (total (left_of dl) rows1) _ (left_of dl due)
          (left_of dl ev) (left_of dl (f ev)) leased settled less',
    )
