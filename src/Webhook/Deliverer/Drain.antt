-- ===== src/Webhook/Deliverer/Drain.antt =====
-- internal/webhook/deliverer.go: the end of a drain.
use payrouter.Prelude.{
  ℕ, zero, suc, ◌+◌, ◌<◌, String, Bool, true, false, Option, none, some, [], ◌∷◌, Dict, lookup,
  insert, length, ◌≡◌, refl, sym, ap, ◌∙◌, arith, leb, is_empty, if◌then◌else◌, eq_iff, Bool-cases,
  inl, inr, lookup-insert_self, Distinct, eq_refl, subst,
}
use payrouter.Store.Types.{WebhookDelivery, Memory}
use payrouter.Store.Queue.{
  is_due, due_ids, mark_in_flight, resolve, lease_due_webhook, complete_webhook,
}
use payrouter.Store.Queue.Lease.{lease_least}
use payrouter.Store.Queue.Keys.{DeliveriesKeyed, complete_webhook-Keyed, marked-Keyed}
use payrouter.Webhook.Deliverer.{
  Outside, Deliverer, default_backoff, deliver_payload, attempt, drain, deliver_once,
}

-- How many deliveries are due.
abbrev pub due_count : ℕ → Memory → ℕ
due_count now m = length (due_ids now m.webhooks)

abbrev bit : Bool → ℕ
bit b = if b then 1 else 0

count-insert :
    (now : ℕ) (id : String) (d v : WebhookDelivery) (ws : Dict WebhookDelivery)
    → lookup id ws ≡ some d
    → length (due_ids now (insert id v ws)) + bit (is_due now d)
      ≡ length (due_ids now ws) + bit (is_due now v)
unfolding lookup insert due_ids
count-insert now id d v [] h = cc
count-insert now id d v ((j, w) ∷ ws) h = ground (arith, count-insert now id d v ws, eq_iff j id)

mark_in_flight-late : (now : ℕ) (d : WebhookDelivery) → is_due now (mark_in_flight d) ≡ false
unfolding is_due mark_in_flight
mark_in_flight-late now d = refl

-- After a failure the next attempt lies in the future, so a resolved delivery is not due again.
resolve-late :
    (now next max : ℕ) (done : Bool) (error : String) (d : WebhookDelivery)
    → now < next
    → is_due now (resolve done error next max d) ≡ false
unfolding is_due resolve
resolve-late now next max true error d h = refl
resolve-late now next max false error d h = elim (Bool-cases (leb max d.attempts)) [
  | inl e ↦ rw (e, resolve) refl
  | inr e ↦ rw (e, resolve) (ground arith)
]

-- The retry times of a schedule that never falls in the present.
abbrev pub IsLater : (ℕ → ℕ → ℕ) → Type 0
IsLater backoff = (attempts now : ℕ) → 0 < attempts → now < backoff attempts now

pub default_backoff-IsLater : IsLater default_backoff
unfolding default_backoff
default_backoff-IsLater zero now h = elim h [ ]
default_backoff-IsLater (suc zero) now h = omega arith
default_backoff-IsLater (suc (suc zero)) now h = omega arith
default_backoff-IsLater (suc (suc (suc zero))) now h = omega arith
default_backoff-IsLater (suc (suc (suc (suc zero)))) now h = omega arith
default_backoff-IsLater (suc (suc (suc (suc (suc n))))) now h =
    let last : leb 5 (suc (suc (suc (suc (suc n))))) ≡ true = ground arith in
    rw (last, default_backoff) (omega arith)

module _ (now : ℕ) (id : String) (d v : WebhookDelivery) (ws : Dict WebhookDelivery)
    (p : lookup id ws ≡ some d) where
  count-retire :
      is_due now d ≡ true
      → is_due now v ≡ false
      → suc (length (due_ids now (insert id v ws))) ≡ length (due_ids now ws)
  count-retire due late = ground (arith, count-insert now id d v ws p)

  count-keep :
      is_due now d ≡ false
      → is_due now v ≡ false
      → length (due_ids now (insert id v ws)) ≡ length (due_ids now ws)
  count-keep before after = ground (arith, count-insert now id d v ws p)

count-none :
    (now : ℕ) (ws : Dict WebhookDelivery)
    → Distinct ws
    → ((j : String) (w : WebhookDelivery) → lookup j ws ≡ some w → is_due now w ≡ false)
    → length (due_ids now ws) ≡ 0
unfolding due_ids lookup
count-none now [] h all = refl
count-none now ((k, d) ∷ ws) h all =
    ground (arith, all k d (ground (arith, eq_refl k)), count-none now ws h.1 rest)
  where
    rest : (j : String) (w : WebhookDelivery) → lookup j ws ≡ some w → is_due now w ≡ false
    rest j w p = all j w (ground (arith, eq_iff k j, h.0))

none_due-late :
    (now : ℕ) (ws : Dict WebhookDelivery) (id : String) (d : WebhookDelivery)
    → length (due_ids now ws) ≡ 0
    → lookup id ws ≡ some d
    → is_due now d ≡ false
unfolding due_ids lookup
none_due-late now [] id d h p = cc
none_due-late now ((j, w) ∷ ws) id d h p = ground (arith, none_due-late now ws id d)

module _ (out : Outside) (dl : Deliverer) (later : IsLater dl.backoff) (now : ℕ) where
  -- Completing a leased delivery leaves one delivery fewer due than before the lease.
  complete-due :
      (id : String) (d : WebhookDelivery) (done : Bool) (error : String) (next : ℕ) (m : Memory)
      → lookup id m.webhooks ≡ some d
      → is_due now d ≡ true
      → now < next
      → suc (
          due_count now (
            complete_webhook id done error next dl.max_attempts
              (record m { webhooks = insert id (mark_in_flight d) m.webhooks })))
        ≡ due_count now m
  unfolding complete_webhook
  complete-due id d done error next m p due h =
      let md = mark_in_flight d in
      let r = resolve done error next dl.max_attempts md in
      let ws = insert id md m.webhooks in
      let same = lookup-insert_self id md m.webhooks in
      rw (same, complete_webhook)
        (ap suc (
            count-keep now id md r ws same (mark_in_flight-late now d)
              (resolve-late now next _ done error md h))
          ∙ count-retire now id d md m.webhooks p due (mark_in_flight-late now d))

  -- What an iteration does with the answer of the lease.
  after_lease : ℕ → ℕ → Option WebhookDelivery × Memory → Option (ℕ × Memory)
  after_lease fuel n r = elim r.0 [
    | none ↦ some (n, r.1)
    | some dlv ↦ drain out dl fuel now (n + 1) (attempt out dl now n dlv r.1)
  ]

  drain-suc :
      (fuel n : ℕ) (m : Memory)
      → drain out dl (suc fuel) now n m ≡ after_lease fuel n (lease_due_webhook now m)
  unfolding drain after_lease
  drain-suc fuel n m = refl

  -- The store after one iteration on a delivery that the lease has taken.
  abbrev attempted : ℕ → String → WebhookDelivery → Memory → Memory
  attempted n id d m =
      attempt out dl now n (mark_in_flight d)
        (record m { webhooks = insert id (mark_in_flight d) m.webhooks })

  attempted-due :
      (n : ℕ) (id : String) (d : WebhookDelivery) (m : Memory)
      → lookup id m.webhooks ≡ some d
      → is_due now d ≡ true
      → DeliveriesKeyed m
      → (suc (due_count now (attempted n id d m)) ≡ due_count now m)
        × DeliveriesKeyed (attempted n id d m)
  unfolding attempt mark_in_flight
  attempted-due n id d m p due keyed =
      let result = deliver_payload out dl n d.payload in
      let next = dl.backoff (d.attempts + 1) now in
      (
        subst
            (λ k.
              suc (
                due_count now (
                  complete_webhook k result.0 result.1 next dl.max_attempts
                    (record m { webhooks = insert id (mark_in_flight d) m.webhooks })))
              ≡ due_count now m)
            (sym (keyed.keyed.own_id id d p))
            (complete-due id d result.0 result.1 next m p due
              (later (d.attempts + 1) now (omega arith))),
        complete_webhook-Keyed d.id result.0 result.1 next dl.max_attempts
            (record m { webhooks = insert id (mark_in_flight d) m.webhooks })
            (marked-Keyed id d m p keyed),
      )

  -- With more fuel than there are due deliveries the loop ends by its own test.
  drain-ends :
      (fuel n : ℕ) (m : Memory)
      → due_count now m < fuel
      → DeliveriesKeyed m
      → (m' : Memory) × (drain out dl fuel now n m ≡ some (n + due_count now m, m'))
        × (due_count now m' ≡ 0)
        × DeliveriesKeyed m'
  unfolding after_lease drain mark_in_flight
  drain-ends zero n m h keyed = absurd (omega arith)
  drain-ends (suc fuel) n m h keyed = elim (lease_least now m) [
    | inl (e, all) ↦
        let none_due = count-none now m.webhooks keyed.distinct all in
        (
          m,
          drain-suc fuel n m
              ∙ ap (after_lease fuel n) e
              ∙ ap (λ k. some (k, m)) (omega (arith, none_due)),
          none_due,
          keyed,
        )
    | inr (id, d, p, due, e, least) ↦
        let step = attempted-due n id d m p due keyed in
        let (m', ran, none_due, keyed') =
          drain-ends fuel (n + 1) (attempted n id d m) (omega (arith, step.0)) step.1 in
        (
          m',
          drain-suc fuel n m
              ∙ ap (after_lease fuel n) e
              ∙ ran
              ∙ ap (λ k. some (k, m')) (omega (arith, step.0)),
          none_due,
          keyed',
        )
  ]

-- How a drain is to end.
abbrev pub Drains : Outside → Deliverer → ℕ → ℕ → Memory → Type 0
Drains out dl fuel now m =
    (m' : Memory) × (deliver_once out dl fuel now m ≡ some (due_count now m, m'))
    × ((id : String) (d : WebhookDelivery) → lookup id m'.webhooks ≡ some d → is_due now d ≡ false)

-- DeliverOnce with an endpoint set, on a queue whose deliveries stand once under their own ids, with
-- a schedule that retries only in the future, ends with any fuel above the number of due deliveries.
-- It has then attempted as many deliveries as were due, and none is due any more.
pub deliver_once-Drains :
    (out : Outside) (dl : Deliverer) (fuel now : ℕ) (m : Memory)
    → IsLater dl.backoff
    → is_empty dl.url ≡ false
    → DeliveriesKeyed m
    → due_count now m < fuel
    → Drains out dl fuel now m
unfolding deliver_once
deliver_once-Drains out dl fuel now m later url keyed h =
    let (m', ran, none_due, keyed') = drain-ends out dl later now fuel 0 m h keyed in
    (
      m',
      rw (url, deliver_once) (ran ∙ ap (λ k. some (k, m')) (omega arith)),
      λ id d p. none_due-late now m'.webhooks id d none_due p,
    )
