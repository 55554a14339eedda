-- ===== src/Postgres/Inbound/Claims.antt =====
-- internal/storepg/inbound.go: who owns a notification.
use payrouter.Prelude.{
  ℕ, ◌+◌, ◌≤◌, String, Bool, true, false, ◌||◌, Option, none, some, List, [], ◌∷◌, ok, err, ◌≡◌,
  ◌≢◌, refl, sym, ap, ◌∙◌, inl, inr, eqb, ltb, eq_iff, eq_refl, if◌then◌else◌, arith, Bool-cases,
  Option-cases, then-eq, else-eq,
}
use payrouter.Postgres.Rows.{find_first, update_where, has_token}
use payrouter.Postgres.Inbound.{
  InboundEvent, Inbox, claim_lost, is_duplicate, claimed_row, claim_inbound, is_held,
  complete_inbound, leased_row, lease_row, reclaim_stuck_inbound,
}

-- A row that was leased under a fresh token is not held under another one.
leased-not_held :
    (stale token : String) (now lease id : ℕ) (row : InboundEvent)
    → token ≢ stale
    → is_held id stale (if eqb row.id id then leased_row token now lease row else row) ≡ false
unfolding is_held has_token leased_row
leased-not_held stale token now lease id row n = elim (Bool-cases (eqb row.id id)) [
  | inl e ↦ rw e (ground (arith, eq_iff token stale))
  | inr e ↦ rw e (ground arith)
]

none_held :
    (stale token : String) (now lease id : ℕ) (rows : List InboundEvent)
    → token ≢ stale
    → find_first
        (is_held id stale)
        (update_where (λ row. eqb row.id id) (leased_row token now lease) rows)
      ≡ none
unfolding find_first update_where
none_held stale token now lease id [] n = refl
none_held stale token now lease id (row ∷ rows) n =
    else-eq _ _ (leased-not_held stale token now lease id row n)
    ∙ none_held stale token now lease id rows n

own-duplicate :
    (token : String) (now id : ℕ) (ev : InboundEvent)
    → is_duplicate ev (claimed_row token now id ev) ≡ true
unfolding is_duplicate claimed_row
own-duplicate token now id ev = ground (
  arith,
  eq_refl ev.gateway,
  eq_refl ev.event_hash,
  eq_refl ev.event_type,
  eq_refl ev.reference,
  eq_refl ev.provider_event_id,
)

known-unowned :
    (token : String) (now : ℕ) (ev row : InboundEvent) (t : Inbox)
    → find_first (is_duplicate ev) t.rows ≡ some row
    → claim_inbound token now ev t ≡ ((row, false), t)
unfolding claim_inbound
known-unowned token now ev row t h = rw (h, claim_inbound) refl

new-owned :
    (token : String) (now : ℕ) (ev : InboundEvent) (t : Inbox)
    → find_first (is_duplicate ev) t.rows ≡ none
    → claim_inbound token now ev t ≡ (
      (claimed_row token now t.next_id ev, true),
      record { rows = claimed_row token now t.next_id ev ∷ t.rows; next_id = t.next_id + 1 },
    )
unfolding claim_inbound
new-owned token now ev t h = rw (h, claim_inbound) refl

-- The same notification, claimed again, is somebody else's.
abbrev pub KnownAfter : Inbox → String → ℕ → String → ℕ → InboundEvent → Type 0
KnownAfter t token now again later ev =
    let t' = (claim_inbound token now ev t).1 in
    (row : InboundEvent) × (claim_inbound again later ev t' ≡ ((row, false), t'))

-- A notification that was claimed, new or known, is known from then on: whoever claims it again, under
-- any token and at any time, does not own it and changes nothing.
pub claim_inbound-again :
    (t : Inbox) (token again : String) (now later : ℕ) (ev : InboundEvent)
    → KnownAfter t token now again later ev
unfolding find_first
claim_inbound-again t token again now later ev =
    elim (Option-cases (find_first (is_duplicate ev) t.rows)) [
      | inr (row, h) ↦
          let k = known-unowned token now ev row t h in
          (row, rw k (known-unowned again later ev row t h))
      | inl h ↦
          let row = claimed_row token now t.next_id ev in
          let t' : Inbox = record { rows = row ∷ t.rows; next_id = t.next_id + 1 } in
          (
            row,
            rw (new-owned token now ev t h) (
                known-unowned again later ev row t'
                  (then-eq _ _ (own-duplicate token now t.next_id ev))),
          )
    ]

id-leased_row :
    (token : String) (now lease : ℕ) (row : InboundEvent)
    → (leased_row token now lease row).id ≡ row.id
unfolding leased_row
id-leased_row token now lease row = refl

-- The row that a lease gives back stands, under its id, for every row that it touched.
lease_row-due :
    (token : String) (lease now : ℕ) (o : Option InboundEvent) (t t' : Inbox) (ev : InboundEvent)
    → lease_row token now lease o t ≡ (ok (some ev), t')
    → (due : InboundEvent) × (ev.id ≡ due.id)
      × (t'.rows ≡ update_where (λ row. eqb row.id due.id) (leased_row token now lease) t.rows)
unfolding lease_row
lease_row-due token lease now none t t' ev h = absurd (ground arith)
lease_row-due token lease now (some due) t t' ev h =
    let same : leased_row token now lease due ≡ ev = ground (arith, ap (λ x. x.0) h) in
    (due, ap (λ x. x.id) (sym same) ∙ id-leased_row token now lease due, ap (λ x. x.1.rows) (sym h))

reclaim-due :
    (gateway token : String) (lease now : ℕ) (t t' : Inbox) (ev : InboundEvent)
    → reclaim_stuck_inbound gateway lease token now t ≡ (ok (some ev), t')
    → (due : InboundEvent) × (ev.id ≡ due.id)
      × (t'.rows ≡ update_where (λ row. eqb row.id due.id) (leased_row token now lease) t.rows)
unfolding reclaim_stuck_inbound
reclaim-due gateway token lease now t t' ev h = elim (Bool-cases (ltb lease 1 || ltb 3600 lease)) [
  | inl q ↦ absurd (ground (arith, ap (λ x. x.0) (sym (then-eq _ _ q) ∙ h)))
  | inr q ↦ lease_row-due token lease now _ t t' ev (sym (else-eq _ _ q) ∙ h)
]

-- A worker that lost its claim cannot finalize it: after a reclaim under a fresh token, completing the
-- reclaimed notification under any other token fails as lost and changes nothing.
pub complete_inbound-stale :
    (delay : ℕ → ℕ) (gateway token stale account last_error : String) (applied : Bool)
    (lease max_attempts now later : ℕ) (t t' : Inbox) (ev : InboundEvent)
    → reclaim_stuck_inbound gateway lease token now t ≡ (ok (some ev), t')
    → token ≢ stale
    → 1 ≤ max_attempts
    → complete_inbound delay ev.id stale account applied last_error max_attempts later t'
      ≡ (err claim_lost, t')
unfolding complete_inbound
complete_inbound-stale delay gateway token stale account last_error applied lease max_attempts now
      later t t' ev h n le =
    let (due, i, r) = reclaim-due gateway token lease now t t' ev h in
    let free =
      ap (λ rows. find_first (is_held ev.id stale) rows) r
      ∙ ap
          (λ id.
            find_first (is_held id stale)
              (update_where (λ row. eqb row.id due.id) (leased_row token now lease) t.rows))
          i
      ∙ none_held stale token now lease due.id t.rows n in
    rw (free, complete_inbound) (else-eq {b = ltb max_attempts 1} _ _ (ground arith))
