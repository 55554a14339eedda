-- ===== src/Postgres/Refunds/Bounds.antt =====
-- internal/storepg/store.go: the refunds of an intent and the amount that was paid.
use payrouter.Prelude.{
  ℕ, ◌+◌, ◌-◌, ◌≤◌, String, Option, none, some, [], ◌∷◌, Dict, lookup, insert, ok, err, eqb, ltb,
  leb, ◌==◌, eq_iff, if◌then◌else◌, ◌≡◌, refl, ap, sym, ◌∙◌, ◌⊎◌, inl, inr, arith, Bool-cases,
  then-eq, else-eq, subst, ◌||◌,
}
use payrouter.Store.Types.{PaymentIntent, Refund}
use payrouter.Postgres.Refunds.{
  Tables, refund_exceeds_payment, pending, succeeded, own_intent, own_refund, read_refund, upserted,
  write_refund, counted, reserved, resume, reserve_new, reserve_refund,
}

-- No intent has more reserved than was paid.
pub record IsWithin (t : Tables) : Type 0 where
  pub bound :
      (id : String) (pi : PaymentIntent)
      → lookup id t.intents ≡ some pi
      → reserved pi.account_id id t.refunds ≤ pi.amount_minor

reserved-insert_new :
    (account pi id : String) (r : Refund) (m : Dict Refund)
    → lookup id m ≡ none
    → reserved account pi (insert id r m) ≡ reserved account pi m + counted account pi r
unfolding reserved insert lookup
reserved-insert_new account pi id r [] h = omega arith
reserved-insert_new account pi id r ((j, x) ∷ m) h =
    ground (arith, reserved-insert_new account pi id r m)

pub reserved-insert :
    (account pi id : String) (r old : Refund) (m : Dict Refund)
    → lookup id m ≡ some old
    → reserved account pi (insert id r m) + counted account pi old
      ≡ reserved account pi m + counted account pi r
unfolding reserved insert lookup
reserved-insert account pi id r old [] h = ground arith
reserved-insert account pi id r old ((j, x) ∷ m) h =
    ground (arith, reserved-insert account pi id r old m)

-- A row adds its amount to its own intent at most.
counted-le : (account pi : String) (r : Refund) → counted account pi r ≤ r.amount
unfolding counted
counted-le account pi r = ground arith

counted-other :
    (account pi : String) (r : Refund)
    → ((r.account_id ≡ account) × (r.payment_intent_id ≡ pi)) ⊎ (counted account pi r ≡ 0)
unfolding counted
counted-other account pi r = elim (Bool-cases (r.account_id == account)) [
  | inr e ↦ inr (ground arith)
  | inl e ↦ elim (Bool-cases (r.payment_intent_id == pi)) [
    | inr f ↦ inr (ground arith)
    | inl f ↦ inl ((eq_iff r.account_id account).0 e, (eq_iff r.payment_intent_id pi).0 f)
  ]
]

own_intent-cases :
    (account : String) (o : Option PaymentIntent)
    → (own_intent account o ≡ none)
      ⊎ ((pi : PaymentIntent) × (o ≡ some pi) × (own_intent account o ≡ some pi))
unfolding own_intent
own_intent-cases account none = inl refl
own_intent-cases account (some pi) = elim (Bool-cases (pi.account_id == account)) [
  | inl e ↦ inr (pi, refl, then-eq _ _ e)
  | inr e ↦ inl (else-eq _ _ e)
]

module _ (t : Tables) (h : IsWithin t) where
  -- A new row whose amount remains is within what was paid.
  fresh-IsWithin :
      (r : Refund) (pi : PaymentIntent)
      → lookup r.id t.refunds ≡ none
      → lookup r.payment_intent_id t.intents ≡ some pi
      → reserved r.account_id r.payment_intent_id t.refunds + r.amount ≤ pi.amount_minor
      → IsWithin (write_refund r t)
  unfolding write_refund upserted
  fresh-IsWithin r pi n p le = record {
    bound = λ id q e. elim (counted-other q.account_id id r) [
      | inr z ↦
          rw (n, write_refund)
            (ground (arith, reserved-insert_new q.account_id id r.id r t.refunds, h.bound id q))
      | inl (a, b) ↦
          rw (n, write_refund)
            (ground (
              arith,
              counted-le q.account_id id r,
              reserved-insert_new q.account_id id r.id r t.refunds,
            ))
    ];
  }

  -- A row that counts no more than before keeps the sums.
  pub written-IsWithin :
      (r old : Refund)
      → lookup r.id t.refunds ≡ some old
      → ((account pi : String)
          → counted account pi (upserted r (some old)) ≤ counted account pi old)
      → IsWithin (write_refund r t)
  unfolding write_refund
  written-IsWithin r old p le = record {
    bound = λ id q e.
        rw (p, write_refund)
          (ground (
            arith,
            reserved-insert q.account_id id r.id (upserted r (some old)) old t.refunds,
            h.bound id q,
            le q.account_id id,
          ));
  }

  -- A grant of a new reservation.
  Granted : Refund → Tables → Type 0
  Granted done t' = (done.status ≡ pending) × (1 ≤ done.amount) × IsWithin t'

  reserve_new-Granted :
      (rf done : Refund) (t' : Tables) (pi : PaymentIntent) (amount : ℕ)
      → lookup rf.id t.refunds ≡ none
      → lookup rf.payment_intent_id t.intents ≡ some pi
      → reserve_new rf amount
          (pi.amount_minor - reserved rf.account_id rf.payment_intent_id t.refunds)
          t
        ≡ (ok done, t')
      → Granted done t'
  unfolding reserve_new Granted
  reserve_new-Granted rf done t' pi amount n p e =
      let remaining = pi.amount_minor - reserved rf.account_id rf.payment_intent_id t.refunds in
      let fresh = record rf { amount = amount; status = pending } in
      elim (Bool-cases (leb amount 0 || ltb remaining amount)) [
        | inl q ↦
            let r : (err refund_exceeds_payment, t) ≡ (ok done, t') = sym (then-eq _ _ q) ∙ e in
            absurd (ground (arith, ap (λ x. x.0) r))
        | inr q ↦
            let r : (ok fresh, write_refund fresh t) ≡ (ok done, t') = sym (else-eq _ _ q) ∙ e in
            let f : fresh ≡ done = ground (arith, ap (λ x. x.0) r) in
            let w = fresh-IsWithin fresh pi n p (ground arith) in
            (
              ap (λ x. x.status) (sym f),
              subst (λ x. 1 ≤ x.amount) f (ground arith),
              subst IsWithin (ap (λ x. x.1) r) w,
            )
      ]

reserve_refund-new :
    (t : Tables) (rf : Refund) (pi : PaymentIntent)
    → lookup rf.id t.refunds ≡ none
    → own_intent rf.account_id (lookup rf.payment_intent_id t.intents) ≡ some pi
    → reserve_refund rf t ≡ (
        let remaining = pi.amount_minor - reserved rf.account_id rf.payment_intent_id t.refunds in
        reserve_new rf (if eqb rf.amount 0 then remaining else rf.amount) remaining t)
unfolding reserve_refund read_refund own_refund
reserve_refund-new t rf pi n q =
    let r : read_refund rf.account_id rf.id t ≡ none = ground arith in
    rw (q, reserve_refund) (rw (r, reserve_refund) refl)

pub reserve_refund-resumed :
    (t : Tables) (rf old : Refund) (pi : PaymentIntent)
    → lookup rf.id t.refunds ≡ some old
    → old.account_id ≡ rf.account_id
    → own_intent rf.account_id (lookup rf.payment_intent_id t.intents) ≡ some pi
    → reserve_refund rf t ≡ resume rf old t
unfolding reserve_refund read_refund own_refund
reserve_refund-resumed t rf old pi n a q =
    let r : read_refund rf.account_id rf.id t ≡ some old =
      ground (arith, eq_iff old.account_id rf.account_id) in
    rw (q, reserve_refund) (rw (r, reserve_refund) refl)

-- A reservation under a new id, of any amount for any intent, that is granted is pending and for
-- a positive amount, and leaves the pending and succeeded refunds of every intent within what was
-- paid where they were so before.
pub reserve_refund-IsWithin :
    (t t' : Tables) (rf done : Refund)
    → IsWithin t
    → lookup rf.id t.refunds ≡ none
    → reserve_refund rf t ≡ (ok done, t')
    → (done.status ≡ pending) × (1 ≤ done.amount) × IsWithin t'
unfolding reserve_refund read_refund Granted own_refund
reserve_refund-IsWithin t t' rf done h n e =
    elim (own_intent-cases rf.account_id (lookup rf.payment_intent_id t.intents)) [
      | inl q ↦ absurd (ground arith)
      | inr (pi, p, q) ↦
          reserve_new-Granted t h rf done t' pi
            (if eqb rf.amount 0
              then pi.amount_minor - reserved rf.account_id rf.payment_intent_id t.refunds
              else rf.amount)
            n p (sym (reserve_refund-new t rf pi n q) ∙ e)
    ]

-- A reserved row counts all that any write over it can count.
pub counted-open :
    (account pi : String) (rf old : Refund)
    → (old.status ≡ pending) ⊎ (old.status ≡ succeeded)
    → counted account pi (upserted rf (some old)) ≤ counted account pi old
unfolding counted upserted
counted-open account pi rf old (inl p) = ground (arith, eq_iff old.status pending)
counted-open account pi rf old (inr p) = ground (arith, eq_iff old.status succeeded)

-- The provider's answer to a refund whose reservation is pending, whatever it is, keeps the refunds
-- of every intent within what was paid.
pub write_refund-IsWithin :
    (t : Tables) (rf old : Refund)
    → IsWithin t
    → lookup rf.id t.refunds ≡ some old
    → old.status ≡ pending
    → IsWithin (write_refund rf t)
unfolding counted upserted
write_refund-IsWithin t rf old h e p =
    written-IsWithin t h rf old e (λ account pi. ground (arith, eq_iff old.status pending))
