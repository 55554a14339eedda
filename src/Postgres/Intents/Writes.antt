-- ===== src/Postgres/Intents/Writes.antt =====
-- internal/storepg/store.go: what stands in the table of intents after a write.
use payrouter.Prelude.{
  ℕ, String, Option, none, some, inl, inr, ◌⊎◌, Dict, lookup, lookup-insert_self, ◌==◌, ◌≡◌, refl,
  sym, ap, ◌∙◌, then-eq, else-eq, arith, eq_refl, eq_iff, Bool-cases,
}
use payrouter.Store.Types.{PaymentIntent}
use payrouter.Postgres.Refunds.{own_intent}
use payrouter.Postgres.Intents.{merged, write_intent, read_intent, set_intent_status}

-- An intent of the account, for the amount, with a status.
abbrev pub Stands : String → String → ℕ → String → Dict PaymentIntent → Type 0
Stands account_id id amount status intents =
    (pi : PaymentIntent) × (read_intent account_id id intents ≡ some pi)
    × (pi.amount_minor ≡ amount)
    × (pi.status ≡ status)

written-read :
    (pi : PaymentIntent) (intents : Dict PaymentIntent)
    → (merged pi (lookup pi.id intents)).account_id ≡ pi.account_id
    → read_intent pi.account_id pi.id (write_intent pi intents)
      ≡ some (merged pi (lookup pi.id intents))
unfolding read_intent own_intent write_intent
written-read pi intents own =
    ap (own_intent pi.account_id)
      (lookup-insert_self pi.id (merged pi (lookup pi.id intents)) intents)
    ∙ then-eq _ _ (ap (λ a. a == pi.account_id) own ∙ eq_refl pi.account_id)

pub set-Stands :
    (account_id id status message : String) (intents : Dict PaymentIntent) (pi : PaymentIntent)
    → read_intent account_id id intents ≡ some pi
    → pi.account_id ≡ account_id
    → Stands account_id id pi.amount_minor status
        (set_intent_status account_id id status message intents)
unfolding set_intent_status read_intent own_intent
set-Stands account_id id status message intents pi found own =
    let pi' = record pi { status = status; failure_message = message } in
    rw (found, set_intent_status)
      (
        pi',
        ap (own_intent account_id) (lookup-insert_self id pi' intents)
            ∙ then-eq _ _ (ap (λ a. a == account_id) own ∙ eq_refl account_id),
        refl,
        refl,
      )

-- No intent stands under the id, or one of the account.
abbrev pub IsOwn : String → String → Dict PaymentIntent → Type 0
IsOwn account_id id intents =
    (lookup id intents ≡ none)
    ⊎ ((old : PaymentIntent) × (lookup id intents ≡ some old) × (old.account_id ≡ account_id))

merged-own :
    (pi : PaymentIntent) (intents : Dict PaymentIntent)
    → IsOwn pi.account_id pi.id intents
    → (merged pi (lookup pi.id intents)).account_id ≡ pi.account_id
unfolding merged
merged-own pi intents (inl e) = ap (λ (o : Option PaymentIntent). (merged pi o).account_id) e
merged-own pi intents (inr (old, e, own)) =
    ap (λ (o : Option PaymentIntent). (merged pi o).account_id) e ∙ own

merged-status :
    (pi : PaymentIntent) (o : Option PaymentIntent)
    → ((merged pi o).amount_minor ≡ pi.amount_minor) × ((merged pi o).status ≡ pi.status)
unfolding merged
merged-status pi none = (refl, refl)
merged-status pi (some old) = (refl, refl)

-- A written intent stands.
pub written-Stands :
    (pi : PaymentIntent) (intents : Dict PaymentIntent)
    → IsOwn pi.account_id pi.id intents
    → Stands pi.account_id pi.id pi.amount_minor pi.status (write_intent pi intents)
written-Stands pi intents own = (
  merged pi (lookup pi.id intents),
  written-read pi intents (merged-own pi intents own),
  (merged-status pi (lookup pi.id intents)).0,
  (merged-status pi (lookup pi.id intents)).1,
)

-- and is the account's own for the next write.
pub written-IsOwn :
    (pi : PaymentIntent) (intents : Dict PaymentIntent)
    → IsOwn pi.account_id pi.id intents
    → IsOwn pi.account_id pi.id (write_intent pi intents)
unfolding write_intent
written-IsOwn pi intents own = inr (
  merged pi (lookup pi.id intents),
  lookup-insert_self pi.id (merged pi (lookup pi.id intents)) intents,
  merged-own pi intents own,
)

pub read-own :
    (account_id : String) (o : Option PaymentIntent) (pi : PaymentIntent)
    → own_intent account_id o ≡ some pi
    → pi.account_id ≡ account_id
unfolding own_intent
read-own account_id none pi e = absurd (ground arith)
read-own account_id (some x) pi e = elim (Bool-cases (x.account_id == account_id)) [
  | inl q ↦
      let same : x ≡ pi = ground (arith, sym (then-eq _ _ q) ∙ e) in
      ap (λ y. y.account_id) (sym same) ∙ (eq_iff x.account_id account_id).0 q
  | inr q ↦ absurd (ground (arith, sym (else-eq _ _ q) ∙ e))
]
