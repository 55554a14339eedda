-- ===== src/Store/Queue.antt =====
-- internal/store/memory.go: the outbound delivery queue and the listings.
pub mod Lease
pub mod Keys
use payrouter.Prelude.{
  ℕ, suc, ◌+◌, ◌≤◌, String, Bool, true, false, ◌&&◌, ◌||◌, Option, none, some, List, [], ◌∷◌, map,
  Dict, lookup, insert, is_empty, leb, ltb, length, take, select, leb_str, ◌==◌, if◌then◌else◌,
}
use payrouter.Store.Types.{
  WebhookDelivery, PaymentIntent, Customer, Session, Memory, delivery_pending, delivery_delivered,
  delivery_failed, delivery_in_flight,
}

unfoldable pub enqueue_webhook : WebhookDelivery → Memory → Memory
enqueue_webhook d m = record m {
  webhooks =
      insert d.id (if is_empty d.status then record d { status = delivery_pending } else d)
        m.webhooks;
}

-- `d.Status == DeliveryPending && d.NextAttemptAt <= now`
unfoldable pub is_due : ℕ → WebhookDelivery → Bool
is_due now d = d.status == delivery_pending && leb d.next_attempt_at now

-- The keys of the due entries, in the order that the map is walked.
unfoldable pub due_ids : ℕ → Dict WebhookDelivery → List String
due_ids now [] = []
due_ids now ((id, d) ∷ rest) = let ids = due_ids now rest in if is_due now d then id ∷ ids else ids

insert_sorted : String → List String → List String
insert_sorted id [] = id ∷ []
insert_sorted id (j ∷ ids) = if leb_str id j then id ∷ j ∷ ids else j ∷ insert_sorted id ids

-- sort.Strings
unfoldable pub sort_strings : List String → List String
unfolding insert_sorted
sort_strings [] = []
sort_strings (id ∷ ids) = insert_sorted id (sort_strings ids)

-- `d.Status = "in_flight"; d.Attempts++`
unfoldable pub mark_in_flight : WebhookDelivery → WebhookDelivery
mark_in_flight d = record d { status = delivery_in_flight; attempts = d.attempts + 1 }

-- The loop over the sorted ids: the first that is still due is taken.
unfoldable pub lease_first : ℕ → List String → Memory → Option WebhookDelivery × Memory
lease_first now [] m = (none, m)
lease_first now (id ∷ ids) m = elim (lookup id m.webhooks) [
  | none ↦ lease_first now ids m
  | some d ↦
      if is_due now d
      then (
        some (mark_in_flight d),
        record m { webhooks = insert id (mark_in_flight d) m.webhooks },
      )
      else lease_first now ids m
]

unfoldable pub lease_due_webhook : ℕ → Memory → Option WebhookDelivery × Memory
lease_due_webhook now m = lease_first now (sort_strings (due_ids now m.webhooks)) m

-- What an attempt that ended does to its delivery.
unfoldable pub resolve : Bool → String → ℕ → ℕ → WebhookDelivery → WebhookDelivery
resolve delivered last_error next_attempt max_attempts d =
    if delivered
    then record d { last_error = last_error; status = delivery_delivered; next_attempt_at = 0 }
    else if leb max_attempts d.attempts
    then record d { last_error = last_error; status = delivery_failed }
    else record d {
      last_error = last_error;
      status = delivery_pending;
      next_attempt_at = next_attempt;
    }

unfoldable pub complete_webhook : String → Bool → String → ℕ → ℕ → Memory → Memory
complete_webhook id delivered last_error next_attempt max_attempts m = elim (lookup id m.webhooks) [
  | none ↦ m
  | some d ↦ record m {
    webhooks = insert id (resolve delivered last_error next_attempt max_attempts d) m.webhooks;
  }
]

unfoldable pub get_webhook : String → Memory → Option WebhookDelivery
get_webhook id m = lookup id m.webhooks

values : {V : Type 0} → Dict V → List V
values [] = []
values ((k, v) ∷ m) = v ∷ values m

-- sort.Slice by a key that rises. It may leave entries with equal keys in any order; this one keeps
-- the order of the walk.
insert_by : {V : Type 0} → (V → V → Bool) → V → List V → List V
insert_by before v [] = v ∷ []
insert_by before v (w ∷ l) = if before w v then w ∷ insert_by before v l else v ∷ w ∷ l

unfoldable pub sort_by : {V : Type 0} → (V → V → Bool) → List V → List V
unfolding insert_by
sort_by before [] = []
sort_by before (v ∷ l) = insert_by before v (sort_by before l)

unfoldable pub list_webhooks : Memory → List WebhookDelivery
unfolding sort_by values
list_webhooks m = sort_by (λ a b. ltb a.created b.created) (values m.webhooks)

-- The common body of the three listings: filter by account, newest first, cut at the limit.
unfoldable pub list_recent : {V : Type 0} → (V → String) → (V → ℕ) → String → ℕ → Dict V → List V
unfolding sort_by values
list_recent account_of created_of account_id limit m =
    let list =
      sort_by (λ a b. ltb (created_of b) (created_of a))
        (select (λ v. is_empty account_id || account_of v == account_id) (values m)) in
    if ltb 0 limit && ltb limit (length list) then take limit list else list

unfoldable pub list_intents : String → ℕ → Memory → List PaymentIntent
unfolding list_recent
list_intents account_id limit m =
    list_recent (λ pi. pi.account_id) (λ pi. pi.created) account_id limit m.intents

unfoldable pub list_customers : String → ℕ → Memory → List Customer
unfolding list_recent
list_customers account_id limit m =
    list_recent (λ c. c.account_id) (λ c. c.created) account_id limit m.customers

unfoldable pub list_sessions : String → ℕ → Memory → List Session
unfolding list_recent
list_sessions account_id limit m =
    list_recent (λ s. s.account_id) (λ s. s.created) account_id limit m.sessions
