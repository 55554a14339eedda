-- ===== src/Store/Queue/Keys.antt =====
-- internal/store/memory.go: the keys of the delivery queue.
use payrouter.Prelude.{
  ℕ, String, Bool, some, Dict, lookup, insert, Distinct, Distinct-insert, ◌≡◌, ◌∙◌, arith,
  Option-cases, inl, inr,
}
use payrouter.Store.Types.{WebhookDelivery, Memory}
use payrouter.Store.Queue.{
  resolve, mark_in_flight, enqueue_webhook, lease_due_webhook, complete_webhook,
}
use payrouter.Store.Queue.Lease.{lease_least}
use payrouter.Store.Memory.Index.{Keyed, Keyed-insert_at}

pub record KeyedQueue (ws : Dict WebhookDelivery) : Type 0 where
  pub keyed : Keyed (λ (v : WebhookDelivery). v.id) ws
  pub distinct : Distinct ws

abbrev pub DeliveriesKeyed : Memory → Type 0
DeliveriesKeyed m = KeyedQueue m.webhooks

-- A write to the queue under the delivery's own id.
written-Keyed :
    (id : String) (d : WebhookDelivery) (m : Memory)
    → d.id ≡ id
    → DeliveriesKeyed m
    → DeliveriesKeyed (record m { webhooks = insert id d m.webhooks })
written-Keyed id d m e h = record {
  keyed = Keyed-insert_at _ id d m.webhooks e h.keyed;
  distinct = Distinct-insert id d m.webhooks h.distinct;
}

pub id-resolve :
    (done : Bool) (error : String) (next max : ℕ) (d : WebhookDelivery)
    → (resolve done error next max d).id ≡ d.id
unfolding resolve
id-resolve done error next max d = ground arith

pub complete_webhook-Keyed :
    (id : String) (done : Bool) (error : String) (next max : ℕ) (m : Memory)
    → DeliveriesKeyed m
    → DeliveriesKeyed (complete_webhook id done error next max m)
unfolding complete_webhook
complete_webhook-Keyed id done error next max m h = elim (Option-cases (lookup id m.webhooks)) [
  | inl e ↦ rw (e, complete_webhook) h
  | inr (d, e) ↦
      rw (e, complete_webhook)
        (written-Keyed id (resolve done error next max d) m
          (id-resolve done error next max d ∙ h.keyed.own_id id d e) h)
]

pub marked-Keyed :
    (id : String) (d : WebhookDelivery) (m : Memory)
    → lookup id m.webhooks ≡ some d
    → DeliveriesKeyed m
    → DeliveriesKeyed (record m { webhooks = insert id (mark_in_flight d) m.webhooks })
unfolding mark_in_flight
marked-Keyed id d m e h = written-Keyed id _ m (h.keyed.own_id id d e) h

pub lease_due_webhook-Keyed :
    (now : ℕ) (m : Memory) → DeliveriesKeyed m → DeliveriesKeyed (lease_due_webhook now m).1
unfolding mark_in_flight
lease_due_webhook-Keyed now m h = elim (lease_least now m) [
  | inl (e, all) ↦ rw e h
  | inr (id, d, p, due, e, least) ↦ rw e (marked-Keyed id d m p h)
]

pub enqueue_webhook-Keyed :
    (d : WebhookDelivery) (m : Memory) → DeliveriesKeyed m → DeliveriesKeyed (enqueue_webhook d m)
unfolding enqueue_webhook
enqueue_webhook-Keyed d m h = written-Keyed d.id _ m (ground arith) h
