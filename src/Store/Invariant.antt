-- ===== src/Store/Invariant.antt =====
-- internal/store/memory.go: the consistency of the store as a whole, under its writes.
use payrouter.Prelude.{ℕ, String, Bool, List, [], ◌∷◌, lookup, ◌≡◌, subst, arith, Dict}
use payrouter.Store.Types.{
  PaymentIntent, Session, Customer, Refund, Product, Price, Subscription, Invoice, WebhookDelivery,
  Memory,
}
use payrouter.Store.Memory
use payrouter.Store.Queue
use payrouter.Store.Memory.{index_by, new_memory}
use payrouter.Store.Queue.Keys.{
  DeliveriesKeyed, enqueue_webhook-Keyed, lease_due_webhook-Keyed, complete_webhook-Keyed,
}
use payrouter.Store.Catalog.{
  CatalogKeyed, SameCatalog-CatalogKeyed, lease_first_catalog, complete_catalog,
}
use payrouter.Store.Memory.Index.{Keyed, Resolves, Keyed-insert, Resolves-index_by}

-- The store's invariant.
pub record IsIndexed (m : Memory) : Type 0 where
  pub intents_keyed : Keyed (λ (pi : PaymentIntent). pi.id) m.intents
  pub sessions_keyed : Keyed (λ (s : Session). s.id) m.sessions
  pub subscriptions_keyed : Keyed (λ (s : Subscription). s.id) m.subscriptions
  pub invoices_keyed : Keyed (λ (i : Invoice). i.id) m.invoices
  pub catalog : CatalogKeyed m
  pub webhooks_keyed : DeliveriesKeyed m
  pub gw_refs : Resolves m.gw_ref_index m.intents
  pub session_pis : Resolves m.session_by_pi m.sessions
  pub sub_gws : Resolves m.sub_by_gw_id m.subscriptions
  pub sub_auths : Resolves m.sub_by_auth_pi m.subscriptions
  pub invoice_pis : Resolves m.invoice_by_pi m.invoices

-- Every call of the store's interface that changes its state.
pub data Write : Type 0 where
  put_intent : PaymentIntent → Write
  put_session : Session → Write
  put_customer : Customer → Write
  put_refund : Refund → Write
  put_product : Product → Write
  put_price : Price → Write
  put_subscription : Subscription → Write
  put_invoice : Invoice → Write
  enqueue : WebhookDelivery → Write
  lease : ℕ → Write
  complete : String → Bool → String → ℕ → ℕ → Write

unfoldable pub write : Memory → Write → Memory
write m (put_intent pi) = Memory.put pi m
write m (put_session s) = Memory.put_session s m
write m (put_customer c) = Memory.put_customer c m
write m (put_refund r) = Memory.put_refund r m
write m (put_product p) = Memory.put_product p m
write m (put_price p) = Memory.put_price p m
write m (put_subscription s) = Memory.put_subscription s m
write m (put_invoice i) = Memory.put_invoice i m
write m (enqueue d) = Queue.enqueue_webhook d m
write m (lease now) = (Queue.lease_due_webhook now m).1
write m (complete id done error next max) = Queue.complete_webhook id done error next max m

-- The indexed tables and their indexes agree.
pub record SameIndexed (a b : Memory) : Type 0 where
  pub intents : a.intents ≡ b.intents
  pub gw_ref_index : a.gw_ref_index ≡ b.gw_ref_index
  pub sessions : a.sessions ≡ b.sessions
  pub session_by_pi : a.session_by_pi ≡ b.session_by_pi
  pub subscriptions : a.subscriptions ≡ b.subscriptions
  pub sub_by_gw_id : a.sub_by_gw_id ≡ b.sub_by_gw_id
  pub sub_by_auth_pi : a.sub_by_auth_pi ≡ b.sub_by_auth_pi
  pub invoices : a.invoices ≡ b.invoices
  pub invoice_by_pi : a.invoice_by_pi ≡ b.invoice_by_pi

lease_first_same :
    (now : ℕ) (ids : List String) (m : Memory) → SameIndexed m (Queue.lease_first now ids m).1
unfolding Queue.lease_first
lease_first_same now [] m = ground arith
lease_first_same now (id ∷ ids) m = ground (arith, lease_first_same now ids m)

complete_same :
    (id : String) (done : Bool) (error : String) (next max : ℕ) (m : Memory)
    → SameIndexed m (Queue.complete_webhook id done error next max m)
unfolding Queue.complete_webhook
complete_same id done error next max m = ground arith

customer_same : (m : Memory) (c : Customer) → SameIndexed m (Memory.put_customer c m)
unfolding Memory.put_customer
customer_same m c = ground arith

refund_same : (m : Memory) (r : Refund) → SameIndexed m (Memory.put_refund r m)
unfolding Memory.put_refund
refund_same m r = ground arith

product_same : (m : Memory) (p : Product) → SameIndexed m (Memory.put_product p m)
unfolding Memory.put_product
product_same m p = ground arith

price_same : (m : Memory) (p : Price) → SameIndexed m (Memory.put_price p m)
unfolding Memory.put_price
price_same m p = ground arith

enqueue_same : (m : Memory) (d : WebhookDelivery) → SameIndexed m (Queue.enqueue_webhook d m)
unfolding Queue.enqueue_webhook
enqueue_same m d = ground arith

Resolves-same :
    {V : Type 0} {index j : Dict String} {a b : Dict V}
    → index ≡ j
    → a ≡ b
    → Resolves index a
    → Resolves j b
Resolves-same {b = b} e f h = subst (λ x. Resolves x b) e (subst (Resolves _) f h)

SameIndexed-IsIndexed :
    {a b : Memory}
    → SameIndexed a b
    → DeliveriesKeyed b
    → CatalogKeyed b
    → IsIndexed a
    → IsIndexed b
SameIndexed-IsIndexed s w c h = record {
  catalog = c;
  webhooks_keyed = w;
  intents_keyed = subst (Keyed _) s.intents h.intents_keyed;
  sessions_keyed = subst (Keyed _) s.sessions h.sessions_keyed;
  subscriptions_keyed = subst (Keyed _) s.subscriptions h.subscriptions_keyed;
  invoices_keyed = subst (Keyed _) s.invoices h.invoices_keyed;
  gw_refs = Resolves-same s.gw_ref_index s.intents h.gw_refs;
  session_pis = Resolves-same s.session_by_pi s.sessions h.session_pis;
  sub_gws = Resolves-same s.sub_by_gw_id s.subscriptions h.sub_gws;
  sub_auths = Resolves-same s.sub_by_auth_pi s.subscriptions h.sub_auths;
  invoice_pis = Resolves-same s.invoice_by_pi s.invoices h.invoice_pis;
}

-- Every write of the interface keeps the store consistent.
pub write-IsIndexed : (m : Memory) (w : Write) → IsIndexed m → IsIndexed (write m w)
unfolding write Memory.put Memory.put_session Memory.put_subscription Memory.put_invoice
    Memory.put_customer Memory.put_refund Memory.put_product Memory.put_price Queue.enqueue_webhook
    Queue.lease_due_webhook
write-IsIndexed m (put_intent pi) h = record {
  catalog = h.catalog;
  webhooks_keyed = h.webhooks_keyed;
  intents_keyed = Keyed-insert (λ (v : PaymentIntent). v.id) pi m.intents h.intents_keyed;
  sessions_keyed = h.sessions_keyed;
  subscriptions_keyed = h.subscriptions_keyed;
  invoices_keyed = h.invoices_keyed;
  gw_refs = Resolves-index_by pi.gateway_reference pi.id m.gw_ref_index pi m.intents h.gw_refs;
  session_pis = h.session_pis;
  sub_gws = h.sub_gws;
  sub_auths = h.sub_auths;
  invoice_pis = h.invoice_pis;
}
write-IsIndexed m (put_session s) h = record {
  catalog = h.catalog;
  webhooks_keyed = h.webhooks_keyed;
  intents_keyed = h.intents_keyed;
  sessions_keyed = Keyed-insert (λ (v : Session). v.id) s m.sessions h.sessions_keyed;
  subscriptions_keyed = h.subscriptions_keyed;
  invoices_keyed = h.invoices_keyed;
  gw_refs = h.gw_refs;
  session_pis =
      Resolves-index_by s.payment_intent_id s.id m.session_by_pi s m.sessions h.session_pis;
  sub_gws = h.sub_gws;
  sub_auths = h.sub_auths;
  invoice_pis = h.invoice_pis;
}
write-IsIndexed m (put_subscription s) h = record {
  catalog = h.catalog;
  webhooks_keyed = h.webhooks_keyed;
  intents_keyed = h.intents_keyed;
  sessions_keyed = h.sessions_keyed;
  subscriptions_keyed =
      Keyed-insert (λ (v : Subscription). v.id) s m.subscriptions h.subscriptions_keyed;
  invoices_keyed = h.invoices_keyed;
  gw_refs = h.gw_refs;
  session_pis = h.session_pis;
  sub_gws = Resolves-index_by s.gateway_id s.id m.sub_by_gw_id s m.subscriptions h.sub_gws;
  sub_auths =
      Resolves-index_by s.auth_payment_intent_id s.id m.sub_by_auth_pi s m.subscriptions
        h.sub_auths;
  invoice_pis = h.invoice_pis;
}
write-IsIndexed m (put_invoice i) h = record {
  catalog = h.catalog;
  webhooks_keyed = h.webhooks_keyed;
  intents_keyed = h.intents_keyed;
  sessions_keyed = h.sessions_keyed;
  subscriptions_keyed = h.subscriptions_keyed;
  invoices_keyed = Keyed-insert (λ (v : Invoice). v.id) i m.invoices h.invoices_keyed;
  gw_refs = h.gw_refs;
  session_pis = h.session_pis;
  sub_gws = h.sub_gws;
  sub_auths = h.sub_auths;
  invoice_pis =
      Resolves-index_by i.payment_intent_id i.id m.invoice_by_pi i m.invoices h.invoice_pis;
}
write-IsIndexed m (lease now) h =
    SameIndexed-IsIndexed (lease_first_same now _ m)
      (lease_due_webhook-Keyed now m h.webhooks_keyed)
      (SameCatalog-CatalogKeyed m _ (lease_first_catalog now _ m) h.catalog) h
write-IsIndexed m (complete id done error next max) h =
    SameIndexed-IsIndexed (complete_same id done error next max m)
      (complete_webhook-Keyed id done error next max m h.webhooks_keyed)
      (SameCatalog-CatalogKeyed m _ (complete_catalog id done error next max m) h.catalog) h
write-IsIndexed m (put_customer c) h =
    SameIndexed-IsIndexed (customer_same m c) h.webhooks_keyed
      (record {
        customers_keyed =
            Keyed-insert (λ (v : Customer). v.id) c m.customers h.catalog.customers_keyed;
        refunds_keyed = h.catalog.refunds_keyed;
        products_keyed = h.catalog.products_keyed;
        prices_keyed = h.catalog.prices_keyed;
      })
      h
write-IsIndexed m (put_refund r) h =
    SameIndexed-IsIndexed (refund_same m r) h.webhooks_keyed
      (record {
        customers_keyed = h.catalog.customers_keyed;
        refunds_keyed = Keyed-insert (λ (v : Refund). v.id) r m.refunds h.catalog.refunds_keyed;
        products_keyed = h.catalog.products_keyed;
        prices_keyed = h.catalog.prices_keyed;
      })
      h
write-IsIndexed m (put_product p) h =
    SameIndexed-IsIndexed (product_same m p) h.webhooks_keyed
      (record {
        customers_keyed = h.catalog.customers_keyed;
        refunds_keyed = h.catalog.refunds_keyed;
        products_keyed = Keyed-insert (λ (v : Product). v.id) p m.products h.catalog.products_keyed;
        prices_keyed = h.catalog.prices_keyed;
      })
      h
write-IsIndexed m (put_price p) h =
    SameIndexed-IsIndexed (price_same m p) h.webhooks_keyed
      (record {
        customers_keyed = h.catalog.customers_keyed;
        refunds_keyed = h.catalog.refunds_keyed;
        products_keyed = h.catalog.products_keyed;
        prices_keyed = Keyed-insert (λ (v : Price). v.id) p m.prices h.catalog.prices_keyed;
      })
      h
write-IsIndexed m (enqueue d) h =
    SameIndexed-IsIndexed (enqueue_same m d) (enqueue_webhook-Keyed d m h.webhooks_keyed) h.catalog
      h

unfoldable pub writes : Memory → List Write → Memory
writes m [] = m
writes m (w ∷ ws) = writes (write m w) ws

new_memory-IsIndexed : IsIndexed new_memory
unfolding new_memory lookup
new_memory-IsIndexed = record {
  catalog = record {
    customers_keyed = record { own_id = λ k v e. cc };
    refunds_keyed = record { own_id = λ k v e. cc };
    products_keyed = record { own_id = λ k v e. cc };
    prices_keyed = record { own_id = λ k v e. cc };
  };
  webhooks_keyed = record { keyed = record { own_id = λ k v e. cc }; distinct = tt };
  intents_keyed = record { own_id = λ k v e. cc };
  sessions_keyed = record { own_id = λ k v e. cc };
  subscriptions_keyed = record { own_id = λ k v e. cc };
  invoices_keyed = record { own_id = λ k v e. cc };
  gw_refs = record { target = λ k id e. absurd (cc) };
  session_pis = record { target = λ k id e. absurd (cc) };
  sub_gws = record { target = λ k id e. absurd (cc) };
  sub_auths = record { target = λ k id e. absurd (cc) };
  invoice_pis = record { target = λ k id e. absurd (cc) };
}

writes-IsIndexed : (m : Memory) (ws : List Write) → IsIndexed m → IsIndexed (writes m ws)
unfolding writes
writes-IsIndexed m [] h = h
writes-IsIndexed m (w ∷ ws) h = writes-IsIndexed (write m w) ws (write-IsIndexed m w h)

-- Whatever calls a fresh store has served, every intent, session, customer, refund, product, price,
-- subscription, invoice and delivery stands under its own id, and every entry of the five secondary
-- indexes names a stored record.
pub new_memory-writes-IsIndexed : (ws : List Write) → IsIndexed (writes new_memory ws)
new_memory-writes-IsIndexed ws = writes-IsIndexed new_memory ws new_memory-IsIndexed
