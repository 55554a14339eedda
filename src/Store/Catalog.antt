-- ===== src/Store/Catalog.antt =====
-- internal/store/memory.go: the tables without an index, customers, refunds, products and prices, and
-- that the calls on the delivery queue leave them alone.
use payrouter.Prelude.{ℕ, String, Bool, List, [], ◌∷◌, Dict, ◌≡◌, subst, arith}
use payrouter.Store.Types.{Customer, Refund, Product, Price, Memory}
use payrouter.Store.Queue
use payrouter.Store.Memory.Index.{Keyed}

-- Each table that no index leads to.
pub record CatalogTables (customers : Dict Customer) (refunds : Dict Refund)
    (products : Dict Product) (prices : Dict Price) : Type 0 where
  pub customers_keyed : Keyed (λ (c : Customer). c.id) customers
  pub refunds_keyed : Keyed (λ (r : Refund). r.id) refunds
  pub products_keyed : Keyed (λ (p : Product). p.id) products
  pub prices_keyed : Keyed (λ (p : Price). p.id) prices

abbrev pub CatalogKeyed : Memory → Type 0
CatalogKeyed m = CatalogTables m.customers m.refunds m.products m.prices

-- The other tables agree.
pub record SameCatalog (a b : Memory) : Type 0 where
  pub customers : a.customers ≡ b.customers
  pub refunds : a.refunds ≡ b.refunds
  pub products : a.products ≡ b.products
  pub prices : a.prices ≡ b.prices

pub SameCatalog-CatalogKeyed : (a b : Memory) → SameCatalog a b → CatalogKeyed a → CatalogKeyed b
SameCatalog-CatalogKeyed a b s h = record {
  customers_keyed = subst (Keyed _) s.customers h.customers_keyed;
  refunds_keyed = subst (Keyed _) s.refunds h.refunds_keyed;
  products_keyed = subst (Keyed _) s.products h.products_keyed;
  prices_keyed = subst (Keyed _) s.prices h.prices_keyed;
}

pub lease_first_catalog :
    (now : ℕ) (ids : List String) (m : Memory) → SameCatalog m (Queue.lease_first now ids m).1
unfolding Queue.lease_first
lease_first_catalog now [] m = ground arith
lease_first_catalog now (id ∷ ids) m = ground (arith, lease_first_catalog now ids m)

pub complete_catalog :
    (id : String) (done : Bool) (error : String) (next max : ℕ) (m : Memory)
    → SameCatalog m (Queue.complete_webhook id done error next max m)
unfolding Queue.complete_webhook
complete_catalog id done error next max m = ground arith
