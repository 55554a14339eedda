-- ===== src/Store/Memory/Laws.antt =====
-- Reads after writes of the in-memory store, for any key.
use payrouter.Prelude.{
  String, ok, Dict, lookup, insert, ◌≡◌, arith, is_empty, eq_refl, lookup-insert,
  lookup-insert_self, ◌==◌, false, some, if◌then◌else◌,
}
use payrouter.Store.Types.{PaymentIntent, Invoice, Memory}
use payrouter.Store.Memory.{index_by, find, find_by, put, get, put_invoice, get_invoice_by_pi}

pub find-insert :
    {V : Type 0} (what k j : String) (v : V) (m : Dict V)
    → find what j (insert k v m) ≡ (if k == j then ok v else find what j m)
unfolding find
find-insert what k j v m = rw (lookup-insert, find) (ground arith)

pub find-insert_self :
    {V : Type 0} (what k : String) (v : V) (m : Dict V) → find what k (insert k v m) ≡ ok v
find-insert_self what k v m = simp (find-insert, eq_refl)

pub find-ok :
    {V : Type 0} (what k : String) (v : V) (m : Dict V) → lookup k m ≡ some v → find what k m ≡ ok v
unfolding find
find-ok what k v m h = rw (h, find)

pub ok-find :
    {V : Type 0} (what k : String) (v : V) (m : Dict V) → find what k m ≡ ok v → lookup k m ≡ some v
unfolding find
ok-find what k v m h = ground arith

pub lookup-index_by :
    (key id j : String) (m : Dict String)
    → lookup j (index_by key id m)
      ≡ (if is_empty key then lookup j m else if key == j then some id else lookup j m)
unfolding index_by
lookup-index_by key id j m = ground (arith, lookup-insert key j id m)

-- A record that has just been written is found through its own index key.
pub find_by-write :
    {V : Type 0} (no_key what key id : String) (v : V) (index : Dict String) (m : Dict V)
    → is_empty key ≡ false
    → find_by no_key what key (index_by key id index) (insert id v m) ≡ ok v
unfolding find_by find
find_by-write no_key what key id v index m h =
    ground (arith, lookup-index_by key id key index, eq_refl key, lookup-insert_self id v m)

pub get-put :
    (pi : PaymentIntent) (m : Memory) (id : String)
    → get id (put pi m) ≡ (if pi.id == id then ok pi else get id m)
unfolding get put
get-put pi m id = find-insert _ pi.id id pi m.intents

pub get-put_self : (pi : PaymentIntent) (m : Memory) → get pi.id (put pi m) ≡ ok pi
get-put_self pi m = simp (get-put, eq_refl)

pub get_invoice_by_pi-put_invoice :
    (i : Invoice) (m : Memory)
    → is_empty i.payment_intent_id ≡ false
    → get_invoice_by_pi i.payment_intent_id (put_invoice i m) ≡ ok i
unfolding get_invoice_by_pi put_invoice
get_invoice_by_pi-put_invoice i m h =
    find_by-write _ _ i.payment_intent_id i.id i m.invoice_by_pi m.invoices h
