-- ===== src/Store/Memory.antt =====
-- internal/store/memory.go: put and get of every resource, with the secondary indexes. Each
-- operation runs under the store's mutex, so it is one function of the state. A getter copies the
-- record, which for a value is the value itself; its error is the text of the `fmt.Errorf`.
pub mod Laws
pub mod Index
use payrouter.Prelude.{
  String, none, some, [], Result, ◌>>=◌, ok, err, Dict, lookup, insert, is_empty, ◌+++◌,
  if◌then◌else◌,
}
use payrouter.Store.Types.{
  PaymentIntent, Session, Customer, Refund, Product, Price, Subscription, Invoice, Memory,
}

unfoldable pub new_memory : Memory
new_memory = record {
  intents = [];
  gw_ref_index = [];
  sessions = [];
  session_by_pi = [];
  customers = [];
  refunds = [];
  products = [];
  prices = [];
  subscriptions = [];
  sub_by_gw_id = [];
  sub_by_auth_pi = [];
  invoices = [];
  invoice_by_pi = [];
  webhooks = [];
}

-- `if key != "" { index[key] = id }`
unfoldable pub index_by : String → String → Dict String → Dict String
index_by key id m = if is_empty key then m else insert key id m

-- `v, ok := m[id]; if !ok { return nil, fmt.Errorf(what, id) }`
unfoldable pub find : {V : Type 0} → String → String → Dict V → Result String V
find what id m = elim (lookup id m) [ none ↦ err (what +++ id) | some v ↦ ok v ]

-- A read through a secondary index: the id under the key, then the record under the id.
unfoldable pub find_by :
    {V : Type 0} → String → String → String → Dict String → Dict V → Result String V
unfolding find
find_by none_for what key index m = do id ← find none_for key index; find what id m

unfoldable pub put : PaymentIntent → Memory → Memory
put pi m = record m {
  intents = insert pi.id pi m.intents;
  gw_ref_index = index_by pi.gateway_reference pi.id m.gw_ref_index;
}

unfoldable pub get : String → Memory → Result String PaymentIntent
get id m = find "no such payment_intent: " id m.intents

unfoldable pub get_by_gateway_reference : String → Memory → Result String PaymentIntent
get_by_gateway_reference gw_ref m =
    find_by "no such payment_intent for gateway reference: " "no such payment_intent: " gw_ref
      m.gw_ref_index m.intents

unfoldable pub put_session : Session → Memory → Memory
put_session s m = record m {
  sessions = insert s.id s m.sessions;
  session_by_pi = index_by s.payment_intent_id s.id m.session_by_pi;
}

unfoldable pub get_session : String → Memory → Result String Session
get_session id m = find "no such checkout session: " id m.sessions

unfoldable pub get_session_by_payment_intent : String → Memory → Result String Session
get_session_by_payment_intent pi_id m =
    find_by "no checkout session for payment intent: " "no such checkout session: " pi_id
      m.session_by_pi m.sessions

unfoldable pub put_customer : Customer → Memory → Memory
put_customer c m = record m { customers = insert c.id c m.customers }

unfoldable pub get_customer : String → Memory → Result String Customer
get_customer id m = find "no such customer: " id m.customers

unfoldable pub put_refund : Refund → Memory → Memory
put_refund r m = record m { refunds = insert r.id r m.refunds }

unfoldable pub get_refund : String → Memory → Result String Refund
get_refund id m = find "no such refund: " id m.refunds

unfoldable pub put_product : Product → Memory → Memory
put_product p m = record m { products = insert p.id p m.products }

unfoldable pub get_product : String → Memory → Result String Product
get_product id m = find "no such product: " id m.products

unfoldable pub put_price : Price → Memory → Memory
put_price p m = record m { prices = insert p.id p m.prices }

unfoldable pub get_price : String → Memory → Result String Price
get_price id m = find "no such price: " id m.prices

unfoldable pub put_subscription : Subscription → Memory → Memory
put_subscription s m = record m {
  subscriptions = insert s.id s m.subscriptions;
  sub_by_gw_id = index_by s.gateway_id s.id m.sub_by_gw_id;
  sub_by_auth_pi = index_by s.auth_payment_intent_id s.id m.sub_by_auth_pi;
}

unfoldable pub get_subscription : String → Memory → Result String Subscription
get_subscription id m = find "no such subscription: " id m.subscriptions

unfoldable pub get_subscription_by_gateway_id : String → Memory → Result String Subscription
get_subscription_by_gateway_id gw_id m =
    find_by "no subscription for gateway id: " "no such subscription: " gw_id m.sub_by_gw_id
      m.subscriptions

unfoldable pub get_subscription_by_auth_pi : String → Memory → Result String Subscription
get_subscription_by_auth_pi pi_id m =
    find_by "no subscription for auth intent: " "no such subscription: " pi_id m.sub_by_auth_pi
      m.subscriptions

unfoldable pub put_invoice : Invoice → Memory → Memory
put_invoice i m = record m {
  invoices = insert i.id i m.invoices;
  invoice_by_pi = index_by i.payment_intent_id i.id m.invoice_by_pi;
}

unfoldable pub get_invoice : String → Memory → Result String Invoice
get_invoice id m = find "no such invoice: " id m.invoices

unfoldable pub get_invoice_by_pi : String → Memory → Result String Invoice
get_invoice_by_pi pi_id m =
    find_by "no invoice for payment intent: " "no such invoice: " pi_id m.invoice_by_pi m.invoices
