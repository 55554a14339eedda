-- ===== src/Server/Events/Lookup.antt =====
-- internal/server/webhook.go: the intent that an event names, before and after it is written.
use payrouter.Prelude.{
  String, none, some, ok, ◌≡◌, ◌⊎◌, inl, inr, lookup, lookup-insert, eq_iff, arith, Option-cases,
}
use payrouter.Store.Types.{PaymentIntent, Memory}
use payrouter.Store.Memory.{find, find_by, get, put, get_by_gateway_reference}
use payrouter.Store.Memory.Laws.{lookup-index_by}
use payrouter.Store.Invariant.{IsIndexed}
use payrouter.Server.Events.{find_intent_by_ref}

-- The two ways in which a reference names an intent.
Names : String → Memory → PaymentIntent → Type 0
Names ref m pi =
    (lookup ref m.intents ≡ some pi)
    ⊎ ((id : String) × (lookup ref m.intents ≡ none)
        × (lookup ref m.gw_ref_index ≡ some id)
        × (lookup id m.intents ≡ some pi))

find-Names :
    (ref : String) (m : Memory) (pi : PaymentIntent)
    → find_intent_by_ref ref m ≡ ok pi
    → Names ref m pi
unfolding Names find_intent_by_ref get get_by_gateway_reference find_by find
find-Names ref m pi e = elim (Option-cases (lookup ref m.intents)) [
  | inr (p, q) ↦ inl (ground arith)
  | inl n ↦ elim (Option-cases (lookup ref m.gw_ref_index)) [
    | inl k ↦ absurd (ground arith)
    | inr (id, k) ↦ inr (id, n, k, ground arith)
  ]
]

Names-find :
    (ref : String) (m : Memory) (pi : PaymentIntent)
    → Names ref m pi
    → find_intent_by_ref ref m ≡ ok pi
unfolding Names find_intent_by_ref get get_by_gateway_reference find_by find
Names-find ref m pi (inl h) = ground arith
Names-find ref m pi (inr (id, n, g, h)) = ground arith

Names-put :
    (ref : String) (m : Memory) (pi pi' : PaymentIntent)
    → IsIndexed m
    → pi'.id ≡ pi.id
    → Names ref m pi
    → Names ref (put pi' m) pi'
unfolding Names put
Names-put ref m pi pi' h e (inl p) = inl (
    ground (
      arith,
      h.intents_keyed.own_id ref pi,
      lookup-insert pi'.id ref pi' m.intents,
      eq_iff pi'.id ref,
    ))
Names-put ref m pi pi' h e (inr (id, n, g, p)) =
    let q = h.intents_keyed.own_id id pi p in
    inr (
      id,
      ground (arith, lookup-insert pi'.id ref pi' m.intents, eq_iff pi'.id ref),
      ground (arith, lookup-index_by pi'.gateway_reference pi'.id ref m.gw_ref_index),
      ground (arith, lookup-insert pi'.id id pi' m.intents, eq_iff pi'.id id),
    )

-- A reference that named an intent names the new version of it.
pub find_intent_by_ref-put :
    (ref : String) (m : Memory) (pi pi' : PaymentIntent)
    → IsIndexed m
    → pi'.id ≡ pi.id
    → find_intent_by_ref ref m ≡ ok pi
    → find_intent_by_ref ref (put pi' m) ≡ ok pi'
find_intent_by_ref-put ref m pi pi' h e f =
    Names-find ref (put pi' m) pi' (Names-put ref m pi pi' h e (find-Names ref m pi f))
