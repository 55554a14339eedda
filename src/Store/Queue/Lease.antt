-- ===== src/Store/Queue/Lease.antt =====
-- internal/store/memory.go: which delivery LeaseDueWebhook takes.
use payrouter.Prelude.{
  ℕ, ◌+◌, String, true, false, Option, none, some, List, [], ◌∷◌, Dict, lookup, insert, ◌≡◌, refl,
  sym, subst, inl, inr, ◌⊎◌, In, All, All-In, Bool-cases, Option-cases, leb_str, leb_str_trans,
  leb_str_total, leb_str_refl, arith, eq_iff, ◌==◌,
}
use payrouter.Store.Types.{WebhookDelivery, Memory}
use payrouter.Store.Queue.{
  is_due, due_ids, insert_sorted, sort_strings, mark_in_flight, lease_first, lease_due_webhook,
}

abbrev IsSorted : List String → Type 0
IsSorted [] = Unit
IsSorted (x ∷ xs) = All (λ y. leb_str x y ≡ true) xs × IsSorted xs

In-insert_sorted :
    (j id : String) (ids : List String) → In j (id ∷ ids) → In j (insert_sorted id ids)
unfolding insert_sorted
In-insert_sorted j id [] h = h
In-insert_sorted j id (x ∷ ids) h = ground (arith, In-insert_sorted j id ids)

In-sort_strings : (j : String) (ids : List String) → In j ids → In j (sort_strings ids)
unfolding sort_strings
In-sort_strings j [] h = h
In-sort_strings j (x ∷ ids) (inl e) = In-insert_sorted j x (sort_strings ids) (inl e)
In-sort_strings j (x ∷ ids) (inr m) =
    In-insert_sorted j x (sort_strings ids) (inr (In-sort_strings j ids m))

All-insert_sorted :
    (P : String → Type 0) (id : String) (ids : List String)
    → P id
    → All P ids
    → All P (insert_sorted id ids)
unfolding insert_sorted
All-insert_sorted P id [] h k = (h, tt)
All-insert_sorted P id (x ∷ ids) h k = elim (Bool-cases (leb_str id x)) [
  | inl e ↦ rw e (h, k)
  | inr e ↦ rw e (k.0, All-insert_sorted P id ids h k.1)
]

All-leb_str :
    (a b : String) (xs : List String)
    → leb_str a b ≡ true
    → All (λ y. leb_str b y ≡ true) xs
    → All (λ y. leb_str a y ≡ true) xs
All-leb_str a b [] h k = tt
All-leb_str a b (x ∷ xs) h k = (leb_str_trans a b x h k.0, All-leb_str a b xs h k.1)

insert_sorted-IsSorted :
    (id : String) (ids : List String) → IsSorted ids → IsSorted (insert_sorted id ids)
unfolding insert_sorted
insert_sorted-IsSorted id [] s = (tt, tt)
insert_sorted-IsSorted id (x ∷ ids) s = elim (Bool-cases (leb_str id x)) [
  | inl e ↦ rw e ((e, All-leb_str id x ids e s.0), s)
  | inr e ↦ rw e (
    All-insert_sorted (λ y. leb_str x y ≡ true) id ids (leb_str_total id x e) s.0,
    insert_sorted-IsSorted id ids s.1,
  )
]

sort_strings-IsSorted : (ids : List String) → IsSorted (sort_strings ids)
unfolding sort_strings
sort_strings-IsSorted [] = tt
sort_strings-IsSorted (x ∷ ids) = insert_sorted-IsSorted x _ (sort_strings-IsSorted ids)

module _ (now : ℕ) where
  -- The key of a due entry is among the keys that are collected.
  In-due_ids :
      (j : String) (w : WebhookDelivery) (ws : Dict WebhookDelivery)
      → lookup j ws ≡ some w
      → is_due now w ≡ true
      → In j (due_ids now ws)
  unfolding lookup due_ids
  In-due_ids j w [] h due = cc
  In-due_ids j w ((id, d) ∷ ws) h due = elim (Bool-cases (id == j)) [
    | inl e ↦ ground (arith, eq_iff id j)
    | inr e ↦ ground (arith, In-due_ids j w ws)
  ]

-- What a lease may return: nothing, and then no stored delivery is due and the store is as it was;
-- or the due delivery with the least id, marked in flight and written back, and nothing else.
data Leased (now : ℕ) (m : Memory) (ids : List String) (r : Option WebhookDelivery × Memory)
    : Type 0 where
  nothing_due :
      r ≡ (none, m)
      → ((j : String) (w : WebhookDelivery)
          → In j ids
          → lookup j m.webhooks ≡ some w
          → is_due now w ≡ false)
      → Leased now m ids r
  least_due :
      (id : String) (d : WebhookDelivery)
      → lookup id m.webhooks ≡ some d
      → is_due now d ≡ true
      → r
        ≡ (some (mark_in_flight d), record m { webhooks = insert id (mark_in_flight d) m.webhooks })
      → ((j : String) (w : WebhookDelivery)
          → In j ids
          → lookup j m.webhooks ≡ some w
          → is_due now w ≡ true
          → leb_str id j ≡ true)
      → Leased now m ids r

module _ (now : ℕ) (m : Memory) where
  Leased-skip :
      (id : String) (ids : List String) (r : Option WebhookDelivery × Memory)
      → ((w : WebhookDelivery) → lookup id m.webhooks ≡ some w → is_due now w ≡ false)
      → Leased now m ids r
      → Leased now m (id ∷ ids) r
  Leased-skip id ids r skip (nothing_due e all) = nothing_due e (λ j w i p. elim i [
    | inl q ↦ skip w (subst (λ k. lookup k m.webhooks ≡ some w) (sym q) p)
    | inr i' ↦ all j w i' p
  ])
  Leased-skip id ids r skip (least_due k d p due e all) = least_due k d p due e (λ j w i q h.
      elim i [
        | inl x ↦ cc (skip w (subst (λ k. lookup k m.webhooks ≡ some w) (sym x) q))
        | inr i' ↦ all j w i' q h
      ])

  lease_first-Leased : (ids : List String) → IsSorted ids → Leased now m ids (lease_first now ids m)
  unfolding lease_first
  lease_first-Leased [] s = nothing_due refl (λ j w i p. absurd i)
  lease_first-Leased (id ∷ ids) s = elim (Option-cases (lookup id m.webhooks)) [
    | inl e ↦ rw (e, lease_first) (Leased-skip id ids _ (λ w p. cc) (lease_first-Leased ids s.1))
    | inr (d, e) ↦ elim (Bool-cases (is_due now d)) [
      | inl due ↦
          rw (e, lease_first, due)
            (least_due id d e due refl (λ j w i p h. elim i [
              | inl x ↦ rw (← x) (leb_str_refl id)
              | inr i' ↦ All-In _ j ids s.0 i'
            ]))
      | inr late ↦
          rw (e, lease_first, late)
            (Leased-skip id ids _ (λ w p. ground arith) (lease_first-Leased ids s.1))
    ]
  ]

module _ (now : ℕ) (m : Memory) where
  among :
      (j : String) (w : WebhookDelivery)
      → lookup j m.webhooks ≡ some w
      → is_due now w ≡ true
      → In j (sort_strings (due_ids now m.webhooks))
  among j w p h = In-sort_strings j _ (In-due_ids now j w m.webhooks p h)

  all_late :
      ((j : String) (w : WebhookDelivery)
        → In j (sort_strings (due_ids now m.webhooks))
        → lookup j m.webhooks ≡ some w
        → is_due now w ≡ false)
      → (j : String) (w : WebhookDelivery) → lookup j m.webhooks ≡ some w
      → is_due now w ≡ false
  all_late all j w p = elim (Bool-cases (is_due now w)) [
    | inl h ↦ all j w (among j w p h) p
    | inr h ↦ h
  ]

-- The two ways in which a lease may end.
abbrev pub LeaseOutcome : ℕ → Memory → Type 0
LeaseOutcome now m =
    ((lease_due_webhook now m ≡ (none, m))
      × ((j : String) (w : WebhookDelivery) → lookup j m.webhooks ≡ some w → is_due now w ≡ false))
    ⊎ ((id : String) × (d : WebhookDelivery) × (lookup id m.webhooks ≡ some d)
        × (is_due now d ≡ true)
        × (lease_due_webhook now m ≡ (
          some (record d { status = "in_flight"; attempts = d.attempts + 1 }),
          record m {
            webhooks =
                insert id (record d { status = "in_flight"; attempts = d.attempts + 1 }) m.webhooks;
          },
        ))
        × ((j : String) (w : WebhookDelivery)
            → lookup j m.webhooks ≡ some w
            → is_due now w ≡ true
            → leb_str id j ≡ true))

-- LeaseDueWebhook returns nothing and changes nothing exactly when no stored delivery is due.
-- Otherwise it returns the due delivery whose id is the least among all that are due, with its
-- status in flight and one more attempt, writes that delivery back, and changes nothing else. The ids
-- are random, so the least id need not be the oldest delivery.
pub lease_least : (now : ℕ) (m : Memory) → LeaseOutcome now m
unfolding lease_due_webhook mark_in_flight
lease_least now m =
    elim (lease_first-Leased now m _ (sort_strings-IsSorted (due_ids now m.webhooks))) [
      | nothing_due e all ↦ inl (e, all_late now m all)
      | least_due id d p due e all ↦
          inr (id, d, p, due, e, λ j w q h. all j w (among now m j w q h) q h)
    ]
