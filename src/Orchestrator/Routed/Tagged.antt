-- ===== src/Orchestrator/Routed/Tagged.antt =====
-- internal/orchestrator/router_gateway.go: references, and the adapters that calls for them reach.
use payrouter.Prelude.{
  String, Bool, true, false, Option, none, some, [], ◌∷◌, Dict, lookup, insert, lookup-insert,
  Result, ok, err, is_empty_lem, ◌==◌, subst, ◌+++◌, ◌≡◌, ◌≢◌, refl, ap, ◌∙◌, In, inl, inr,
  Option-cases, Bool-cases, arith, eq_iff,
}
use payrouter.Gateway.{Gateway, GatewayError, CreatePaymentInput, PaymentResult, RefundInput, other}
use payrouter.Orchestrator.OrderId.{providers, format_order_id, extract-format, extract-pi}
use payrouter.Orchestrator.Router.{Floats, RootConfig}
use payrouter.Orchestrator.Routed.{
  Credentials, add_if, build_candidate_adapters, tag, tag_result, create_with, best_gateway,
  create_payment, get_status, refund,
}

-- A result that carries a reference after tagging carried one before, under the tag.
tag-some :
    (gw : String) (raw : Option PaymentResult) (res : PaymentResult)
    → tag gw raw ≡ some res
    → res.reference ≢ ""
    → (p : PaymentResult) × (raw ≡ some p) × (res.reference ≡ format_order_id gw p.reference)
unfolding tag
tag-some gw none res e n = ground arith
tag-some gw (some p) res e n = (p, refl, ground (arith, is_empty_lem p.reference))

tag_result-some :
    (gw : String) (r : Result GatewayError (Option PaymentResult)) (res : PaymentResult)
    → tag_result gw r ≡ ok (some res)
    → res.reference ≢ ""
    → (p : PaymentResult) × (r ≡ ok (some p)) × (res.reference ≡ format_order_id gw p.reference)
unfolding tag_result
tag_result-some gw (err x) res e n = ground arith
tag_result-some gw (ok raw) res e n =
    let (p, q, t) = tag-some gw raw res (ground arith) n in (p, ap ok q, t)

not_provider : In "unknown" providers → ⊥
not_provider h = ground (
  arith,
  eq_iff "midtrans" "unknown",
  eq_iff "xendit" "unknown",
  eq_iff "doku" "unknown",
  eq_iff "mayar" "unknown",
)

module _ {W : Type 0} where
  -- Every adapter stands under the name of a provider that has a code.
  Known : Dict (Gateway W) → Type 0
  Known adapters =
      (name : String) (a : Gateway W) → lookup name adapters ≡ some a → In name providers

  Known-insert :
      (name : String) (a : Gateway W) (m : Dict (Gateway W))
      → In name providers
      → Known m
      → Known (insert name a m)
  unfolding Known
  Known-insert name a m n h k b e = elim (Bool-cases (name == k)) [
    | inl q ↦ subst (λ s. In s providers) ((eq_iff name k).0 q) n
    | inr q ↦ h k b (ground (arith, lookup-insert name k a m))
  ]

  Known-add_if :
      (c : Bool) (name : String) (build : String → Option (Gateway W)) (m : Dict (Gateway W))
      → In name providers
      → Known m
      → Known (add_if c name build m)
  unfolding add_if
  Known-add_if false name build m n h = h
  Known-add_if true name build m n h = elim (Option-cases (build name)) [
    | inl e ↦ rw (e, add_if) h
    | inr (a, e) ↦ rw (e, add_if) (Known-insert name a m n h)
  ]

  Known-empty : (name : String) (a : Gateway W) → lookup name [] ≡ some a → In name providers
  unfolding lookup
  Known-empty name a e = ground arith

  build_candidate_adapters-Known :
      (cfg : Credentials) (build : String → Option (Gateway W))
      → Known (build_candidate_adapters cfg build)
  unfolding build_candidate_adapters Known
  build_candidate_adapters-Known cfg build =
      Known-add_if _ "mayar" build _ (inr (inr (inr (inl refl)))) (
        Known-add_if _ "doku" build _ (inr (inr (inl refl))) (
          Known-add_if _ "xendit" build _ (inr (inl refl))
            (Known-add_if _ "midtrans" build _ (inl refl) Known-empty)))

  module _ (adapters : Dict (Gateway W)) (name raw_id : String) (a : Gateway W)
      (f : lookup name adapters ≡ some a) (known : In name providers) where
    get_status-tagged :
        (u : W) → get_status adapters (format_order_id name raw_id) u ≡ a.get_status raw_id u
    unfolding get_status
    get_status-tagged u =
        rw (extract-format raw_id name known, get_status)
          (rw f (ap (λ p. a.get_status p.1 u) (extract-format raw_id name known)))

    refund-tagged :
        (r : RefundInput) (u : W)
        → refund adapters (some (record r { payment_reference = format_order_id name raw_id })) u
          ≡ a.refund (some (record r { payment_reference = raw_id })) u
    unfolding refund
    refund-tagged r u =
        rw (extract-format raw_id name known, refund)
          (rw f (
            ap (λ p. a.refund (some (record r { payment_reference = p.1 })) u)
              (extract-format raw_id name known)))

  create_with-ok :
      (best : String) (o : Option (Gateway W)) (i : Option CreatePaymentInput) (w w' : W)
      (res : PaymentResult)
      → create_with best o i w ≡ (ok (some res), w')
      → res.reference ≢ ""
      → (a : Gateway W) × (raw : PaymentResult) × (o ≡ some a)
        × (a.create_payment i w ≡ (ok (some raw), w'))
        × (res.reference ≡ format_order_id best raw.reference)
  unfolding create_with
  create_with-ok best none i w w' res e n = ground arith
  create_with-ok best (some a) i w w' res e n =
      let (raw, q, t) = tag_result-some best (a.create_payment i w).0 res (ap (λ p. p.0) e) n in
      (a, raw, refl, (λ j. (q j, ap (λ p. p.1) e j)), t)

  -- The adapter that made a payment, and the reference that it gave.
  create_payment-ok :
      (F : Floats) (config : Option (RootConfig F.Float)) (adapters : Dict (Gateway W))
      (i : Option CreatePaymentInput) (w w' : W) (res : PaymentResult)
      → create_payment F config adapters i w ≡ (ok (some res), w')
      → res.reference ≢ ""
      → (name : String) × (a : Gateway W) × (raw : PaymentResult) × (lookup name adapters ≡ some a)
        × (a.create_payment i w ≡ (ok (some raw), w'))
        × (res.reference ≡ format_order_id name raw.reference)
  unfolding create_payment
  create_payment-ok F config [] i w w' res e n = ground arith
  create_payment-ok F config (x ∷ rest) i w w' res e n =
      let best = best_gateway F config (x ∷ rest) i in
      let (a, raw, q, c, t) = create_with-ok best (lookup best (x ∷ rest)) i w w' res e n in
      (best, a, raw, q, c, t)

  -- A later call for the reference `ref` reaches the adapter that made the payment, with the
  -- reference that the adapter chose.
  abbrev pub RoutesBack :
      Dict (Gateway W) → Option CreatePaymentInput → W → W → W → String → RefundInput → Type 0
  RoutesBack adapters i w w' u ref r =
      (name : String) × (a : Gateway W) × (raw : PaymentResult) × (lookup name adapters ≡ some a)
      × (a.create_payment i w ≡ (ok (some raw), w'))
      × (get_status adapters ref u ≡ a.get_status raw.reference u)
      × (refund adapters (some (record r { payment_reference = ref })) u
          ≡ a.refund (some (record r { payment_reference = raw.reference })) u)

  -- A payment that the orchestrator of the configured adapters creates comes back with a reference
  -- that leads to the adapter that made it: that adapter answers every later status query for the
  -- reference, and every later refund of it, and sees the reference that it chose itself.
  pub create_payment-routes-back :
      (F : Floats) (config : Option (RootConfig F.Float)) (cfg : Credentials)
      (build : String → Option (Gateway W)) (i : Option CreatePaymentInput) (w w' u : W)
      (res : PaymentResult) (r : RefundInput)
      → create_payment F config (build_candidate_adapters cfg build) i w ≡ (ok (some res), w')
      → res.reference ≢ ""
      → RoutesBack (build_candidate_adapters cfg build) i w w' u res.reference r
  unfolding Known
  create_payment-routes-back F config cfg build i w w' u res r e n =
      let adapters = build_candidate_adapters cfg build in
      let (name, a, raw, q, c, t) = create_payment-ok F config adapters i w w' res e n in
      let known = build_candidate_adapters-Known cfg build name a q in
      (
        name,
        a,
        raw,
        q,
        c,
        ap (λ s. get_status adapters s u) t
            ∙ get_status-tagged adapters name raw.reference a q known u,
        ap (λ s. refund adapters (some (record r { payment_reference = s })) u) t
            ∙ refund-tagged adapters name raw.reference a q known r u,
      )

  unknown-absent :
      (cfg : Credentials) (build : String → Option (Gateway W))
      → lookup "unknown" (build_candidate_adapters cfg build) ≡ none
  unfolding Known
  unknown-absent cfg build =
      elim (Option-cases (lookup "unknown" (build_candidate_adapters cfg build))) [
        | inl e ↦ e
        | inr (a, e) ↦
            absurd (not_provider (build_candidate_adapters-Known cfg build "unknown" a e))
      ]

  -- A refund of one of the facade's own payment ids reaches no adapter: it fails, and nothing changes.
  pub refund-pi :
      (cfg : Credentials) (build : String → Option (Gateway W)) (raw_id : String) (r : RefundInput)
      (u : W)
      → refund
          (build_candidate_adapters cfg build)
          (some (record r { payment_reference = "pi_" +++ raw_id }))
          u
        ≡ (
          err (other ("orchestrator: cannot route refund for reference " +++ ("pi_" +++ raw_id))),
          u,
        )
  unfolding refund
  refund-pi cfg build raw_id r u =
      rw (extract-pi raw_id, refund) (rw (unknown-absent cfg build) refl)
