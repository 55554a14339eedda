-- ===== src/Adapters/Verified.antt =====
-- internal/adapters: what a callback carries that becomes events.
use payrouter.Prelude.{
  String, true, not, List, [], ◌∷◌, Result, ok, err, is_empty, ◌==◌, ◌+++◌, ◌≡◌, ◌≢◌, refl, sym, ap,
  ◌∙◌, ◌⊎◌, inl, inr, eq_iff, arith, Bool-cases, then-eq, else-eq,
}
use payrouter.Gateway.{WebhookEvent, HttpRequest}
use payrouter.Adapters.Callbacks.{
  Codec, MidtransNotification, verify_signature, read_midtrans, midtrans_events, parse_midtrans,
  value_of, verify_token, recurring_event, payment_event, MayarCallback, read_mayar, parse_xendit,
  parse_mayar,
}

verified :
    (provided expected : String)
    → verify_token provided expected ≡ true
    → (expected ≢ "") × (provided ≡ expected)
unfolding verify_token
verified provided expected h = elim (Bool-cases (is_empty expected)) [
  | inl e ↦ absurd (ground arith)
  | inr e ↦ ((λ q. ground (arith, ap is_empty q)), (eq_iff provided expected).0 (ground arith))
]

module _ (c : Codec) (r : HttpRequest) (evs : List WebhookEvent) where
  one_event :
      (n : MidtransNotification)
      → (ev : WebhookEvent) × (midtrans_events c n ≡ ev ∷ []) × (ev.reference ≡ n.order_id)
  unfolding midtrans_events recurring_event payment_event
  one_event n = elim (Bool-cases (is_empty n.saved_token_id)) [
    | inr p ↦ (
      recurring_event "customer.subscription.activating" n.saved_token_id "" n,
      then-eq _ _ (ap not p),
      refl,
    )
    | inl p ↦ elim (Bool-cases (is_empty n.subscription_id)) [
      | inr q ↦ (
        recurring_event "invoice.payment_succeeded" "" n.subscription_id n,
        else-eq _ _ (ap not p) ∙ then-eq _ _ (ap not q),
        refl,
      )
      | inl q ↦ (_, else-eq _ _ (ap not p) ∙ else-eq _ _ (ap not q), refl)
    ]
  ]

  -- The digest is checked.
  signed :
      (n : MidtransNotification) (server_key : String)
      → verify_signature c server_key n ≡ true
      → (n.signature_key ≢ "")
        × (c.sha512_hex (n.order_id +++ n.status_code +++ n.gross_amount +++ server_key)
            ≡ n.signature_key)
  unfolding verify_signature
  signed n server_key h = elim (Bool-cases (is_empty n.signature_key)) [
    | inl e ↦ absurd (ground arith)
    | inr e ↦ (
      (λ q. ground (arith, ap is_empty q)),
      (eq_iff (c.sha512_hex (n.order_id +++ n.status_code +++ n.gross_amount +++ server_key))
            n.signature_key).0
          (sym (else-eq _ _ e) ∙ h),
    )
  ]

  read_midtrans-ok :
      (server_key : String) (d : Result String MidtransNotification)
      → read_midtrans c server_key d ≡ ok evs
      → (n : MidtransNotification) × (d ≡ ok n)
        × (verify_signature c server_key n ≡ true)
        × (evs ≡ midtrans_events c n)
  unfolding read_midtrans
  read_midtrans-ok server_key (err x) e = absurd (ground arith)
  read_midtrans-ok server_key (ok n) e = elim (Bool-cases (verify_signature c server_key n)) [
    | inl v ↦ (n, refl, v, ground arith)
    | inr v ↦ absurd (ground arith)
  ]

  received :
      (d : Result String MayarCallback)
      → c.decode_mayar r.body ≡ d
      → read_mayar c d ≡ ok evs
      → (evs ≡ [])
        ⊎ ((wh : MayarCallback) × (c.decode_mayar r.body ≡ ok wh)
            × (wh.event ≡ "payment.received")
            × (wh.status ≡ true))
  unfolding read_mayar
  received (err x) q e = absurd (ground arith)
  received (ok wh) q e = elim (Bool-cases (wh.event == "payment.received")) [
    | inr a ↦ inl (ground arith)
    | inl a ↦ elim (Bool-cases wh.status) [
      | inr b ↦ inl (ground arith)
      | inl b ↦ inr (wh, q, (eq_iff wh.event "payment.received").0 a, b)
    ]
  ]

  -- A signed notification, and the event that is read from it.
  abbrev pub IsSigned : String → Type 0
  IsSigned server_key =
      (n : MidtransNotification) × (ev : WebhookEvent) × (c.decode_midtrans r.body ≡ ok n)
      × (n.signature_key ≢ "")
      × (c.sha512_hex (n.order_id +++ n.status_code +++ n.gross_amount +++ server_key)
          ≡ n.signature_key)
      × (evs ≡ ev ∷ [])
      × (ev.reference ≡ n.order_id)

  -- Events come out of a Midtrans callback only where its body is a notification whose signature key is
  -- not empty and is the SHA-512 of its order id, status code, gross amount and the server key; it is
  -- then one event, about the order that was signed.
  pub parse_midtrans-IsSigned :
      (server_key : String) → (parse_midtrans c server_key r).0 ≡ ok evs → IsSigned server_key
  unfolding parse_midtrans
  parse_midtrans-IsSigned server_key e =
      let (n, d, v, t) = read_midtrans-ok server_key (c.decode_midtrans r.body) e in
      let (a, b) = signed n server_key v in
      let (ev, p, q) = one_event n in (n, ev, d, a, b, t ∙ p, q)

  -- Events come out of a Xendit callback only where its token header is the configured token, and
  -- one is configured.
  pub parse_xendit-token :
      (token : String)
      → (parse_xendit c token r).0 ≡ ok evs
      → (token ≢ "") × (value_of "X-Callback-Token" r.headers ≡ token)
  unfolding parse_xendit
  parse_xendit-token token e =
      elim (Bool-cases (verify_token (value_of "X-Callback-Token" r.headers) token)) [
        | inl t ↦ verified (value_of "X-Callback-Token" r.headers) token t
        | inr t ↦ absurd (ground arith)
      ]

  -- Events come out of a Mayar callback only where the token of its query is the configured token, one
  -- is configured, and, where there is an event at all, the body says that a payment was received.
  pub parse_mayar-token :
      (token : String)
      → (parse_mayar c token r).0 ≡ ok evs
      → (token ≢ "")
        × (value_of "token" r.query ≡ token)
        × ((evs ≡ [])
            ⊎ ((wh : MayarCallback) × (c.decode_mayar r.body ≡ ok wh)
                × (wh.event ≡ "payment.received")
                × (wh.status ≡ true)))
  unfolding parse_mayar
  parse_mayar-token token e = elim (Bool-cases (verify_token (value_of "token" r.query) token)) [
    | inl t ↦
        let (a, b) = verified (value_of "token" r.query) token t in
        (a, b, received (c.decode_mayar r.body) refl (ground arith))
    | inr t ↦ absurd (ground arith)
  ]
