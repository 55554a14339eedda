-- ===== src/Adapters/Doku/Notifications.antt =====
-- internal/adapters/doku/doku.go: which notifications are taken for DOKU's.
use payrouter.Prelude.{
  ℕ, ◌+◌, ◌≤◌, String, true, false, not, Option, none, some, List, [], ◌∷◌, Result, ok, err,
  is_empty, ◌≡◌, refl, sym, ap, ◌∙◌, inl, inr, if◌then◌else◌, arith, eq_iff, eq_refl, Bool-cases,
  then-eq, else-eq, lookup,
}
use payrouter.Gateway.{WebhookEvent, HttpRequest}
use payrouter.Adapters.Callbacks.{value_of}
use payrouter.Adapters.Doku.{
  Notification, DokuLib, DokuAdapter, canonical, digest, sign, verify, signed_headers, is_outside,
  is_stale, notification_event, read_doku, is_authentic, parse_doku,
}

module _ (lib : DokuLib) (a : DokuAdapter) (now : ℕ) where
  read_doku-ok :
      (evs : List WebhookEvent) (d : Result String Notification)
      → read_doku lib d ≡ ok evs
      → (n : Notification) × (d ≡ ok n) × (evs ≡ notification_event lib n ∷ [])
  unfolding read_doku
  read_doku-ok evs (err e) h = absurd (ground arith)
  read_doku-ok evs (ok n) h = (n, refl, ground (arith, sym h))

  -- The two guards of ParseWebhook.
  guarded :
      (r : HttpRequest) (evs : List WebhookEvent)
      → (parse_doku lib a now r).0 ≡ ok evs
      → (is_authentic lib a r ≡ true)
        × (is_stale lib now (value_of "Request-Timestamp" r.headers) ≡ false)
        × (read_doku lib (lib.decode_notification r.body) ≡ ok evs)
  unfolding parse_doku
  guarded r evs h = elim (Bool-cases (is_authentic lib a r)) [
    | inr q ↦ absurd (ground (arith, sym (then-eq _ _ (ap not q)) ∙ h))
    | inl q ↦
        let past = sym (else-eq _ _ (ap not q)) ∙ h in
        elim (Bool-cases (is_stale lib now (value_of "Request-Timestamp" r.headers))) [
          | inl s ↦ absurd (ground (arith, sym (then-eq _ _ s) ∙ past))
          | inr s ↦ (q, s, sym (else-eq _ _ s) ∙ past)
        ]
  ]

  authentic-signed :
      (r : HttpRequest)
      → is_authentic lib a r ≡ true
      → value_of "Signature" r.headers
        ≡ sign lib
            (canonical
              (value_of "Client-Id" r.headers)
              (value_of "Request-Id" r.headers)
              (value_of "Request-Timestamp" r.headers)
              a.notification_url
              (digest lib r.body))
            a.secret_key
  unfolding is_authentic verify
  authentic-signed r h = elim (Bool-cases (is_empty (value_of "Signature" r.headers))) [
    | inl e ↦ absurd (ground (arith, sym (then-eq _ _ e) ∙ h))
    | inr e ↦ (eq_iff (value_of "Signature" r.headers) _).0 (sym (else-eq _ _ e) ∙ h)
  ]

  -- A notification that carries DOKU's signature, and the event that is read from it.
  abbrev pub IsAuthentic : HttpRequest → List WebhookEvent → Type 0
  IsAuthentic r evs =
      (n : Notification) × (lib.decode_notification r.body ≡ ok n)
      × (evs ≡ notification_event lib n ∷ [])
      × (value_of "Signature" r.headers
          ≡ sign lib
              (canonical (value_of "Client-Id" r.headers) (value_of "Request-Id" r.headers)
                (value_of "Request-Timestamp" r.headers) a.notification_url (digest lib r.body))
              a.secret_key)

  -- Events come out of a DOKU notification only where its signature header is the HMAC, under the secret
  -- key, of its own client id, request id, timestamp, the notification path and the digest of its body;
  -- it is then one event, with the invoice number and the status that the body holds.
  pub parse_doku-IsAuthentic :
      (r : HttpRequest) (evs : List WebhookEvent)
      → (parse_doku lib a now r).0 ≡ ok evs
      → IsAuthentic r evs
  parse_doku-IsAuthentic r evs h =
      let (q, s, read) = guarded r evs h in
      let (n, decoded, event) = read_doku-ok evs (lib.decode_notification r.body) read in
      (n, decoded, event, authentic-signed r q)

  -- A DOKU notification whose timestamp can be parsed is taken only within five minutes of it, before or
  -- after.
  pub parse_doku-fresh :
      (r : HttpRequest) (evs : List WebhookEvent) (sent : ℕ)
      → (parse_doku lib a now r).0 ≡ ok evs
      → is_empty (value_of "Request-Timestamp" r.headers) ≡ false
      → lib.parse_time (value_of "Request-Timestamp" r.headers) ≡ some sent
      → (now ≤ sent + 300000000000) × (sent ≤ now + 300000000000)
  unfolding is_stale is_outside
  parse_doku-fresh r evs sent h given parsed =
      let (q, s, read) = guarded r evs h in
      let outside : is_outside now sent ≡ false =
        sym (else-eq _ _ given)
        ∙ ap
            (λ (t : Option ℕ). elim t [
              | none ↦ false
              | some sent ↦
                  if is_empty (value_of "Request-Timestamp" r.headers)
                  then false
                  else is_outside now sent
            ])
            (sym parsed)
        ∙ s in
      (ground (arith, outside), ground (arith, outside))

  fresh-kept :
      (ts : String) (sent : ℕ)
      → lib.parse_time ts ≡ some sent
      → now ≤ sent + 300000000000
      → sent ≤ now + 300000000000
      → is_stale lib now ts ≡ false
  unfolding is_stale is_outside
  fresh-kept ts sent parsed early late = rw (parsed, is_stale) (ground arith)

  own-authentic :
      (req_id ts body : String)
      → is_authentic lib a (record {
        headers = signed_headers lib a req_id ts a.notification_url body;
        query = [];
        body = body;
      })
        ≡ true
  unfolding is_authentic verify signed_headers value_of lookup sign
  own-authentic req_id ts body = eq_refl _

  own-fresh :
      (req_id ts body : String) (sent : ℕ)
      → lib.parse_time ts ≡ some sent
      → now ≤ sent + 300000000000
      → sent ≤ now + 300000000000
      → is_stale lib now
          (value_of "Request-Timestamp" (signed_headers lib a req_id ts a.notification_url body))
        ≡ false
  unfolding value_of lookup signed_headers
  own-fresh req_id ts body sent parsed early late = fresh-kept ts sent parsed early late

  read-event : (n : Notification) → read_doku lib (ok n) ≡ ok (notification_event lib n ∷ [])
  unfolding read_doku
  read-event n = refl

  -- A notification that is signed as the adapter signs its own requests, for the notification path, and
  -- that is at most five minutes off is taken: its body becomes the one event.
  pub parse_doku-signed_headers :
      (req_id ts body : String) (sent : ℕ) (n : Notification)
      → lib.parse_time ts ≡ some sent
      → now ≤ sent + 300000000000
      → sent ≤ now + 300000000000
      → lib.decode_notification body ≡ ok n
      → (parse_doku lib a now (record {
        headers = signed_headers lib a req_id ts a.notification_url body;
        query = [];
        body = body;
      })).0
        ≡ ok (notification_event lib n ∷ [])
  unfolding parse_doku
  parse_doku-signed_headers req_id ts body sent n parsed early late decoded =
      else-eq _ _ (ap not (own-authentic req_id ts body))
      ∙ else-eq _ _ (own-fresh req_id ts body sent parsed early late)
      ∙ ap (read_doku lib) decoded
      ∙ read-event n
