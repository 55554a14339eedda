-- ===== src/Adapters/Order.antt =====
-- internal/orchestrator/router_gateway.go over the adapters' ParseWebhook: the request body is a
-- stream, and the adapters are tried one after another on the same request.
use payrouter.Prelude.{
  String, [], ◌∷◌, Result, ok, err, ◌≡◌, refl, ap, ◌∙◌, true, ◌+++◌, Dict, then-eq, else-eq,
  is_empty,
}
use payrouter.Gateway.{Gateway, GatewayError, WebhookEvent, HttpRequest, invalid_signature, other}
use payrouter.Adapters.Callbacks.{
  Codec, Parsed, MidtransNotification, InvoiceCallback, verify_signature, read_midtrans,
  parse_midtrans, value_of, verify_token, read_xendit, parse_xendit,
}
use payrouter.Orchestrator.Routed.{accepted, parse_webhook}

-- A gateway with the callback handling of Midtrans, and one with that of Xendit.
abbrev pub with_midtrans : {W : Type 0} → Codec → String → Gateway W → Gateway W
with_midtrans c key g = record g { parse_webhook = parse_midtrans c key }

abbrev pub with_xendit : {W : Type 0} → Codec → String → Gateway W → Gateway W
with_xendit c token g = record g { parse_webhook = parse_xendit c token }

module _ {W : Type 0} (name : String) (g : Gateway W) (rest : Dict (Gateway W)) where
  asked-accepts :
      (r : HttpRequest) (ev : WebhookEvent)
      → (g.parse_webhook r).0 ≡ ok (ev ∷ [])
      → (parse_webhook ((name, g) ∷ rest) r).0 ≡ ok (ev ∷ [])
  unfolding parse_webhook accepted
  asked-accepts r ev h = rw (h, parse_webhook) refl

  asked-refuses :
      (r r' : HttpRequest) (x : GatewayError)
      → g.parse_webhook r ≡ (err x, r')
      → parse_webhook ((name, g) ∷ rest) r ≡ parse_webhook rest r'
  unfolding parse_webhook accepted
  asked-refuses r r' x h = rw (ap (λ p. p.0) h, parse_webhook) (ap (λ p. parse_webhook rest p.1) h)

module _ {W : Type 0} (c : Codec) (key token : String) (a b : Gateway W) (r : HttpRequest) where
  -- Of a Xendit callback with the right token, which json.Unmarshal reads as a Midtrans notification
  -- without a signature, as it ignores the fields that it does not know and leaves the missing ones
  -- empty, in an orchestrator with both adapters: where Xendit is asked first its event is returned, and
  -- where Midtrans is asked first the callback is refused, as the body is used up. It rests on an
  -- empty text not being JSON.
  pub parse_webhook-order :
      (n : MidtransNotification) (empty : String) (ev : WebhookEvent)
      → c.decode_midtrans r.body ≡ ok n
      → is_empty n.signature_key ≡ true
      → c.decode_xendit "" ≡ err empty
      → verify_token (value_of "X-Callback-Token" r.headers) token ≡ true
      → read_xendit c (c.decode_xendit r.body) ≡ ok (ev ∷ [])
      → ((parse_webhook
            (("xendit", with_xendit c token b) ∷ ("midtrans", with_midtrans c key a) ∷ [])
            r).0
          ≡ ok (ev ∷ []))
        × ((parse_webhook
              (("midtrans", with_midtrans c key a) ∷ ("xendit", with_xendit c token b) ∷ [])
              r).0
            ≡ err (other "orchestrator: unable to parse webhook across candidate adapters"))
  unfolding parse_webhook parse_midtrans parse_xendit read_midtrans read_xendit verify_signature
  parse_webhook-order n empty ev m unsigned x t e = (
    asked-accepts "xendit" (with_xendit c token b) (("midtrans", with_midtrans c key a) ∷ []) r ev
        (ap (λ (p : Parsed × HttpRequest). p.0) (then-eq _ _ t) ∙ e),
    ap (λ (p : Parsed × HttpRequest). p.0)
        (asked-refuses "midtrans" (with_midtrans c key a) (("xendit", with_xendit c token b) ∷ []) r
            r' invalid_signature
            (ap (λ (d : Result String MidtransNotification). (read_midtrans c key d, r')) m
              ∙ ap (λ (p : Parsed). (p, r')) (else-eq _ _ (then-eq _ _ unsigned)))
          ∙ asked-refuses "xendit" (with_xendit c token b) [] r' r'
              (other ("xendit: cannot parse callback: " +++ empty))
              (then-eq _ _ t
                ∙ ap (λ (d : Result String InvoiceCallback). (read_xendit c d, r')) x)),
  )
    where
      r' : HttpRequest
      r' = record r { body = "" }
