-- ===== src/Webhook/Deliverer.antt =====
-- internal/webhook/deliverer.go over the in-memory queue. The merchant's endpoint is a parameter that
-- answers the n-th POST; the loop of DeliverOnce runs on fuel.
pub mod Drain
use mathlib.Core.List
use payrouter.Prelude.{
  ℕ, zero, suc, ◌+◌, String, Bool, true, false, ◌&&◌, Option, none, some, List, [], ◌∷◌, get_elem?,
  length, eqb, ltb, leb, is_empty, ◌==◌, ◌+++◌, if◌then◌else◌,
}
use payrouter.GoLib.Int64.{ℤ, pos}
use payrouter.GoLib.Strconv.{format_int}
use payrouter.Webhook.Signer.{sign}
use payrouter.Store.Types.{WebhookDelivery, Memory}
use payrouter.Store.Queue.{lease_due_webhook, complete_webhook}

pub record Request : Type 0 where
  pub url : String
  pub content_type : String
  pub stripe_signature : String
  pub user_agent : String
  pub body : String

-- What `client.Do` gives back: a transport error, or a status code.
pub data Reply : Type 0 where
  failed : String → Reply
  status_code : ℕ → Reply

-- What lies outside: HMAC-SHA256, the error of http.NewRequest on a URL, the n-th POST, the clock at
-- its n-th reading.
pub record Outside : Type 0 where
  pub hmac : String → String → List ℕ
  pub url_error : String → Option String
  pub post : ℕ → Request → Reply
  pub clock : ℕ → ℕ

-- The fields of the Deliverer that a drain reads.
pub record Deliverer : Type 0 where
  pub url : String
  pub secret : String
  pub max_attempts : ℕ
  pub backoff : ℕ → ℕ → ℕ

abbrev delays : List ℕ
delays = 0 ∷ 30 ∷ 120 ∷ 600 ∷ 1800 ∷ []

or_zero : Option ℕ → ℕ
or_zero none = 0
or_zero (some n) = n

-- defaultBackoff; a negative count of attempts does not arise
unfoldable pub default_backoff : ℕ → ℕ → ℕ
unfolding or_zero
default_backoff attempts now =
    let i = (if leb 5 attempts then 4 else attempts) in now + or_zero (get_elem? delays i)

-- New, with production defaults
unfoldable pub new_deliverer : String → String → Deliverer
new_deliverer url secret = record {
  url = url;
  secret = secret;
  max_attempts = 5;
  backoff = default_backoff;
}

judge : Reply → Bool × String
judge (failed e) = (false, e)
judge (status_code c) =
    if leb 200 c && ltb c 300
    then (true, "")
    else (false, "merchant returned HTTP " +++ format_int (pos c))

module _ (out : Outside) (d : Deliverer) where
  -- deliverPayload, the n-th of this drain
  unfoldable pub deliver_payload : ℕ → String → Bool × String
  unfolding judge
  deliver_payload n payload = elim (out.url_error d.url) [
    | some e ↦ (false, "bad endpoint url: " +++ e)
    | none ↦ judge (
        out.post n (record {
          url = d.url;
          content_type = "application/json";
          stripe_signature = sign out.hmac payload d.secret (pos (out.clock n));
          user_agent = "stripe-compatible-facade/1.0";
          body = payload;
        }))
  ]

  -- The body of the loop: one leased delivery is posted and completed.
  unfoldable pub attempt : ℕ → ℕ → WebhookDelivery → Memory → Memory
  attempt now n dlv m =
      let (ok, error) = deliver_payload n dlv.payload in
      complete_webhook dlv.id ok error (d.backoff dlv.attempts now) d.max_attempts m

  -- The loop; `none` means that the fuel ran out.
  unfoldable pub drain : ℕ → ℕ → ℕ → Memory → Option (ℕ × Memory)
  drain zero now n m = none
  drain (suc fuel) now n m =
      let (leased, m') = lease_due_webhook now m in
      elim leased [ none ↦ some (n, m') | some dlv ↦ drain fuel now (n + 1) (attempt now n dlv m') ]

  -- DeliverOnce on the in-memory store: how many deliveries were attempted, and the store after.
  unfoldable pub deliver_once : ℕ → ℕ → Memory → Option (ℕ × Memory)
  deliver_once fuel now m =
      let rest = drain fuel now 0 m in if is_empty d.url then some (0, m) else rest
