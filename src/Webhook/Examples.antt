-- ===== src/Webhook/Examples.antt =====
-- The signer and the deliverer at concrete inputs.
use payrouter.Prelude.{
  ℕ, ◌+◌, String, false, List, [], ◌∷◌, none, some, ok, ◌≡◌, refl, arith, inr, insert,
}
use payrouter.GoLib.Int64.{ℤ, pos}
use payrouter.GoLib.Hex.{decode}
use payrouter.Store.Types.{Memory}
use payrouter.Store.Queue.{enqueue_webhook, due_ids, is_due}
use payrouter.Store.Memory.{new_memory}
use payrouter.Store.Invariant.{writes, write, enqueue, new_memory-writes-IsIndexed}
use payrouter.Store.Examples.{delivery}
use payrouter.Webhook.Signer.{sign, verify, parse_signature, is_stale, signed_payload}
use payrouter.Webhook.Signer.RoundTrip.{verify-sign, verify-ok}
use payrouter.Webhook.Deliverer.{Outside, Deliverer, status_code, new_deliverer}
use payrouter.Webhook.Deliverer.Drain.{Drains, deliver_once-Drains, default_backoff-IsLater}

-- A digest of two bytes, whatever the key and the message.
abbrev toy_hmac : String → String → List ℕ
toy_hmac key message = 171 ∷ 7 ∷ []

abbrev merchant : Outside
merchant = record {
  hmac = toy_hmac;
  url_error = λ u. none;
  post = λ n r. status_code 200;
  clock = λ n. 100 + n;
}

abbrev endpoint : Deliverer
endpoint = new_deliverer "https://shop.example/hook" "whsec_1"

abbrev two_waiting : Memory
two_waiting = writes new_memory (enqueue (delivery "evt_b") ∷ enqueue (delivery "evt_a") ∷ [])

verify-sign_example :
    verify toy_hmac "{}" (sign toy_hmac "{}" "whsec_1" (pos 100)) "whsec_1" (pos 200) 300000000000
    ≡ ok tt
verify-sign_example =
    verify-sign toy_hmac "{}" "whsec_1" 100 200 300000000000 (omega arith) (omega arith)
      (omega arith) (λ key message. ground arith) (inr (omega arith))

verify-ok_example :
    (t : ℤ) × (sig : String) × (parse_signature (sign toy_hmac "{}" "whsec_1" (pos 100))
      ≡ some (t, sig))
    × (is_stale 300000000000 (pos 200) t ≡ false)
    × (decode sig ≡ some (toy_hmac "whsec_1" (signed_payload t "{}")))
verify-ok_example =
    verify-ok toy_hmac "{}" (sign toy_hmac "{}" "whsec_1" (pos 100)) "whsec_1" (pos 200)
      300000000000
      (verify-sign toy_hmac "{}" "whsec_1" 100 200 300000000000 (omega arith) (omega arith)
        (omega arith) (λ key message. ground arith) (inr (omega arith)))

deliver_once-Drains_example : Drains merchant endpoint 9 5 two_waiting
unfolding new_deliverer writes write enqueue_webhook insert new_memory due_ids is_due
deliver_once-Drains_example =
    deliver_once-Drains merchant endpoint 9 5 two_waiting default_backoff-IsLater refl
      (new_memory-writes-IsIndexed
        (enqueue (delivery "evt_b") ∷ enqueue (delivery "evt_a") ∷ [])).webhooks_keyed
      (omega arith)
