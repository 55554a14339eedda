-- ===== src/Webhook/Durable/Examples.antt =====
-- A drain of the outbox with two due events and a merchant that refuses the first POST.
use payrouter.Prelude.{List, ◌+◌, ◌*◌, String, [], ◌∷◌, none, some, eqb, refl, arith, if◌then◌else◌}
use payrouter.Webhook.Deliverer.{Outside, Deliverer, status_code, new_deliverer}
use payrouter.Webhook.Durable.{Session, attempts_limit}
use payrouter.Webhook.Durable.Drain.{DurablyDrains, deliver_once_durable-DurablyDrains}
use payrouter.Postgres.Rows.{find_first}
use payrouter.Postgres.Outbound.{OutboundEvent, get_outbound, enqueued_row, enqueue_outbound}
use payrouter.Postgres.Outbound.Calls.{Command, run, exec}

abbrev waiting : String → OutboundEvent
waiting id = record {
  id = id;
  account_id = "acct";
  type = "payment_intent.succeeded";
  reference = "pi_1";
  payload = "{}";
  status = "pending";
  attempts = 0;
  max_attempts = 5;
  next_attempt_at = some 100;
  last_error = "";
  claim_token = none;
  claimed_until = none;
  created = 100;
  created_at = 100;
  delivered_at = none;
}

abbrev refusing_first : Outside
refusing_first = record {
  hmac = λ key message. 171 ∷ 7 ∷ [];
  url_error = λ u. none;
  post = λ n r. status_code (if eqb n 0 then 500 else 200);
  clock = λ n. 110 + n;
}

abbrev session : Session
session = record {
  token = λ n. if eqb n 0 then "t0" else "t1";
  lease_time = λ n. 110 + 20 * n;
  complete_time = λ n. 115 + 20 * n;
  posted_time = λ n. 114 + 20 * n;
}

abbrev shop : Deliverer
shop = new_deliverer "https://shop.example/hook" "whsec_1"

abbrev filling : List Command
filling = Command.enqueue 100 (waiting "evt_1") ∷ Command.enqueue 101 (waiting "evt_2") ∷ []

deliver_once_durable-DurablyDrains_example :
    DurablyDrains refusing_first shop session 11 (run filling [])
unfolding new_deliverer run exec enqueue_outbound enqueued_row get_outbound find_first
    attempts_limit
deliver_once_durable-DurablyDrains_example =
    deliver_once_durable-DurablyDrains refusing_first shop session 11 filling (omega arith) refl
      (omega arith)
