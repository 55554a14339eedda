-- ===== src/Server/Refunds/Examples.antt =====
-- A refund of a part of a payment that the processor fails.
use payrouter.Prelude.{ℕ, ◌+◌, String, [], ◌∷◌, none, ok, err, Dict, false}
use payrouter.Gateway.{Gateway, other}
use payrouter.Postgres.Examples.{unrefunded}
use payrouter.Server.Refunds.{State, Context}

abbrev failing : Gateway ℕ
failing = record {
  name = "midtrans";
  create_payment = λ i w. (ok none, w + 1);
  get_status = λ ref w. (ok none, w + 1);
  refund = λ i w. (err (other "midtrans: refund failed"), w + 1);
  parse_webhook = λ r. (ok [], r);
}

abbrev context : Context
context = record {
  account_id = "acct";
  command_id = "re_1";
  now = 100;
  metadata = [];
  livemode = false;
}

abbrev form : Dict String
form = ("payment_intent", "pi_1") ∷ ("amount", "4000") ∷ ("reason", "duplicate") ∷ []

abbrev start : State ℕ
start = record { tables = unrefunded; attempts = []; world = 0 }
