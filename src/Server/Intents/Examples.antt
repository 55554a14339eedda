-- ===== src/Server/Intents/Examples.antt =====
-- A payment of 10000 that the processor fails.
use payrouter.Prelude.{ℕ, ◌+◌, String, [], ◌∷◌, lookup, none, some, ok, err, Dict, inl, refl, false}
use payrouter.Gateway.{Gateway, other}
use payrouter.GoLib.Strconv.{parse_int}
use payrouter.GoLib.Strings.{to_lower}
use payrouter.Server.Refunds.{post_form_value, non_negative}
use payrouter.Postgres.Intents.{fits_char}
use payrouter.Postgres.Intents.Writes.{Stands}
use payrouter.Server.Intents.{State, Context, new_intent, create_payment_intent}
use payrouter.Server.Intents.Recorded.{create_payment_intent-Stands}

abbrev failing : Gateway ℕ
failing = record {
  name = "midtrans";
  create_payment = λ i w. (err (other "midtrans: charge failed"), w + 1);
  get_status = λ ref w. (ok none, w + 1);
  refund = λ i w. (ok none, w + 1);
  parse_webhook = λ r. (ok [], r);
}

abbrev context : Context
context = record {
  account_id = "acct";
  command_id = "pi_1";
  secret_id = "1";
  payment_method_types = [];
  metadata = [];
  now = 100;
  livemode = false;
  active_gateway = "midtrans";
}

abbrev form : Dict String
form = ("amount", "10000") ∷ ("currency", "IDR") ∷ []

abbrev start : State ℕ
start = record { intents = []; attempts = []; transitions = []; world = 0 }

create_payment_intent-Stands_example :
    Stands "acct" "pi_1" 10000 "canceled"
      (create_payment_intent failing context (some form) start).1.intents
unfolding lookup non_negative parse_int post_form_value new_intent fits_char to_lower
create_payment_intent-Stands_example =
    create_payment_intent-Stands failing context form start 10000 refl refl (inl refl)
