-- ===== src/Server/Idempotency/Examples.antt =====
-- A payment that is asked for twice with one Idempotency-Key.
use payrouter.Prelude.{ℕ, ◌+◌, String, some, List, [], ◌∷◌, err, ◌≡◌, refl, arith, eq_iff, ◌+++◌}
use payrouter.Server.Http.{Request, Libraries}
use payrouter.Server.Idempotency.{request_hash, canonical}
use payrouter.Server.Idempotency.Replay.{
  Handler, Replays, idempotency-Replays, Conflicts, idempotency-Conflicts,
}
use payrouter.Postgres.Rows.{find_first}
use payrouter.Postgres.Idempotency.{
  IdempotencyRecord, in_progress, Scope, claimed_record, ownership, claim_idempotency,
}
use payrouter.Postgres.Idempotency.Records.{Command, run}
use payrouter.Postgres.Idempotency.Leases.{
  claim_idempotency-exclusive, Overtaken, complete_idempotency-Overtaken,
}

-- A digest that keeps its text, and forms that are canonical as they are.
abbrev libraries : Libraries
libraries = record {
  sha256 = λ s. s;
  canonical_form = λ s. some s;
  encode_error = λ type code message. code +++ message;
}

abbrev asking : String → Request
asking body = record {
  method = "POST";
  path = "/v1/payment_intents";
  account_id = "acct";
  authorization = "Bearer sk_test_1";
  idempotency_key = "order-7";
  body = some body;
}

-- A handler that counts the payments it made.
abbrev paying : Handler ℕ
paying key r n = (record { status = 200; header = []; body = "pi_1" }, n + 1)

abbrev scope : Scope
scope = record { account_id = "acct"; operation = "payment_intents.create"; key = "order-7" }

abbrev digest : String
digest = "POST\n/v1/payment_intents\namount=10000"

abbrev just_claimed : List IdempotencyRecord
just_claimed = claimed_record scope digest 100 ∷ []

-- Another account uses the same key in between.
abbrev others : List Command
others =
    Command.claim (record { account_id = "acct_2"; operation = "refunds.create"; key = "order-7" })
      "x" 101
    ∷ Command.fail scope
    ∷ []

idempotency-Replays_example :
    Replays libraries "payment_intents.create" paying paying 100 200
      (asking "amount=10000")
      (asking "amount=10000")
      []
      others
      0
      1
unfolding run find_first claim_idempotency request_hash canonical
idempotency-Replays_example =
    idempotency-Replays libraries "payment_intents.create" paying paying 100 200
      (asking "amount=10000") (asking "amount=10000") "amount=10000" "amount=10000" [] others 0 1
      ownership just_claimed (refl, refl) refl refl refl (refl, refl) refl refl

idempotency-Conflicts_example :
    Conflicts libraries "payment_intents.create" paying paying 100 200
      (asking "amount=10000")
      (asking "amount=90000")
      []
      others
      0
      1
unfolding run find_first claim_idempotency request_hash canonical
idempotency-Conflicts_example =
    idempotency-Conflicts libraries "payment_intents.create" paying paying 100 200
      (asking "amount=10000") (asking "amount=90000") "amount=10000" "amount=90000" [] others 0 1
      ownership just_claimed (refl, refl) refl refl refl (refl, refl) refl
      (λ e. ground (arith, e, eq_iff digest "POST\n/v1/payment_intents\namount=90000"))

claim_idempotency-exclusive_example :
    claim_idempotency scope digest 130 just_claimed ≡ (err in_progress, just_claimed)
unfolding run find_first claim_idempotency
claim_idempotency-exclusive_example =
    claim_idempotency-exclusive [] scope digest 100 130 ownership just_claimed refl refl
      (omega arith)

complete_idempotency-Overtaken_example :
    Overtaken scope digest 131 200 200 "pi_1" "pi_2" just_claimed
unfolding run find_first claim_idempotency
complete_idempotency-Overtaken_example =
    complete_idempotency-Overtaken [] scope digest 100 131 200 200 "pi_1" "pi_2" ownership
      just_claimed refl refl (omega arith)
