-- ===== src/Postgres/Intents.antt =====
-- internal/storepg/store.go: WriteIntent, ReadIntent and SetIntentStatus on the table of intents, one row
-- for each id.
pub mod Writes
use Prim.Native.String
use payrouter.Prelude.{
  ℕ, zero, suc, String, Bool, true, false, Option, none, some, List, [], ◌∷◌, Dict, lookup, insert,
}
use payrouter.Store.Types.{PaymentIntent}
use payrouter.Postgres.Refunds.{own_intent}

-- WriteIntent: the account and the time of creation of a row that is there stay.
unfoldable pub merged : PaymentIntent → Option PaymentIntent → PaymentIntent
merged pi none = pi
merged pi (some old) = record pi { account_id = old.account_id; created = old.created }

-- currency char(3)
unfoldable pub fits_char : ℕ → String → Bool
fits_char n String.[] = true
fits_char zero (String.◌∷◌ c s) = false
fits_char (suc n) (String.◌∷◌ c s) = fits_char n s

unfoldable pub write_intent : PaymentIntent → Dict PaymentIntent → Dict PaymentIntent
unfolding merged
write_intent pi intents = insert pi.id (merged pi (lookup pi.id intents)) intents

-- ReadIntent
unfoldable pub read_intent : String → String → Dict PaymentIntent → Option PaymentIntent
unfolding own_intent
read_intent account_id id intents = own_intent account_id (lookup id intents)

-- SetIntentStatus
unfoldable pub set_intent_status :
    String → String → String → String → Dict PaymentIntent → Dict PaymentIntent
unfolding read_intent
set_intent_status account_id id to_status failure_message intents =
    elim (read_intent account_id id intents) [
      | none ↦ intents
      | some pi ↦
          insert id (record pi { status = to_status; failure_message = failure_message }) intents
    ]
