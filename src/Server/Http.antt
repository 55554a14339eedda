-- ===== src/Server/Http.antt =====
-- internal/server/server.go: requests and responses, errors in Stripe's shape, auth, readiness and the
-- ids of commands. SHA-256, the parser and encoder of forms, the JSON encoder and the random ids are
-- parameters; a sequence of bytes is a text of characters below 256.
use payrouter.Prelude.{
  ℕ, String, not, Bool, ◌&&◌, ◌||◌, Option, none, some, List, [], ◌∷◌, ◌++◌, take, Result, ok, err,
  Dict, is_empty, has_prefix, ◌==◌, ◌+++◌, if◌then◌else◌,
}
use payrouter.GoLib.Strings.{bytes_of, drop_chars}
use payrouter.GoLib.Hex.{encode}

-- What a handler reads of a request. The account is that of the context; a body that cannot be read is
-- `none`.
pub record Request : Type 0 where
  pub method : String
  pub path : String
  pub account_id : String
  pub authorization : String
  pub idempotency_key : String
  pub body : Option String

pub record Response : Type 0 where
  pub status : ℕ
  pub header : Dict String
  pub body : String

pub record Libraries : Type 0 where
  pub sha256 : String → String
  pub canonical_form : String → Option String
  pub encode_error : String → String → String → String

-- strings.Contains
unfoldable pub contains : String → String → Bool
contains String.[] part = is_empty part
contains (String.◌∷◌ c s) part = has_prefix (String.◌∷◌ c s) part || contains s part

unfoldable pub stripe_error_type : String → String
unfolding contains
stripe_error_type error_code =
    if contains error_code "auth"
    then "authentication_error"
    else if contains error_code "invalid"
        || contains error_code "missing"
        || contains error_code "param"
    then "invalid_request_error"
    else "api_error"

module _ (lib : Libraries) where
  -- writeJSON and writeStripeError
  unfoldable pub write_stripe_error : ℕ → String → String → Response
  unfolding stripe_error_type
  write_stripe_error status error_code message = record {
    status = status;
    header = ("Content-Type", "application/json") ∷ [];
    body = lib.encode_error (stripe_error_type error_code) error_code message;
  }

  unfoldable pub unauthorized : String → Response
  unfolding write_stripe_error
  unauthorized message = write_stripe_error 401 "authentication_required" message

  -- Whose request this is: by the resolver of a durable store, or by the configured key.
  unfoldable pub resolve_account : Option (String → Option String) → String → String → Option String
  resolve_account none api_key token = if token == api_key then some "" else none
  resolve_account (some resolve) api_key token = resolve token

  -- auth, up to the handler that it lets through
  unfoldable pub auth : Option (String → Option String) → String → Request → Result Response Request
  unfolding unauthorized resolve_account drop_chars
  auth keys api_key r =
      let resolved = resolve_account keys api_key (drop_chars 7 r.authorization) in
      if not (has_prefix r.authorization "Bearer ")
      then err (unauthorized "Missing or malformed Authorization header.")
      else elim resolved [
        | none ↦ err (unauthorized "Invalid API Key provided.")
        | some account ↦ ok (record r { account_id = account })
      ]

  -- commandID, for the key of the context and a fresh random id
  unfoldable pub command_id : String → String → String → String → String → String
  unfolding bytes_of
  command_id account key random prefix operation =
      if is_empty key
      then prefix +++ random
      else prefix
        +++ encode
            (take 12 (bytes_of (lib.sha256 (account +++ "\n" +++ operation +++ "\n" +++ key))))

-- formBool
unfoldable pub form_bool : String → Bool → Bool
form_bool v default = if is_empty v then default else v == "true"

-- The problems that healthReady reports; it answers 503 if there are any, else 200.
unfoldable pub readiness_problems : String → String → String → Bool → List String
readiness_problems api_key active_gateway app_env signing_secret_auto =
    (if is_empty api_key then "api_key_missing" ∷ [] else [])
    ++ (if is_empty active_gateway then "gateway_not_configured" ∷ [] else [])
    ++ (if app_env == "production" && signing_secret_auto
        then "signing_secret_auto_in_production" ∷ []
        else [])

unfoldable pub health_ready_status : List String → ℕ
health_ready_status [] = 200
health_ready_status (p ∷ problems) = 503
