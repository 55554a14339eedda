-- ===== src/Postgres/Accounts.antt =====
-- internal/storepg/store.go and seed.go: accounts and hashed API keys. The lookup is the function
-- resolve_api_key of migrations/0001_accounts_api_keys.sql, the uniqueness of a hash that of
-- migrations/0007_phase5a_hardening.sql. SHA-256 is a parameter that gives a text of bytes.
pub mod Keys
pub mod Examples
use Prim.Native.String
use payrouter.Prelude.{
  ℕ, String, code, Bool, true, false, ◌&&◌, Option, none, some, List, [], ◌∷◌, ◌++◌, take, Result,
  ok, err, is_empty, has_prefix, ◌+++◌, ◌==◌, ◌>>◌, if◌then◌else◌,
}
use payrouter.GoLib.Strings.{bytes_of}
use payrouter.GoLib.Hex.{encode}
use payrouter.Postgres.Rows.{find_first, update_where}

pub record ApiKey : Type 0 where
  pub id : String
  pub account_id : String
  pub key_prefix : String
  pub key_hash : String
  pub last_used_at : Option ℕ
  pub revoked_at : Option ℕ

pub record Account : Type 0 where
  pub id : String
  pub livemode : Bool

pub record Accounts : Type 0 where
  pub accounts : List Account
  pub api_keys : List ApiKey

-- `missing_account` is the foreign key of api_keys.
pub data KeyError : Type 0 where
  unknown_api_key other_account missing_account : KeyError

-- HashAPIKey: the hash, and the searchable prefix
unfoldable pub hash_api_key : (String → String) → String → String × String
unfolding bytes_of
hash_api_key sha256 secret = let sum = sha256 secret in (sum, encode (take 6 (bytes_of sum)))

-- EnsureAccount; `ON CONFLICT DO NOTHING`
unfoldable pub ensure_account : String → Bool → Accounts → Accounts
unfolding find_first
ensure_account account_id livemode t = elim (find_first (λ a. a.id == account_id) t.accounts) [
  | some a ↦ t
  | none ↦ record t { accounts = (record { id = account_id; livemode = livemode }) ∷ t.accounts }
]

unfoldable pub has_hash : String → ApiKey → Bool
has_hash hash row = row.key_hash == hash

unfoldable pub new_key : String → String → String → ApiKey
unfolding bytes_of
new_key account_id key_prefix key_hash = record {
  id = "key_" +++ encode (bytes_of key_hash);
  account_id = account_id;
  key_prefix = key_prefix;
  key_hash = key_hash;
  last_used_at = none;
  revoked_at = none;
}

-- The SELECT after the INSERT: who owns the hash.
unfoldable pub check_owner : String → ApiKey → Result KeyError (Unit {0})
check_owner account_id row = if row.account_id == account_id then ok tt else err other_account

-- EnsureAPIKey; `ON CONFLICT (key_hash) DO NOTHING`
unfoldable pub ensure_api_key :
    String → String → String → Accounts → Result KeyError (Unit {0}) × Accounts
unfolding find_first has_hash new_key check_owner
ensure_api_key account_id key_prefix key_hash t = elim (find_first (has_hash key_hash) t.api_keys) [
  | some row ↦ (check_owner account_id row, t)
  | none ↦ elim (find_first (λ a. a.id == account_id) t.accounts) [
    | none ↦ (err missing_account, t)
    | some a ↦ (ok tt, record t { api_keys = new_key account_id key_prefix key_hash ∷ t.api_keys })
  ]
]

is_active_at : Option ℕ → Bool
is_active_at none = true
is_active_at (some t) = false

-- `WHERE key_hash = candidate_hash AND revoked_at IS NULL`
unfoldable pub is_active : String → ApiKey → Bool
unfolding is_active_at has_hash
is_active hash row = has_hash hash row && is_active_at row.revoked_at

unfoldable pub touched : ℕ → ApiKey → ApiKey
touched now row = record row { last_used_at = some now }

-- ResolveAPIKey
unfoldable pub resolve_api_key :
    (String → String) → String → ℕ → Accounts → Result KeyError String × Accounts
unfolding find_first update_where is_active touched
resolve_api_key sha256 secret now t =
    let touch : Accounts = record t {
      api_keys = update_where (is_active (sha256 secret)) (touched now) t.api_keys;
    } in
    elim (find_first (is_active (sha256 secret)) t.api_keys) [
      | none ↦ (err unknown_api_key, t)
      | some row ↦
          if is_empty row.account_id
          then (err unknown_api_key, touch)
          else (ok row.account_id, touch)
    ]

-- SeedDefaultAccount
unfoldable pub seed_default_account :
    (String → String) → String → Accounts → Result KeyError (Unit {0}) × Accounts
unfolding ensure_account ensure_api_key hash_api_key
seed_default_account sha256 secret t =
    let (hash, key_prefix) = hash_api_key sha256 secret in
    ensure_api_key "acc_default" key_prefix hash
      (ensure_account "acc_default" (has_prefix secret "sk_live_") t)
