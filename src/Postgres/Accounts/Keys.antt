-- ===== src/Postgres/Accounts/Keys.antt =====
-- internal/storepg/store.go and seed.go: whom a secret lets in.
use payrouter.Prelude.{
  ℕ, String, Bool, true, false, none, some, ◌∷◌, Result, ok, err, is_empty, ◌==◌, ◌≡◌, ◌≢◌, refl,
  sym, ap, ◌∙◌, inl, inr, arith, eq_iff, eq_refl, Bool-cases, Option-cases, then-eq, else-eq,
  has_prefix,
}
use payrouter.Postgres.Rows.{find_first}
use payrouter.Postgres.Accounts.{
  ApiKey, Account, Accounts, KeyError, hash_api_key, ensure_account, has_hash, new_key,
  is_active_at, unknown_api_key, ensure_api_key, is_active, resolve_api_key, seed_default_account,
}

own-hash :
    (account_id key_prefix hash : String)
    → is_active hash (new_key account_id key_prefix hash) ≡ true
unfolding is_active is_active_at has_hash new_key
own-hash account_id key_prefix hash = ground (arith, eq_refl hash)

known_account :
    (livemode : Bool) (id : String) (t : Accounts)
    → (a : Account) × (find_first (λ a. a.id == id) (ensure_account id livemode t).accounts
        ≡ some a)
unfolding ensure_account find_first
known_account livemode id t = elim (Option-cases (find_first (λ a. a.id == id) t.accounts)) [
  | inr (a, e) ↦ (a, rw (e, ensure_account) e)
  | inl e ↦
      (record { id = id; livemode = livemode }, rw (e, ensure_account) (then-eq _ _ (eq_refl id)))
]

same_keys :
    (livemode : Bool) (id : String) (t : Accounts)
    → (ensure_account id livemode t).api_keys ≡ t.api_keys
unfolding ensure_account
same_keys livemode id t = elim (Option-cases (find_first (λ a. a.id == id) t.accounts)) [
  | inr (a, e) ↦ rw (e, ensure_account) refl
  | inl e ↦ rw (e, ensure_account) refl
]

new-key :
    (account_id key_prefix hash : String) (t : Accounts) (a : Account)
    → find_first (has_hash hash) t.api_keys ≡ none
    → find_first (λ a. a.id == account_id) t.accounts ≡ some a
    → ensure_api_key account_id key_prefix hash t
      ≡ (ok tt, record t { api_keys = new_key account_id key_prefix hash ∷ t.api_keys })
unfolding ensure_api_key
new-key account_id key_prefix hash t a e known =
    rw (e, ensure_api_key) (rw (known, ensure_api_key) refl)

resolve-new :
    (sha256 : String → String) (secret : String) (now : ℕ) (row : ApiKey) (t : Accounts)
    → find_first (is_active (sha256 secret)) t.api_keys ≡ some row
    → is_empty row.account_id ≡ false
    → (resolve_api_key sha256 secret now t).0 ≡ ok row.account_id
unfolding resolve_api_key
resolve-new sha256 secret now row t found named =
    rw (found, resolve_api_key) (rw (named, resolve_api_key) refl)

resolve-none :
    (sha256 : String → String) (secret : String) (now : ℕ) (t : Accounts)
    → find_first (is_active (sha256 secret)) t.api_keys ≡ none
    → (resolve_api_key sha256 secret now t).0 ≡ err unknown_api_key
unfolding resolve_api_key
resolve-none sha256 secret now t missing = rw (missing, resolve_api_key) refl

resolve-blank :
    (sha256 : String → String) (secret : String) (now : ℕ) (row : ApiKey) (t : Accounts)
    → find_first (is_active (sha256 secret)) t.api_keys ≡ some row
    → is_empty row.account_id ≡ true
    → (resolve_api_key sha256 secret now t).0 ≡ err unknown_api_key
unfolding resolve_api_key
resolve-blank sha256 secret now row t found blank =
    rw (found, resolve_api_key) (rw (blank, resolve_api_key) refl)

-- What a secret resolves to goes by the first active key with its hash.
resolve-same :
    (sha256 : String → String) (secret : String) (now : ℕ) (t u : Accounts)
    → find_first (is_active (sha256 secret)) t.api_keys
      ≡ find_first (is_active (sha256 secret)) u.api_keys
    → (resolve_api_key sha256 secret now t).0 ≡ (resolve_api_key sha256 secret now u).0
resolve-same sha256 secret now t u same =
    elim (Option-cases (find_first (is_active (sha256 secret)) t.api_keys)) [
      | inl e ↦
          resolve-none sha256 secret now t e ∙ sym (resolve-none sha256 secret now u (sym same ∙ e))
      | inr (row, e) ↦ elim (Bool-cases (is_empty row.account_id)) [
        | inl b ↦
            resolve-blank sha256 secret now row t e b
            ∙ sym (resolve-blank sha256 secret now row u (sym same ∙ e) b)
        | inr b ↦
            resolve-new sha256 secret now row t e b
            ∙ sym (resolve-new sha256 secret now row u (sym same ∙ e) b)
      ]
    ]

owner :
    (key_prefix hash : String) → (new_key "acc_default" key_prefix hash).account_id ≡ "acc_default"
unfolding new_key
owner key_prefix hash = refl

named :
    (key_prefix hash : String) → is_empty (new_key "acc_default" key_prefix hash).account_id ≡ false
unfolding new_key
named key_prefix hash = refl

other-hash :
    (account_id key_prefix hash other : String)
    → hash ≢ other
    → is_active other (new_key account_id key_prefix hash) ≡ false
unfolding is_active is_active_at has_hash new_key
other-hash account_id key_prefix hash other n = ground (arith, eq_iff hash other)

-- What seeding a secret is to do, for it and for another secret.
abbrev pub Seeded : (String → String) → String → String → ℕ → Accounts → Type 0
Seeded sha256 secret other now t =
    let t' = (seed_default_account sha256 secret t).1 in
    ((seed_default_account sha256 secret t).0 ≡ ok tt)
    × ((resolve_api_key sha256 secret now t').0 ≡ ok "acc_default")
    × ((resolve_api_key sha256 other now t').0 ≡ (resolve_api_key sha256 other now t).0)

-- SeedDefaultAccount with a secret whose hash no key has yet succeeds; from then on the secret resolves
-- to the default account, and a secret with another hash to whatever it did before.
pub seed_default_account-Seeded :
    (sha256 : String → String) (secret other : String) (now : ℕ) (t : Accounts)
    → find_first (has_hash (sha256 secret)) t.api_keys ≡ none
    → sha256 secret ≢ sha256 other
    → Seeded sha256 secret other now t
unfolding seed_default_account hash_api_key find_first
seed_default_account-Seeded sha256 secret other now t fresh differs =
    let livemode = has_prefix secret "sk_live_" in
    let opened = ensure_account "acc_default" livemode t in
    let (a, known) = known_account livemode "acc_default" t in
    let hash = sha256 secret in
    let key_prefix = (hash_api_key sha256 secret).1 in
    let row = new_key "acc_default" key_prefix hash in
    let same = same_keys livemode "acc_default" t in
    let keyed : Accounts = record opened { api_keys = row ∷ opened.api_keys } in
    let made =
      new-key "acc_default" key_prefix hash opened a
        (ap (λ rows. find_first (has_hash hash) rows) same ∙ fresh) known in
    (
      ap (λ (x : Result KeyError (Unit {0}) × Accounts). x.0) made,
      ap (λ (x : Result KeyError (Unit {0}) × Accounts). (resolve_api_key sha256 secret now x.1).0)
            made
          ∙ resolve-new sha256 secret now row keyed
              (then-eq _ _ (own-hash "acc_default" key_prefix hash)) (named key_prefix hash)
          ∙ ap ok (owner key_prefix hash),
      ap (λ (x : Result KeyError (Unit {0}) × Accounts). (resolve_api_key sha256 other now x.1).0)
            made
          ∙ resolve-same sha256 other now keyed t (
              else-eq _ _ (other-hash "acc_default" key_prefix hash (sha256 other) differs)
              ∙ ap (λ rows. find_first (is_active (sha256 other)) rows) same),
    )
