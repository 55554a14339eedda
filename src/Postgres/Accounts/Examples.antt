-- ===== src/Postgres/Accounts/Examples.antt =====
-- A first start with an API key.
use payrouter.Prelude.{[], arith, eq_iff, refl}
use payrouter.Postgres.Rows.{find_first}
use payrouter.Postgres.Accounts.{Accounts}
use payrouter.Postgres.Accounts.Keys.{Seeded, seed_default_account-Seeded}

abbrev fresh : Accounts
fresh = record { accounts = []; api_keys = [] }

seed_default_account-Seeded_example : Seeded (λ s. s) "sk_test_1" "sk_test_2" 100 fresh
unfolding find_first
seed_default_account-Seeded_example =
    seed_default_account-Seeded (λ s. s) "sk_test_1" "sk_test_2" 100 fresh refl
      (λ e. ground (arith, e, eq_iff "sk_test_1" "sk_test_2"))
