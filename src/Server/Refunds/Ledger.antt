-- ===== src/Server/Refunds/Ledger.antt =====
-- internal/server/refund.go: what createRefund does to the refunds of an intent.
use payrouter.Prelude.{String, none, some, lookup, Result, ◌≡◌, ◌⊎◌}
use payrouter.Gateway.{Gateway}
use payrouter.Store.Types.{Refund}
use payrouter.Postgres.Refunds.{Tables, RefundError, pending, succeeded, write_refund}

-- A refund stands under the id, and it is reserved.
abbrev pub Open : String → Tables → Type 0
Open id t =
    (old : Refund) × (lookup id t.refunds ≡ some old)
    × ((old.status ≡ pending) ⊎ (old.status ≡ succeeded))

abbrev Outcome : Type 0
Outcome = Result RefundError Refund × Tables

-- How a reservation is granted: by the row that is there, or by a write.
abbrev Grant : Refund → Refund → Tables → Tables → Type 0
Grant rf done t t' =
    (done.id ≡ rf.id)
    × (((t' ≡ t) × ((old : Refund) × (lookup rf.id t.refunds ≡ some old)))
        ⊎ ((t' ≡ write_refund done t) × (done.status ≡ pending)))

-- No refund stands under the id, or a reserved one.
abbrev pub Resumable : String → Tables → Type 0
Resumable id t = (lookup id t.refunds ≡ none) ⊎ Open id t
