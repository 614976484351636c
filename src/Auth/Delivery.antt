-- ===== src/Auth/Delivery.antt =====
-- The auth service's outbox worker (internal/auth/workers/outbox) on its outbox.
use mini_wallet.Base.{ℕ, List, All}
use mini_wallet.Sql.{World}
use mini_wallet.Outbox.Worker.{Tick, start}
use mini_wallet.Outbox.Soundness.{Sound}
use mini_wallet.Outbox.Running.{Arranges, start-Sound}
use mini_wallet.Auth.Tables.{Db, store}
use mini_wallet.Auth.Outbox.{process_event, publishes}

-- A worker, whichever batches and recoveries its tickers set off, in whatever order the goroutines of
-- a batch process its events and whichever calls fail, keeps this: the ids of the events are a key of
-- the table, and every event that is marked as processed was taken by its publisher, with its
-- payload, or is of a type that is not published.
pub start-publishes :
    (batch_size lock_timeout : ℕ) (ts : List Tick) (w : World Db)
    → All Arranges ts
    → Sound store process_event publishes w.db
    → Sound store process_event publishes
        (start store process_event batch_size lock_timeout ts w).db
start-publishes = start-Sound store process_event publishes
