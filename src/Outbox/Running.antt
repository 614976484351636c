-- ===== src/Outbox/Running.antt =====
-- The outbox worker as its tickers drive it (`Start` and `runRecovery` of internal/auth/workers/outbox
-- and of internal/notification/workers/outbox).
use mini_wallet.Base.{ℕ, List, [], ◌∷◌, All, refl}
use mini_wallet.Sql.{World, Action, pure, at_now}
use mini_wallet.Sql.Calls.{exec-db, or_else-db, bind-db, then-db, call-db}
use mini_wallet.Outbox.Table.{OutboxEvent, Store}
use mini_wallet.Outbox.Repository
use mini_wallet.Outbox.Repository.{counting, is_stale, released}
use mini_wallet.Outbox.Service
use mini_wallet.Outbox.Worker.{Tick, batch_due, recovery_due, on_tick, start}
use mini_wallet.Outbox.Soundness.{Publishes, Sound, update-Sound}
use mini_wallet.Outbox.Processed.{process_batch-Sound}

-- A batch arranges the events it has claimed and brings in no others.
abbrev pub Arranges : Tick → Type 1
Arranges (batch_due at arrange) =
    (P : OutboxEvent → Type 0) (es : List OutboxEvent) → All P es → All P (arrange es)
Arranges (recovery_due at) = Unit

module _ {D : Type 0} (s : Store D) (process_event : OutboxEvent → Action D (Unit {0}))
    (p : Publishes s process_event) where
  open s use {rows}

  -- Recovery marks no event as processed.
  recover_stale_events-Sound :
      (w : World D)
      → Sound s process_event p w.db
      → Sound s process_event p (Service.recover_stale_events s w).1.db
  unfolding Service.recover_stale_events Repository.recover_stale_outbox_events at_now pure
  recover_stale_events-Sound w h = or_else-db kept _ _ w (
      bind-db kept _ _ w
        (or_else-db kept _ _ w (
          exec-db kept (counting s (is_stale w.now) released) w h (
            update-Sound s process_event p (is_stale w.now) released w.db (λ e. (refl, refl))
              (λ k x old hit done. cc) h)))
        λ _ w₁ h₁. then-db kept _ _ w₁ (or_else-db kept _ _ w₁ (call-db kept w₁ h₁)) λ w₂ h₂. h₂)
    where
      kept : D → Type 0
      kept = Sound s process_event p

  module _ (batch_size lock_timeout : ℕ) where
    on_tick-Sound :
        (t : Tick) (w : World D)
        → Arranges t
        → Sound s process_event p w.db
        → Sound s process_event p (on_tick s process_event batch_size lock_timeout t w).db
    unfolding on_tick
    on_tick-Sound (batch_due at arrange) w arranges h =
        process_batch-Sound s process_event p arrange arranges batch_size lock_timeout
          (record w { now = at }) h
    on_tick-Sound (recovery_due at) w _ h = recover_stale_events-Sound (record w { now = at }) h

    -- A worker, whichever ticks come and whichever calls fail, keeps the outbox sound.
    pub start-Sound :
        (ts : List Tick) (w : World D)
        → All Arranges ts
        → Sound s process_event p w.db
        → Sound s process_event p (start s process_event batch_size lock_timeout ts w).db
    unfolding start
    start-Sound [] w _ h = h
    start-Sound (t ∷ ts) w a h = start-Sound ts _ a.1 (on_tick-Sound t w a.0 h)
