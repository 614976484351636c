-- ===== src/Outbox/Worker.antt =====
-- The workers of internal/auth/workers/outbox and of internal/notification/workers/outbox. A batch's
-- goroutines each run `ProcessEvent` and then append to a list under a lock; `arrange` is the order
-- in which they do. (`Concurrency` bounds how many run at a time, not this order.)
use mini_wallet.Base.{ℕ, List, [], ◌∷◌, ◌++◌}
use mini_wallet.Sql.{World, Result, ok, err, Action}
use mini_wallet.Outbox.Table.{OutboxEvent, Store}
use mini_wallet.Outbox.Service.{
  claim_outbox_events, recover_stale_events, mark_events_processed, mark_events_failed,
}

-- The lists `processed` and `failed`.
pub record Outcome : Type 0 where
  pub processed : List ℕ
  pub failed : List ℕ

abbrev pub noted : ℕ → Result (Unit {0}) → Outcome → Outcome
noted id (ok _) o = record o { processed = o.processed ++ id ∷ [] }
noted id (err _) o = record o { failed = o.failed ++ id ∷ [] }

module _ {D : Type 0} (s : Store D) (process_event : OutboxEvent → Action D (Unit {0}))
    (arrange : List OutboxEvent → List OutboxEvent) where
  unfoldable pub process_all : List OutboxEvent → Outcome → World D → Outcome × World D
  process_all [] o w = (o, w)
  process_all (e ∷ es) o w =
      let (r, w') = process_event e w in process_all es (noted e.event_id r o) w'

  unfoldable pub mark_outcome : Outcome × World D → World D
  mark_outcome (o, w) =
      let (_, w₁) = mark_events_processed s o.processed w in
      let (_, w₂) = mark_events_failed s o.failed w₁ in w₂

  unfoldable pub process_claimed : Result (List OutboxEvent) × World D → World D
  unfolding mark_outcome process_all
  process_claimed (err e, w) = w
  process_claimed (ok [], w) = w
  process_claimed (ok (e ∷ es), w) =
      mark_outcome (process_all (arrange (e ∷ es)) (record { processed = []; failed = [] }) w)

  unfoldable pub process_batch : ℕ → ℕ → World D → World D
  unfolding process_claimed
  process_batch batch_size lock_timeout w =
      process_claimed (claim_outbox_events s batch_size lock_timeout w)

-- What a tick sets off, at the time it comes: a batch, whose goroutines come to append in some
-- order, or the recovery of stale events.
pub data Tick : Type 0 where
  batch_due : ℕ → (List OutboxEvent → List OutboxEvent) → Tick
  recovery_due : ℕ → Tick

-- `Start` and `runRecovery`: the ticks that come before `ctx.Done()`. One tick is followed at a
-- time: a recovery comes between two batches and not inside of one.
module _ {D : Type 0} (s : Store D) (process_event : OutboxEvent → Action D (Unit {0}))
    (batch_size lock_timeout : ℕ) where
  unfoldable pub on_tick : Tick → World D → World D
  on_tick (batch_due at arrange) w =
      process_batch s process_event arrange batch_size lock_timeout (record w { now = at })
  on_tick (recovery_due at) w = let (_, w') = recover_stale_events s (record w { now = at }) in w'

  unfoldable pub start : List Tick → World D → World D
  unfolding on_tick
  start [] w = w
  start (t ∷ ts) w = start ts (on_tick t w)
