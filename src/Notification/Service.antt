-- ===== src/Notification/Service.antt =====
-- internal/notification/service/event/service.go and internal/notification/service/outbox/service.go
-- (`ProcessEvent`, which decodes the payload and publishes it, is the parameter `process_event`).
use mini_wallet.Base.{ℕ, List}
use mini_wallet.RichError.{report, internal}
use mini_wallet.Sql.{World, Action, or_else}
use mini_wallet.Inbox
use mini_wallet.Outbox
use mini_wallet.Outbox.Worker.{Tick}
use mini_wallet.Outbox.Table.{OutboxEvent}
use mini_wallet.Notification.Tables.{Db, inbox, outbox}
use mini_wallet.Notification.Repository

abbrev pub run_process : ℕ → List ℕ → Action Db (Unit {0})
run_process = Inbox.Service.run_process inbox

abbrev pub mark_sent : ℕ → Action Db (Unit {0})
mark_sent = Inbox.Service.mark_sent inbox

abbrev pub mark_failed : ℕ → Action Db (Unit {0})
mark_failed = Inbox.Service.mark_failed inbox

unfoldable pub insert_outbox_event : OutboxEvent → Action Db (Unit {0})
insert_outbox_event e =
    or_else (Repository.insert_outbox_event e)
      (λ x. report "outbox.InsertOutboxEvent" x "failed to insert outbox event" internal)

unfoldable pub insert_outbox_events : List OutboxEvent → Action Db (Unit {0})
insert_outbox_events es =
    or_else (Repository.insert_outbox_events es)
      (λ x. report "outbox.InsertOutboxEvents" x "failed to insert outbox events" internal)

abbrev pub claim_outbox_events : ℕ → ℕ → Action Db (List OutboxEvent)
claim_outbox_events = Outbox.Service.claim_outbox_events outbox

abbrev pub recover_stale_events : Action Db ℕ
recover_stale_events = Outbox.Service.recover_stale_events outbox

abbrev pub mark_events_processed : List ℕ → Action Db (Unit {0})
mark_events_processed = Outbox.Service.mark_events_processed outbox

abbrev pub mark_events_failed : List ℕ → Action Db (Unit {0})
mark_events_failed = Outbox.Service.mark_events_failed outbox

module _ (process_event : OutboxEvent → Action Db (Unit {0})) where
  abbrev pub process_single_event : ℕ → OutboxEvent → Action Db (Unit {0})
  process_single_event = Outbox.Service.process_single_event outbox process_event

  -- `ProcessBatch` of internal/notification/workers/outbox
  abbrev pub process_batch : (List OutboxEvent → List OutboxEvent) → ℕ → ℕ → World Db → World Db
  process_batch = Outbox.Worker.process_batch outbox process_event

  -- `runRecovery` and `Start` of internal/notification/workers/outbox
  abbrev pub on_tick : ℕ → ℕ → Tick → World Db → World Db
  on_tick = Outbox.Worker.on_tick outbox process_event

  abbrev pub start : ℕ → ℕ → List Tick → World Db → World Db
  start = Outbox.Worker.start outbox process_event
