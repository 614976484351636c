-- ===== src/Notification/Repository.antt =====
-- internal/notification/repository/event.go and outbox.go.
use mini_wallet.Base.{ℕ, List}
use mini_wallet.Sql.{Action}
use mini_wallet.Inbox
use mini_wallet.Outbox
use mini_wallet.Outbox.Table.{OutboxEvent}
use mini_wallet.Notification.Tables.{Db, inbox, outbox}

abbrev pub run_process : ℕ → List ℕ → Action Db (Unit {0})
run_process = Inbox.Repository.run_process inbox

abbrev pub mark_sent : ℕ → Action Db (Unit {0})
mark_sent = Inbox.Repository.mark_sent inbox

abbrev pub mark_failed : ℕ → Action Db (Unit {0})
mark_failed = Inbox.Repository.mark_failed inbox

abbrev pub claim_outbox_events : ℕ → ℕ → Action Db (List OutboxEvent)
claim_outbox_events = Outbox.Repository.claim_outbox_events outbox

abbrev pub claim_single_event : ℕ → ℕ → Action Db (Unit {0})
claim_single_event = Outbox.Repository.claim_single_event outbox

abbrev pub mark_outbox_event_processed : ℕ → Action Db (Unit {0})
mark_outbox_event_processed = Outbox.Repository.mark_outbox_event_processed outbox

abbrev pub mark_outbox_event_failed : ℕ → Action Db (Unit {0})
mark_outbox_event_failed = Outbox.Repository.mark_outbox_event_failed outbox

abbrev pub mark_outbox_events_processed : List ℕ → Action Db (Unit {0})
mark_outbox_events_processed = Outbox.Repository.mark_outbox_events_processed outbox

abbrev pub mark_outbox_events_failed : List ℕ → Action Db (Unit {0})
mark_outbox_events_failed = Outbox.Repository.mark_outbox_events_failed outbox

abbrev pub recover_stale_outbox_events : Action Db ℕ
recover_stale_outbox_events = Outbox.Repository.recover_stale_outbox_events outbox

abbrev pub insert_outbox_event : OutboxEvent → Action Db (Unit {0})
insert_outbox_event = Outbox.Repository.insert_outbox_event outbox

abbrev pub insert_outbox_events : List OutboxEvent → Action Db (Unit {0})
insert_outbox_events = Outbox.Repository.insert_outbox_events outbox
