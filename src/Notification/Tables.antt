-- ===== src/Notification/Tables.antt =====
-- The tables of the notification service (internal/notification/repository/migrations), what its
-- publisher has taken and what its sender has sent.
use mini_wallet.Base.{ℕ, List, String}
use mini_wallet.Inbox
use mini_wallet.Inbox.Table.{Message}
use mini_wallet.Outbox
use mini_wallet.Outbox.Table.{OutboxEvent}

-- `sender.Send(ctx, userID, title, message)`
pub record Sent : Type 0 where
  pub user_id : String
  pub title : String
  pub message : String

pub record Db : Type 0 where
  pub messages : List Message
  pub events : List OutboxEvent
  pub published : List (List ℕ)
  pub sent : List Sent

abbrev pub inbox : Inbox.Table.Store Db
inbox = record { rows = λ d. d.messages; with_rows = λ d ms. record d { messages = ms } }

abbrev pub outbox : Outbox.Table.Store Db
outbox = record { rows = λ d. d.events; with_rows = λ d es. record d { events = es } }
