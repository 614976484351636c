-- ===== src/Inbox/Table.antt =====
-- The rows of `wallet_processed_messages` and `notification_processed_messages`
-- (internal/wallet/repository/migrations, internal/notification/repository/migrations).
-- Message ids, which are only compared, are numbers; a body is its bytes; times are seconds.
use mini_wallet.Base.{ℕ, List, Option, String, Bool, ◌==◌}

-- the ENUM of the column `status`
pub data MessageStatus : Type 0 where
  processing completed failed : MessageStatus

-- What `Scan(&status)` yields.
abbrev pub status_text : MessageStatus → String
status_text processing = "processing"
status_text completed = "completed"
status_text failed = "failed"

pub record Message : Type 0 where
  pub message_id : ℕ
  pub status : MessageStatus
  pub event_payload : List ℕ
  pub processing_started_at : ℕ
  pub completed_at : Option ℕ

abbrev pub has_id : ℕ → Message → Bool
has_id k m = m.message_id == k

-- The part of a service's database in which its messages are recorded.
pub record Store (D : Type 0) : Type 0 where
  pub rows : D → List Message
  pub with_rows : D → List Message → D
