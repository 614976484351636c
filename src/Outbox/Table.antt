-- ===== src/Outbox/Table.antt =====
-- The rows of `auth_outbox_events` and `notification_outbox_events`
-- (internal/auth/service/outbox/entity.go and the migrations of the repositories).
-- Event ids, which are only compared, are numbers; a payload is its bytes; times are seconds.
use mini_wallet.Base.{ℕ, List, [], ◌∷◌, Option, String, Bool, true, false, ◌==◌, any}

-- the ENUM of the column `status`
pub data EventStatus : Type 0 where
  pending processing processed : EventStatus

abbrev pub is_pending : EventStatus → Bool
is_pending pending = true
is_pending processing = false
is_pending processed = false

abbrev pub is_processing : EventStatus → Bool
is_processing pending = false
is_processing processing = true
is_processing processed = false

abbrev pub is_processed : EventStatus → Bool
is_processed pending = false
is_processed processing = false
is_processed processed = true

pub record OutboxEvent : Type 0 where
  pub event_id : ℕ
  pub event_type : String
  pub payload : List ℕ
  pub aggregate_type : String
  pub aggregate_id : String
  pub status : EventStatus
  pub created_at : ℕ
  pub processed_at : Option ℕ
  pub locked_until : Option ℕ

abbrev pub has_id : ℕ → OutboxEvent → Bool
has_id k e = e.event_id == k

-- `WHERE event_id IN (?)`
abbrev pub id_in : List ℕ → OutboxEvent → Bool
id_in ks e = any (λ k. e.event_id == k) ks

abbrev pub ids_of : List OutboxEvent → List ℕ
ids_of [] = []
ids_of (e ∷ es) = e.event_id ∷ ids_of es

-- The part of a service's database that holds its outbox.
pub record Store (D : Type 0) : Type 0 where
  pub rows : D → List OutboxEvent
  pub with_rows : D → List OutboxEvent → D
