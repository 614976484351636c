-- ===== src/Auth/Tables.antt =====
-- The tables of the auth service (internal/auth/repository/migrations,
-- internal/auth/service/auth/entity.go, params.go) and what its publishers have taken.
-- Ids, UUIDs, hashes and push tokens, which are only compared, are numbers, 0 for the empty string;
-- times are seconds. The columns created_at of users and devices, which no statement of the service
-- reads, are left out. Texts of a unique key are compared as they stand.
use text.Mathlib.Text.{◌==◌ as str_eq}
use mini_wallet.Base.{ℕ, List, [], ◌∷◌, Option, String, Bool, true, ◌==◌, ◌&&◌, ◌||◌, not, any}
use mini_wallet.Outbox.Table.{OutboxEvent, Store}

pub record User : Type 0 where
  pub id : ℕ
  pub email : String
  pub password_hash : ℕ

pub record Device : Type 0 where
  pub id : ℕ
  pub public_id : ℕ
  pub installation_id : ℕ
  pub platform : String
  pub device_name : String
  pub app_version : String
  pub last_seen_at : ℕ

-- A row of `device_sessions`.
pub record Session : Type 0 where
  pub id : ℕ
  pub public_id : ℕ
  pub user_id : ℕ
  pub device_id : ℕ
  pub refresh_token_hash : ℕ
  pub ip_address : List ℕ
  pub user_agent : String
  pub push_token : Option ℕ
  pub expires_at : ℕ
  pub created_at : ℕ
  pub last_used_at : ℕ

-- A row of `device_session_history`.
pub record Revoked : Type 0 where
  pub session_public_id : ℕ
  pub user_id : ℕ
  pub device_id : ℕ
  pub refresh_token_hash : ℕ
  pub ip_address : List ℕ
  pub user_agent : String
  pub created_at : ℕ
  pub last_used_at : ℕ
  pub revoked_at : ℕ
  pub revoke_reason : String
  pub revoked_by : String

pub record DeviceContext : Type 0 where
  pub user_agent : String
  pub ip_address : List ℕ
  pub installation_id : ℕ
  pub platform : String
  pub device_name : String
  pub app_version : String

pub data Publication : Type 0 where
  -- `notificationPublisher.Publish(ctx, payload)`
  to_notification : List ℕ → Publication
  -- `userPublisher.Publish(ctx, routingKey, payload)`
  to_user : String → List ℕ → Publication

pub record Db : Type 0 where
  pub users : List User
  pub devices : List Device
  pub sessions : List Session
  pub history : List Revoked
  pub events : List OutboxEvent
  pub published : List Publication
  -- the AUTO_INCREMENT counters
  pub next_user : ℕ
  pub next_device : ℕ
  pub next_session : ℕ

abbrev pub store : Store Db
store = record { rows = λ d. d.events; with_rows = λ d es. record d { events = es } }

-- `WHERE` tests of the statements.
abbrev pub has_email : String → User → Bool
has_email email u = str_eq u.email email

abbrev pub has_hash : ℕ → Session → Bool
has_hash hash s = s.refresh_token_hash == hash

abbrev pub has_public_id : ℕ → Session → Bool
has_public_id id s = s.public_id == id

abbrev pub is_of : ℕ → ℕ → Session → Bool
is_of user_id device_id s = s.user_id == user_id && s.device_id == device_id

abbrev pub owned : ℕ → ℕ → Session → Bool
owned public_id user_id s = s.public_id == public_id && s.user_id == user_id

abbrev pub is_installed : ℕ → String → Device → Bool
is_installed installation_id platform r =
    r.installation_id == installation_id && str_eq r.platform platform

-- The unique keys of `device_sessions`: (user_id, device_id) and refresh_token_hash.
abbrev pub clashes : Session → Session → Bool
clashes s r = is_of s.user_id s.device_id r || has_hash s.refresh_token_hash r

abbrev pub keys_hold : List Session → Bool
keys_hold [] = true
keys_hold (s ∷ ss) = let rest = keys_hold ss in not (any (clashes s) ss) && rest
