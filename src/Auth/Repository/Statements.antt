-- ===== src/Auth/Repository/Statements.antt =====
-- The statements of internal/auth/repository/auth.go.
use text.Mathlib.Text.{◌==◌ as str_eq}
use mini_wallet.Base.{
  ℕ, suc, List, [], ◌∷◌, ◌++◌, Option, none, some, String, Bool, true, false, ◌==◌, ◌&&◌, ◌||◌, not,
  any, find, select, reject, update, matching, map, if◌then◌else◌, leb,
}
use mini_wallet.RichError.{Error, mysql_error, no_rows}
use mini_wallet.Sql.{Result, ok, err}
use mini_wallet.Auth.Tables.{
  User, Device, Session, Revoked, DeviceContext, Db, has_email, has_hash, has_public_id, is_of,
  owned, is_installed, keys_hold,
}

-- `Scan` of one row.
abbrev pub scan : {A : Type 0} → Option A → Result A
scan none = err no_rows
scan (some a) = ok a

abbrev pub duplicate_entry : Error
duplicate_entry = mysql_error 1062 "Duplicate entry"

-- `"". Valid` of a push token: the empty string is stored as NULL.
abbrev pub nullable : ℕ → Option ℕ
nullable token = if token == 0 then none else some token

-- A statement that makes these the rows of `device_sessions`; MySQL refuses it where a unique key
-- would break.
unfoldable pub write_sessions : List Session → Db → Result (Unit {0}) × Db
write_sessions ss d =
    if keys_hold ss then (ok tt, record d { sessions = ss }) else (err duplicate_entry, d)

-- SELECT * FROM users WHERE email=?
abbrev pub select_user : String → Db → Result User
select_user email d = scan (find (has_email email) d.users)

-- INSERT INTO users (email, password_hash) VALUES (?, ?), under the unique key on email
unfoldable pub insert_user : String → ℕ → Db → Result ℕ × Db
insert_user email password_hash d =
    if any (has_email email) d.users then (err duplicate_entry, d) else (
      ok d.next_user,
      record d {
        users =
            d.users
            ++ record { id = d.next_user; email = email; password_hash = password_hash } ∷ [];
        next_user = suc d.next_user;
      },
    )

-- SELECT ... FROM device_sessions WHERE refresh_token_hash = ?
abbrev pub select_by_hash : ℕ → Db → Result Session
select_by_hash hash d = scan (find (has_hash hash) d.sessions)

-- The new values of a session; a push token that is nil leaves the column.
abbrev pub renewed : ℕ → ℕ → DeviceContext → Option ℕ → ℕ → Session → Session
renewed hash expires_at device push_token now s = record s {
  refresh_token_hash = hash;
  expires_at = expires_at;
  ip_address = device.ip_address;
  user_agent = device.user_agent;
  push_token = elim push_token [ none ↦ s.push_token | some t ↦ nullable t ];
  last_used_at = now;
}

-- UPDATE device_sessions SET refresh_token_hash = ?, ... WHERE public_id = ?
unfoldable pub renew_session : ℕ → (Session → Session) → Db → Result (Unit {0}) × Db
unfolding write_sessions
renew_session public_id f d = write_sessions (update (has_public_id public_id) f d.sessions) d

-- SELECT public_id FROM devices WHERE id = ?
abbrev pub select_device_public_id : ℕ → Db → Result ℕ
select_device_public_id id d = elim (find (λ r. r.id == id) d.devices) [
  | none ↦ err no_rows
  | some r ↦ ok r.public_id
]

abbrev pub revoked : ℕ → String → String → Session → Revoked
revoked now reason revoked_by s = record {
  session_public_id = s.public_id;
  user_id = s.user_id;
  device_id = s.device_id;
  refresh_token_hash = s.refresh_token_hash;
  ip_address = s.ip_address;
  user_agent = s.user_agent;
  created_at = s.created_at;
  last_used_at = s.last_used_at;
  revoked_at = now;
  revoke_reason = reason;
  revoked_by = revoked_by;
}

-- INSERT INTO device_session_history ... SELECT ... FROM device_sessions WHERE ..., with the rows
-- affected
unfoldable pub archive : (Session → Bool) → (Session → Revoked) → Db → Result ℕ × Db
archive p f d =
    (ok (matching p d.sessions), record d { history = d.history ++ map f (select p d.sessions) })

-- DELETE FROM device_sessions WHERE ...
unfoldable pub delete_sessions : (Session → Bool) → Db → Result (Unit {0}) × Db
delete_sessions p d = (ok tt, record d { sessions = reject p d.sessions })

-- UPDATE device_sessions SET push_token = ? WHERE public_id = ? AND user_id = ?, with the rows
-- changed: MySQL does not count a row whose value stays.
abbrev pub same_token : Option ℕ → Option ℕ → Bool
same_token none none = true
same_token none (some b) = false
same_token (some a) none = false
same_token (some a) (some b) = a == b

unfoldable pub set_push_token : ℕ → ℕ → Option ℕ → Db → Result ℕ × Db
set_push_token public_id user_id token d = (
  ok (matching (λ s. owned public_id user_id s && not (same_token s.push_token token)) d.sessions),
  record d {
    sessions = update (owned public_id user_id) (λ s. record s { push_token = token }) d.sessions;
  },
)

-- the ENUM of the column `platform`
abbrev pub is_platform : String → Bool
is_platform p = str_eq p "android" || str_eq p "ios" || str_eq p "web"

abbrev pub clashes_device : ℕ → DeviceContext → Device → Bool
clashes_device public_id ctx r =
    r.public_id == public_id || is_installed ctx.installation_id ctx.platform r

-- The one row that is updated: that of the first unique key that clashes, in the keys' order.
abbrev pub clashing_device : ℕ → DeviceContext → List Device → Device → Bool
clashing_device public_id ctx rows r =
    if any (λ x. x.public_id == public_id) rows
    then r.public_id == public_id
    else is_installed ctx.installation_id ctx.platform r

-- INSERT INTO devices ... ON DUPLICATE KEY UPDATE device_name, app_version, last_seen_at
unfoldable pub upsert_device : ℕ → DeviceContext → ℕ → Db → Result (Unit {0}) × Db
upsert_device public_id ctx now d =
    if not (is_platform ctx.platform)
    then (err (mysql_error 1265 "Data truncated for column 'platform'"), d)
    else if any (clashes_device public_id ctx) d.devices
    then (
      ok tt,
      record d {
        devices =
            update (clashing_device public_id ctx d.devices)
              (λ r. record r {
                device_name = ctx.device_name;
                app_version = ctx.app_version;
                last_seen_at = now;
              })
              d.devices;
      },
    )
    else (
      ok tt,
      record d {
        devices =
            d.devices
            ++ record {
              id = d.next_device;
              public_id = public_id;
              installation_id = ctx.installation_id;
              platform = ctx.platform;
              device_name = ctx.device_name;
              app_version = ctx.app_version;
              last_seen_at = now;
            }
              ∷ [];
        next_device = suc d.next_device;
      },
    )

-- SELECT id FROM devices WHERE installation_id = ? AND platform = ?
abbrev pub select_device_id : DeviceContext → Db → Result ℕ
select_device_id ctx d = elim (find (is_installed ctx.installation_id ctx.platform) d.devices) [
  | none ↦ err no_rows
  | some r ↦ ok r.id
]

-- SELECT public_id, user_id, device_id FROM device_sessions WHERE user_id = ? AND device_id = ?
abbrev pub select_session : ℕ → ℕ → Db → Result Session
select_session user_id device_id d = scan (find (is_of user_id device_id) d.sessions)

-- INSERT INTO device_sessions ..., under the unique keys and the foreign keys of user and device
unfoldable pub insert_session : Session → Db → Result (Unit {0}) × Db
insert_session s d =
    let rows = d.sessions ++ record s { id = d.next_session } ∷ [] in
    if not (any (λ u. u.id == s.user_id) d.users && any (λ r. r.id == s.device_id) d.devices)
    then (err (mysql_error 1452 "a foreign key constraint fails"), d)
    else if keys_hold rows
    then (ok tt, record d { sessions = rows; next_session = suc d.next_session })
    else (err duplicate_entry, d)

pub record SessionItem : Type 0 where
  pub session_id : ℕ
  pub device_id : ℕ
  pub platform : String
  pub device_name : String
  pub app_version : String
  pub ip_address : List ℕ
  pub user_agent : String
  pub push_token : Option ℕ
  pub created_at : ℕ
  pub last_used_at : ℕ
  pub expires_at : ℕ

abbrev pub item : Session → Device → SessionItem
item s r = record {
  session_id = s.public_id;
  device_id = r.public_id;
  platform = r.platform;
  device_name = r.device_name;
  app_version = r.app_version;
  ip_address = s.ip_address;
  user_agent = s.user_agent;
  push_token = s.push_token;
  created_at = s.created_at;
  last_used_at = s.last_used_at;
  expires_at = s.expires_at;
}

-- The rows of JOIN devices d ON d.id = ds.device_id
abbrev pub joined : List Device → List Session → List SessionItem
joined devices [] = []
joined devices (s ∷ ss) = elim (find (λ r. r.id == s.device_id) devices) [
  | none ↦ joined devices ss
  | some r ↦ item s r ∷ joined devices ss
]

-- ORDER BY ds.last_used_at DESC; rows of one time stay in the order of the table.
abbrev pub insert_by_use : SessionItem → List SessionItem → List SessionItem
insert_by_use x [] = x ∷ []
insert_by_use x (y ∷ ys) =
    let rest = insert_by_use x ys in
    if leb y.last_used_at x.last_used_at then x ∷ y ∷ ys else y ∷ rest

abbrev pub by_use : List SessionItem → List SessionItem
by_use [] = []
by_use (x ∷ xs) = insert_by_use x (by_use xs)

unfoldable pub select_sessions : ℕ → Db → List SessionItem
select_sessions user_id d =
    by_use (joined d.devices (select (λ s. s.user_id == user_id) d.sessions))
