-- ===== src/Auth/Repository/Sessions.antt =====
-- Sessions in internal/auth/repository/auth.go. UUIDs that an operation generates are its arguments.
use mini_wallet.Base.{
  ℕ, List, [], ◌∷◌, Option, none, some, String, Bool, ◌==◌, ◌&&◌, not, length, if◌then◌else◌, ltb,
  ◌+◌,
}
use mini_wallet.RichError.{Error, nil, plain, no_rows, report, report_new, internal, not_found}
use mini_wallet.Sql.{
  Result, ok, err, Action, ◌>>=◌, ◌>>◌, pure, call, exec, tx_exec, begin_tx, commit, rolling_back,
  look_up, or_else, raise_if, at_now, attempt, required,
}
use mini_wallet.Auth.Tables.{Session, DeviceContext, Db, owned, has_public_id}
use mini_wallet.Auth.Repository.Statements.{
  nullable, select_by_hash, renewed, renew_session, select_device_public_id, revoked, archive,
  delete_sessions, set_push_token, upsert_device, select_device_id, select_session, insert_session,
  SessionItem, select_sessions,
}

abbrev rotate_failed : Error → Error
rotate_failed e = report "Repository.RotateRefreshToken" e "failed to rotate refresh token" internal

-- `RotateRefreshToken`: the device's and the session's public ids and the user's id.
unfoldable pub rotate_refresh_token : DeviceContext → ℕ → ℕ → ℕ → Option ℕ → Action Db (ℕ × ℕ × ℕ)
rotate_refresh_token ctx old_hash new_hash expires_at push_token = do
  or_else begin_tx rotate_failed
  rolling_back do
    found ←
        or_else (look_up (select_by_hash old_hash))
          (λ e. report "Repository.RotateRefreshToken" e "invalid refresh token" internal)
    s ←
        required found
          (report "Repository.RotateRefreshToken" no_rows "invalid refresh token" not_found)
    at_now λ now. raise_if (ltb s.expires_at now) (rotate_failed nil)
    or_else
        (at_now λ now.
          tx_exec (renew_session s.public_id (renewed new_hash expires_at ctx push_token now)))
        rotate_failed
    device_public_id ←
        or_else (tx_exec λ d. (select_device_public_id s.device_id d, d)) rotate_failed
    or_else commit rotate_failed
    pure (device_public_id, s.public_id, s.user_id)

unfoldable pub get_user_sessions : ℕ → Action Db (List SessionItem)
get_user_sessions user_id =
    or_else (exec λ d. (ok (select_sessions user_id d), d))
      (λ e. report "Repository.GetUserSessions" e "failed to get user sessions" internal)

abbrev pub revoke_failed : Error → Error
revoke_failed e = report "Repository.RevokeSession" e "failed to revoke session" internal

-- SELECT id ... FOR UPDATE
abbrev pub lock_rows : Db → Result (Unit {0}) × Db
lock_rows d = (ok tt, d)

unfoldable pub revoke_session : ℕ → ℕ → String → String → Action Db (Unit {0})
revoke_session user_id public_id reason revoked_by = do
  or_else begin_tx revoke_failed
  rolling_back do
    or_else (tx_exec lock_rows) revoke_failed
    affected ←
        or_else
          (at_now
            λ now. tx_exec (archive (owned public_id user_id) (revoked now reason revoked_by)))
          revoke_failed
    or_else call revoke_failed
    raise_if (affected == 0) (revoke_failed nil)
    or_else (tx_exec (delete_sessions (owned public_id user_id))) revoke_failed
    or_else commit revoke_failed

-- An argument that a statement is given.
pub data Argument : Type 0 where
  user : ℕ → Argument
  session : ℕ → Argument
  words : String → Argument

-- A statement with this many placeholders; database/sql refuses any other number of arguments.
abbrev pub with_arguments :
    {A : Type 0} → ℕ → List Argument → (Db → Result A × Db) → Db → Result A × Db
with_arguments placeholders args f d =
    if length args == placeholders then f d else (err (plain "sql: wrong number of arguments"), d)

-- `AND public_id != ?`, where there is a session to leave.
abbrev pub to_revoke : ℕ → Option ℕ → Session → Bool
to_revoke user_id none s = s.user_id == user_id
to_revoke user_id (some except) s = s.user_id == user_id && not (s.public_id == except)

-- The placeholders of the three statements with this `where` clause beside their own.
abbrev pub placeholders : ℕ → Option ℕ → ℕ
placeholders own none = own
placeholders own (some except) = 1 + own

-- `args` and `selectArgs`: the second is made from the first where there is a session to leave.
abbrev pub revoke_args : ℕ → Option ℕ → List Argument
revoke_args user_id none = user user_id ∷ []
revoke_args user_id (some except) = user user_id ∷ session except ∷ []

abbrev pub select_args : ℕ → Option ℕ → String → String → List Argument
select_args user_id none reason revoked_by = words reason ∷ words revoked_by ∷ user user_id ∷ []
select_args user_id (some except) reason revoked_by =
    user user_id ∷ session except ∷ session except ∷ []

abbrev revoke_all_failed : Error → Error
revoke_all_failed e =
    report "Repository.RevokeAllSessions" e "failed to revoke all sessions" internal

unfoldable pub revoke_all_sessions : ℕ → Option ℕ → String → String → Action Db (Unit {0})
revoke_all_sessions user_id except reason revoked_by = do
  or_else begin_tx revoke_all_failed
  rolling_back do
    or_else
        (tx_exec (
          with_arguments (placeholders 1 except) (select_args user_id except reason revoked_by)
            lock_rows))
        revoke_all_failed
    or_else
        (at_now λ now. tx_exec (
          with_arguments (placeholders 3 except) (select_args user_id except reason revoked_by)
            (archive (to_revoke user_id except) (revoked now reason revoked_by))))
        revoke_all_failed
    or_else
        (tx_exec (
          with_arguments (placeholders 1 except) (revoke_args user_id except)
            (delete_sessions (to_revoke user_id except))))
        revoke_all_failed
    or_else commit revoke_all_failed

unfoldable pub update_push_token : ℕ → ℕ → ℕ → Action Db (Unit {0})
update_push_token public_id user_id push_token = do
  affected ←
      or_else (exec (set_push_token public_id user_id (nullable push_token)))
        (λ e. report "repository.UpdatePushToken" e "failed to update push token" internal)
  or_else call (λ e. report "repository.UpdatePushToken" e "failed to get rows affected" internal)
  raise_if (affected == 0) (
      report_new "repository.UpdatePushToken" "session not found or does not belong to user"
        not_found)

abbrev upsert_failed : Error → Error
upsert_failed e = report "repository.UpsertSession" e "failed to upsert session" internal

abbrev pub opened_session : ℕ → ℕ → ℕ → ℕ → DeviceContext → Option ℕ → ℕ → ℕ → Session
opened_session public_id user_id device_id hash ctx push_token expires_at now = record {
  id = 0;
  public_id = public_id;
  user_id = user_id;
  device_id = device_id;
  refresh_token_hash = hash;
  ip_address = ctx.ip_address;
  user_agent = ctx.user_agent;
  push_token = elim push_token [ none ↦ none | some t ↦ nullable t ];
  expires_at = expires_at;
  created_at = now;
  last_used_at = now;
}

module _ (device_uuid session_uuid : ℕ) (ctx : DeviceContext) (user_id hash expires_at : ℕ)
    (push_token : Option ℕ) where
  -- What follows the query for the session of user and device; an error of the query counts as no
  -- session, and one of the archiving is dropped.
  unfoldable pub store_session : ℕ → Result Session → Action Db (ℕ × ℕ)
  store_session device_id (ok s) = do
    at_now λ now.
        attempt (tx_exec (archive (has_public_id s.public_id) (revoked now "rotated" "system")))
    or_else
        (at_now
          λ now. tx_exec (renew_session s.public_id (renewed hash expires_at ctx push_token now)))
        upsert_failed
    pure (device_uuid, s.public_id)
  store_session device_id (err e) = do
    or_else
        (at_now λ now. tx_exec (
          insert_session
            (opened_session session_uuid user_id device_id hash ctx push_token expires_at now)))
        upsert_failed
    pure (device_uuid, session_uuid)

  -- `UpsertSession`: the public ids of the device, as generated here, and of the session.
  unfoldable pub upsert_session : Action Db (ℕ × ℕ)
  upsert_session = do
    or_else (at_now λ now. tx_exec (upsert_device device_uuid ctx now)) upsert_failed
    device_id ← or_else (tx_exec λ d. (select_device_id ctx d, d)) upsert_failed
    existing ← attempt (tx_exec λ d. (select_session user_id device_id d, d))
    store_session device_id existing
