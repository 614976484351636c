-- ===== src/Auth/Service/Login.antt =====
-- `Login` of internal/auth/service/auth/service.go.
use text.Mathlib.Text.{◌==◌ as str_eq}
use mini_wallet.Base.{ℕ, ◌+◌, ◌==◌, List, none, if◌then◌else◌, length}
use mini_wallet.RichError.{
  Error, RichError, rich, new, with_message, with_kind, with_validation, has_validations, report,
  internal, unprocessable, unauthorized, as_not_found,
}
use mini_wallet.Sql.{
  Result, ok, err, Action, ◌>>=◌, ◌>>◌, pure, or_else, raise_if, at_now, returned, attempt,
}
use mini_wallet.Outbox.Table.{OutboxEvent, pending}
use mini_wallet.AccessToken.{generate_access_token}
use mini_wallet.Auth.Tables.{DeviceContext, User, Db}
use mini_wallet.Auth.Outbox.{new_session_logged_in}
use mini_wallet.Auth.Repository.Users.{run_in_tx, get_user_by_email, insert_outbox_event}
use mini_wallet.Auth.Repository.Sessions.{upsert_session}
use mini_wallet.Auth.Service.Requests.{
  Config, Library, Drawn, LoginRequest, LoginResponse, Response, new_session_logged_in_message,
  generate_refresh_token, hash_refresh_token, new_event, err_login_failed,
  err_invalid_login_credentials, err_refresh_token_failed, err_access_token_failed,
}
use mini_wallet.Auth.Service.Register.{validate_when, found_rich}

abbrev pub login_failed : Error → Error
login_failed e = report "auth.Login" e err_login_failed internal

abbrev pub user_failed : Error → Error
user_failed e =
    if as_not_found e
    then report "auth.Login" (found_rich e) err_invalid_login_credentials unauthorized
    else login_failed e

-- `vErr` after the two checks
abbrev pub validate_login : LoginRequest → RichError
validate_login req =
    validate_when (length req.password == 0) (with_validation "password" "password is required") (
      validate_when (str_eq req.email "") (with_validation "email" "invalid email")
        (with_kind unprocessable (with_message "validation failed" (new "auth.Login"))))

-- The ids of `UpsertSession`, whose error the next assignment to `err` overwrites: empty where it
-- failed.
abbrev pub ids_or_empty : Result (ℕ × ℕ) → ℕ × ℕ
ids_or_empty (ok ids) = ids
ids_or_empty (err e) = (0, 0)

module _ (lib : Library) where
  abbrev pub login_event : ℕ → ℕ → List ℕ → ℕ → OutboxEvent
  login_event event_uuid user_id body now = record {
    event_id = event_uuid;
    event_type = new_session_logged_in;
    payload = body;
    aggregate_type = "user";
    aggregate_id = lib.decimal user_id;
    status = pending;
    created_at = now;
    processed_at = none;
    locked_until = none;
  }

  module _ (config : Config) (drawn : Drawn) (ctx : DeviceContext) (req : LoginRequest) where
    -- The function that `Login` gives to `RunInTx`, with what it assigns.
    unfoldable pub login_body : User → Action Db (LoginResponse × OutboxEvent)
    login_body user = do
      refresh_token ←
          or_else (returned (generate_refresh_token lib drawn.bytes))
            (λ e. report "auth.Login" e err_refresh_token_failed internal)
      stored ← attempt (
          at_now λ now.
            upsert_session drawn.device_uuid drawn.session_uuid ctx user.id
              (hash_refresh_token lib refresh_token) (now + config.refresh_token_duration)
              req.push_token)
      access_token ←
          or_else
            (at_now λ now. returned (
              generate_access_token lib.jwt config.jwt_secret now user.id (ids_or_empty stored).1
                config.access_token_duration))
            (λ e. report "auth.Login" e err_access_token_failed internal)
      envelope ←
          or_else
            (returned (
              new_event lib (new_session_logged_in_message (ids_or_empty stored).1 user.id)
                new_session_logged_in))
            login_failed
      body ← or_else (returned (lib.marshal envelope)) login_failed
      or_else (at_now λ now. insert_outbox_event (login_event drawn.event_uuid user.id body now))
          login_failed
      at_now λ now. pure (
        record {
          access_token = access_token;
          refresh_token = refresh_token;
          device_id = (ids_or_empty stored).0;
          session_id = (ids_or_empty stored).1;
          user = user;
        },
        login_event drawn.event_uuid user.id body now,
      )

    -- `Login`, with the event that it gives to `ProcessSingleEvent` on a goroutine of its own.
    unfoldable pub login : Action Db (Response LoginResponse × OutboxEvent)
    unfolding login_body
    login = do
      raise_if (has_validations (validate_login req)) (rich (validate_login req))
      user ← or_else (get_user_by_email req.email) user_failed
      or_else (returned (lib.compare_hash_and_password user.password_hash req.password))
          (λ e. report "auth.Login" e err_invalid_login_credentials unauthorized)
      made ← or_else (run_in_tx (login_body user)) login_failed
      pure (record { code = 200; body = made.0 }, made.1)
