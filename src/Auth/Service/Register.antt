-- ===== src/Auth/Service/Register.antt =====
-- `Register` and `IsReady` of internal/auth/service/auth/service.go.
use mini_wallet.Base.{ℕ, ◌+◌, List, none, some, Bool, if◌then◌else◌, not, length, ltb}
use mini_wallet.RichError.{
  Error, RichError, rich, new, with_message, with_kind, with_validation, has_validations, report,
  internal, unprocessable, unavailable, conflict, as_rich, as_conflict,
}
use mini_wallet.Sql.{Action, ◌>>=◌, ◌>>◌, pure, or_else, raise_if, at_now, returned}
use mini_wallet.Outbox.Table.{OutboxEvent, pending}
use mini_wallet.AccessToken.{generate_access_token}
use mini_wallet.Auth.Tables.{DeviceContext, Db}
use mini_wallet.Auth.Outbox.{register_new_user}
use mini_wallet.Auth.Repository.Users.{ping, run_in_tx, create_user, insert_outbox_event}
use mini_wallet.Auth.Repository.Sessions.{upsert_session}
use mini_wallet.Auth.Service.Requests.{
  Config, Library, Drawn, RegisterRequest, RegisterResponse, Response, register_new_user_message,
  generate_refresh_token, hash_refresh_token, new_event, err_register_failed,
}

-- The second of the two pings reports the error of the first, which is nil there.
unfoldable pub is_ready : Action Db (Unit {0})
is_ready = do
  or_else ping (λ e. report "auth.IsReady" e "db down" unavailable)
  or_else ping (λ _. report "auth.IsReady" Error.nil "db down" unavailable)

abbrev pub register_failed : Error → Error
register_failed e = report "auth.Register" e err_register_failed internal

-- `re` of `errors.As(err, &re)`
abbrev pub found_rich : Error → Error
found_rich e = elim (as_rich e) [ none ↦ e | some r ↦ rich r ]

abbrev pub create_failed : Error → Error
create_failed e =
    if as_conflict e
    then report "auth.Register" (found_rich e) "email already exists" conflict
    else register_failed e

abbrev pub validate_when : Bool → (RichError → RichError) → RichError → RichError
validate_when test add e = if test then add e else e

module _ (lib : Library) where
  -- `vErr` after the three checks
  abbrev pub validate_register : RegisterRequest → RichError
  validate_register req =
      validate_when (not (lib.matches_email req.email)) (with_validation "email" "invalid email") (
        validate_when (ltb 72 (length req.password))
          (with_validation "password" "password too long")
          (validate_when (ltb (length req.password) 8)
            (with_validation "password" "password too short")
            (with_kind unprocessable (with_message "validation failed" (new "auth.Register")))))

  abbrev pub register_event : ℕ → ℕ → List ℕ → ℕ → OutboxEvent
  register_event event_uuid account_id body now = record {
    event_id = event_uuid;
    event_type = register_new_user;
    payload = body;
    aggregate_type = "user";
    aggregate_id = lib.decimal account_id;
    status = pending;
    created_at = now;
    processed_at = none;
    locked_until = none;
  }

  module _ (config : Config) (drawn : Drawn) (ctx : DeviceContext) (req : RegisterRequest) where
    -- The function that `Register` gives to `RunInTx`, with what it assigns.
    unfoldable pub register_body : ℕ → Action Db (RegisterResponse × OutboxEvent)
    register_body hashed_password = do
      account_id ← or_else (create_user req.email hashed_password) create_failed
      refresh_token ← or_else (returned (generate_refresh_token lib drawn.bytes)) register_failed
      ids ←
          or_else
            (at_now λ now.
              upsert_session drawn.device_uuid drawn.session_uuid ctx account_id
                (hash_refresh_token lib refresh_token) (now + config.refresh_token_duration)
                req.push_token)
            register_failed
      access_token ←
          or_else
            (at_now λ now. returned (
              generate_access_token lib.jwt config.jwt_secret now account_id ids.1
                config.access_token_duration))
            register_failed
      envelope ←
          or_else
            (returned
              (new_event lib (register_new_user_message account_id req.email) register_new_user))
            register_failed
      body ← or_else (returned (lib.marshal envelope)) register_failed
      or_else
          (at_now λ now. insert_outbox_event (register_event drawn.event_uuid account_id body now))
          register_failed
      at_now λ now. pure (
        record {
          message = "account successfully created";
          access_token = access_token;
          refresh_token = refresh_token;
          device_id = ids.0;
          session_id = ids.1;
        },
        register_event drawn.event_uuid account_id body now,
      )

    -- `Register`, with the event that it gives to `ProcessSingleEvent` on a goroutine of its own.
    unfoldable pub register : Action Db (Response RegisterResponse × OutboxEvent)
    unfolding register_body
    register = do
      raise_if (has_validations (validate_register req)) (rich (validate_register req))
      hashed_password ← or_else (returned (lib.generate_from_password req.password)) register_failed
      made ← or_else (run_in_tx (register_body hashed_password)) register_failed
      pure (record { code = 201; body = made.0 }, made.1)
