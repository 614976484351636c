-- ===== src/Auth/Service/Sessions.antt =====
-- `RefreshToken`, `GetUserSessions`, `LogoutSession`, `LogoutAllSessions`, `UpdatePushToken` and
-- `GetActiveSessions` of internal/auth/service/auth/service.go.
use mini_wallet.Base.{ℕ, ◌+◌, List, Option, if◌then◌else◌}
use mini_wallet.RichError.{Error, report, internal, unauthorized, not_found, as_not_found}
use mini_wallet.Sql.{Result, Action, ◌>>=◌, pure, or_else, at_now, returned}
use mini_wallet.AccessToken.{generate_access_token}
use mini_wallet.Auth.Tables.{DeviceContext, Db}
use mini_wallet.Auth.Repository.Statements.{SessionItem}
use mini_wallet.Auth.Repository.Sessions as Repository
use mini_wallet.Auth.Service.Requests.{
  Config, Library, RefreshTokenRequest, RefreshTokenResponse, Response, generate_refresh_token,
  hash_refresh_token, err_refresh_token_failed, err_access_token_failed, err_get_sessions_failed,
}
use mini_wallet.Auth.Service.Register.{found_rich}

abbrev pub rotation_failed : Error → Error
rotation_failed e =
    if as_not_found e
    then report "auth.RefreshToken" (found_rich e) err_refresh_token_failed unauthorized
    else report "auth.RefreshToken" e err_refresh_token_failed internal

-- `RefreshToken`; the second argument is what `rand.Read` gives.
unfoldable pub refresh_token :
    Library
    → Config
    → Result (List ℕ)
    → DeviceContext
    → RefreshTokenRequest
    → Action Db (Response RefreshTokenResponse)
refresh_token lib config bytes ctx req = do
  new_refresh_token ←
      or_else (returned (generate_refresh_token lib bytes))
        (λ e. report "auth.RefreshToken" e err_refresh_token_failed internal)
  ids ←
      or_else
        (at_now λ now.
          Repository.rotate_refresh_token ctx (hash_refresh_token lib req.refresh_token)
            (hash_refresh_token lib new_refresh_token) (now + config.refresh_token_duration)
            req.push_token)
        rotation_failed
  access_token ←
      or_else
        (at_now λ now. returned (
          generate_access_token lib.jwt config.jwt_secret now ids.2 ids.1
            config.access_token_duration))
        (λ e. report "auth.RefreshToken" e err_access_token_failed internal)
  pure (record {
    code = 200;
    body = record {
      access_token = access_token;
      refresh_token = new_refresh_token;
      device_id = ids.0;
      session_id = ids.1;
    };
  })

unfoldable pub get_active_sessions : ℕ → Action Db (List SessionItem)
get_active_sessions user_id =
    or_else (Repository.get_user_sessions user_id)
      (λ e. report "auth.GetActiveSessions" e err_get_sessions_failed internal)

unfoldable pub get_user_sessions : ℕ → Action Db (Response (List SessionItem))
get_user_sessions user_id = do
  sessions ←
      or_else (Repository.get_user_sessions user_id)
        (λ e. report "auth.GetUserSessions" e err_get_sessions_failed internal)
  pure (record { code = 200; body = sessions })

unfoldable pub logout_session : ℕ → ℕ → Action Db (Unit {0})
logout_session user_id session_public_id =
    or_else (Repository.revoke_session user_id session_public_id "logout" "user")
      (λ e. report "auth.LogoutSession" e "failed to revoke session" internal)

unfoldable pub logout_all_sessions : ℕ → Option ℕ → Action Db (Unit {0})
logout_all_sessions user_id current_session_id =
    or_else (Repository.revoke_all_sessions user_id current_session_id "logout_all" "user")
      (λ e. report "auth.LogoutAllSessions" e "failed to revoke all sessions" internal)

unfoldable pub update_push_token : ℕ → ℕ → ℕ → Action Db (Unit {0})
update_push_token user_id session_id push_token =
    or_else (Repository.update_push_token session_id user_id push_token) λ e.
      if as_not_found e
      then report "auth.UpdatePushToken" e "session not found" not_found
      else report "auth.UpdatePushToken" e "failed to update push token" internal
