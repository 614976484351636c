-- ===== src/Auth/Http.antt =====
-- internal/auth/delivery/http/handler.go and pkg/middleware: what the requests are answered. A
-- request's JSON body is what `ShouldBindJSON` makes of it, none where that fails.
pub mod Devices
pub mod Status
use mini_wallet.Base.{ℕ, List, [], ◌∷◌, Option, none, some, String, Bool, if◌then◌else◌, ◌==◌}
use mini_wallet.RichError.Codes.{HttpError, err_http}
use mini_wallet.Sql.{World, Result, ok, err}
use mini_wallet.Outbox.Table.{OutboxEvent}
use mini_wallet.Auth.Tables.{DeviceContext, Db}
use mini_wallet.Auth.Repository.Statements.{SessionItem}
use mini_wallet.Auth.Service.Requests.{
  Config, Library, Drawn, RegisterRequest, RegisterResponse, LoginRequest, LoginResponse,
  RefreshTokenRequest, RefreshTokenResponse, Response,
}
use mini_wallet.Auth.Service.Register.{is_ready, register}
use mini_wallet.Auth.Service.Login.{login}
use mini_wallet.Auth.Service.Sessions.{
  refresh_token, get_user_sessions, logout_session, logout_all_sessions, update_push_token,
}

pub data Reply (A : Type 0) : Type 0 where
  -- `c.Status`
  status_only : ℕ → Reply A
  -- `c.JSON` of a message, a value, or an error
  told : ℕ → String → Reply A
  given : ℕ → A → Reply A
  failed : HttpError → Reply A

abbrev pub code_of : {A : Type 0} → Reply A → ℕ
code_of (status_only n) = n
code_of (told n m) = n
code_of (given n a) = n
code_of (failed e) = e.code

abbrev pub replied : {A B : Type 0} → (A → Reply B) → Result A × World Db → Reply B × World Db
replied f (ok a, w) = (f a, w)
replied f (err e, w) = (failed (err_http e), w)

abbrev pub with_data : {A : Type 0} → Response A → Reply A
with_data r = given r.code r.body

abbrev pub invalid_request : {A : Type 0} → Reply A
invalid_request = told 400 "invalid request"

unfoldable pub ready_handler : World Db → Reply (Unit {0}) × World Db
ready_handler w = replied (λ _. status_only 200) (is_ready w)

module _ (lib : Library) (config : Config) where
  unfoldable pub register_handler :
      Drawn → DeviceContext → Option RegisterRequest → World Db → Reply RegisterResponse × World Db
  register_handler drawn ctx none w = (invalid_request, w)
  register_handler drawn ctx (some req) w =
      replied (λ out. with_data out.0) (register lib config drawn ctx req w)

  unfoldable pub login_handler :
      Drawn → DeviceContext → Option LoginRequest → World Db → Reply LoginResponse × World Db
  login_handler drawn ctx none w = (invalid_request, w)
  login_handler drawn ctx (some req) w =
      replied (λ out. with_data out.0) (login lib config drawn ctx req w)

  unfoldable pub refresh_token_handler :
      Result (List ℕ)
      → DeviceContext
      → Option RefreshTokenRequest
      → World Db
      → Reply RefreshTokenResponse × World Db
  refresh_token_handler bytes ctx none w = (invalid_request, w)
  refresh_token_handler bytes ctx (some req) w =
      replied with_data (refresh_token lib config bytes ctx req w)

-- The user and the session are those that the middleware has set.
unfoldable pub get_sessions_handler : ℕ → World Db → Reply (List SessionItem) × World Db
get_sessions_handler user_id w = replied with_data (get_user_sessions user_id w)

unfoldable pub logout_session_handler : ℕ → ℕ → World Db → Reply (Unit {0}) × World Db
logout_session_handler user_id session_id w =
    replied (λ _. status_only 200) (logout_session user_id session_id w)

unfoldable pub logout_all_sessions_handler : ℕ → ℕ → World Db → Reply (Unit {0}) × World Db
logout_all_sessions_handler user_id session_id w =
    replied (λ _. status_only 200) (logout_all_sessions user_id (some session_id) w)

-- The session of the path, 0 for none.
unfoldable pub revoke_session_handler : ℕ → ℕ → World Db → Reply (Unit {0}) × World Db
revoke_session_handler user_id session_id w =
    if session_id == 0
    then (told 400 "session id required", w)
    else replied (λ _. told 200 "session revoked successfully")
        (logout_session user_id session_id w)

unfoldable pub update_push_token_handler : ℕ → ℕ → Option ℕ → World Db → Reply (Unit {0}) × World Db
update_push_token_handler user_id session_id none w = (told 400 "push_token required", w)
update_push_token_handler user_id session_id (some push_token) w =
    replied (λ _. status_only 200) (update_push_token user_id session_id push_token w)
