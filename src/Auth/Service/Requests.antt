-- ===== src/Auth/Service/Requests.antt =====
-- internal/auth/service/auth/params.go, token.go, errors.go, `Config` and `maskEmail` of service.go
-- there, and pkg/event. Passwords and tokens are bytes. The functions of regexp, bcrypt, crypto,
-- encoding, jwt, protobuf and fmt are the fields of `Library`.

use mini_wallet.Base.{
  ℕ, ◌-◌, List, [], ◌∷◌, ◌++◌, Option, String, Bool, if◌then◌else◌, length, leb, take,
}
use mini_wallet.Base.Bytes.{split, repeat}
use mini_wallet.RichError.{report, internal}
use mini_wallet.Sql.{Result, ok, err}
use mini_wallet.AccessToken.{Jwt}
use mini_wallet.Auth.Tables.{User}

pub record Config : Type 0 where
  pub jwt_secret : ℕ
  pub access_token_duration : ℕ
  pub refresh_token_duration : ℕ

pub record RegisterRequest : Type 0 where
  pub email : String
  pub password : List ℕ
  pub push_token : Option ℕ

pub record LoginRequest : Type 0 where
  pub email : String
  pub password : List ℕ
  pub push_token : Option ℕ

pub record RefreshTokenRequest : Type 0 where
  pub refresh_token : List ℕ
  pub push_token : Option ℕ

pub record RegisterResponse : Type 0 where
  pub message : String
  pub access_token : List ℕ
  pub refresh_token : List ℕ
  pub device_id : ℕ
  pub session_id : ℕ

pub record LoginResponse : Type 0 where
  pub access_token : List ℕ
  pub refresh_token : List ℕ
  pub device_id : ℕ
  pub session_id : ℕ
  pub user : User

pub record RefreshTokenResponse : Type 0 where
  pub access_token : List ℕ
  pub refresh_token : List ℕ
  pub device_id : ℕ
  pub session_id : ℕ

-- `httpresponse.Response`, whose `Data` is `body`
pub record Response (A : Type 0) : Type 0 where
  pub code : ℕ
  pub body : A

-- The messages of the service's events, `authpb.RegisterNewUser` and `authpb.NewSessionLoggedIn`.
pub data Message : Type 0 where
  register_new_user_message : ℕ → String → Message
  new_session_logged_in_message : ℕ → ℕ → Message

-- `commonpb.EventEnvelope`
pub record EventEnvelope : Type 0 where
  pub event_type : String
  pub payload : List ℕ

pub record Library : Type 0 where
  -- `emailRegex.MatchString`
  pub matches_email : String → Bool
  -- `bcrypt.GenerateFromPassword`, `bcrypt.CompareHashAndPassword`
  pub generate_from_password : List ℕ → Result ℕ
  pub compare_hash_and_password : ℕ → List ℕ → Result (Unit {0})
  -- `base64.URLEncoding.EncodeToString`, and `hex.EncodeToString` of `sha256.Sum256`
  pub encode_to_string : List ℕ → List ℕ
  pub hex_sum256 : List ℕ → ℕ
  pub jwt : Jwt
  -- `anypb.New`, `proto.Marshal`
  pub new_any : Message → Result (List ℕ)
  pub marshal : EventEnvelope → Result (List ℕ)
  -- `fmt.Sprintf("%d", id)`
  pub decimal : ℕ → String

-- What an operation draws: UUIDs, and the 32 bytes of `rand.Read`.
pub record Drawn : Type 0 where
  pub device_uuid : ℕ
  pub session_uuid : ℕ
  pub event_uuid : ℕ
  pub bytes : Result (List ℕ)

abbrev pub err_register_failed : String
err_register_failed = "failed to register"

abbrev pub err_login_failed : String
err_login_failed = "failed to login"

abbrev pub err_invalid_login_credentials : String
err_invalid_login_credentials = "username or password is incorrect"

abbrev pub err_refresh_token_failed : String
err_refresh_token_failed = "failed to generate refresh token"

abbrev pub err_access_token_failed : String
err_access_token_failed = "failed to generate access token"

abbrev pub err_get_sessions_failed : String
err_get_sessions_failed = "failed to get sessions"

abbrev pub generate_refresh_token : Library → Result (List ℕ) → Result (List ℕ)
generate_refresh_token lib (ok bytes) = ok (lib.encode_to_string bytes)
generate_refresh_token lib (err e) =
    err (report "auth.generateRefreshToken" e err_refresh_token_failed internal)

abbrev pub hash_refresh_token : Library → List ℕ → ℕ
hash_refresh_token lib token = lib.hex_sum256 token

-- `event.New`
abbrev pub new_event : Library → Message → String → Result EventEnvelope
new_event lib m event_type = elim (lib.new_any m) [
  | err e ↦ err e
  | ok payload ↦ ok (record { event_type = event_type; payload = payload })
]

abbrev pub masked : List (List ℕ) → List ℕ
masked [] = 42 ∷ 42 ∷ 42 ∷ []
masked (p ∷ []) = 42 ∷ 42 ∷ 42 ∷ []
masked (local ∷ domain ∷ []) =
    if leb (length local) 2
    then 42 ∷ 42 ∷ 42 ∷ 64 ∷ domain
    else take 2 local ++ repeat 42 (length local - 2) ++ 64 ∷ domain
masked (p ∷ q ∷ r ∷ ps) = 42 ∷ 42 ∷ 42 ∷ []

-- `maskEmail`, on bytes: 42 is `*` and 64 is `@`
unfoldable pub mask_email : List ℕ → List ℕ
mask_email email = masked (split 64 email)
