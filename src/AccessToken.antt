-- ===== src/AccessToken.antt =====
-- pkg/user_access_token/auth.go, pkg/middleware/auth.go and `VerifyTokenHandler` of
-- internal/auth/delivery/http/handler.go. Tokens and headers are bytes; session ids are numbers. The
-- functions of github.com/golang-jwt/jwt are parameters.
pub mod Laws
mod Tests
use mini_wallet.Base.{
  ℕ, ◌+◌, List, [], ◌∷◌, Option, none, some, String, Bool, true, false, ◌==◌, ◌&&◌, if◌then◌else◌,
}
use mini_wallet.Base.Bytes.{split}
use mini_wallet.RichError.{plain}
use mini_wallet.Sql.{Result, ok, err}

pub record Claims : Type 0 where
  pub issuer : String
  pub subject : String
  pub issued_at : ℕ
  pub expires_at : ℕ
  pub account_id : ℕ
  pub session_id : ℕ

-- The `*jwt.Token` that the parser returns: its claims where they are a `*Claims`, and `Valid`.
pub record Token : Type 0 where
  pub claims : Option Claims
  pub valid : Bool

-- What the parser asks for the key of a token, whose method is HMAC or not.
abbrev pub KeyFunc : Type 0
KeyFunc = Bool → Result ℕ

-- `jwt.NewWithClaims(SigningMethodHS256, claims).SignedString(secret)`, and `jwt.ParseWithClaims`
-- at some time.
pub record Jwt : Type 0 where
  pub sign : Claims → ℕ → Result (List ℕ)
  pub parse : ℕ → List ℕ → KeyFunc → Result Token

abbrev pub new_claims : ℕ → ℕ → ℕ → ℕ → Claims
new_claims account session duration now = record {
  issuer = "mini-wallet";
  subject = "access";
  issued_at = now;
  expires_at = now + duration;
  account_id = account;
  session_id = session;
}

abbrev pub key_func : ℕ → KeyFunc
key_func secret true = ok secret
key_func secret false = err (plain "unexpected signing method")

abbrev pub checked : Token → Result Claims
checked t = elim t.claims [
  | none ↦ err (plain "token is invalid")
  | some c ↦ elim t.valid [ true ↦ ok c | false ↦ err (plain "token is invalid") ]
]

-- The identity that a request is given, or the abort with 401.
pub data Authenticated : Type 0 where
  unauthorized : Authenticated
  identified : ℕ → ℕ → Authenticated

abbrev pub bearer : List ℕ
bearer = 66 ∷ 101 ∷ 97 ∷ 114 ∷ 101 ∷ 114 ∷ []

abbrev pub same_bytes : List ℕ → List ℕ → Bool
same_bytes [] [] = true
same_bytes [] (c ∷ cs) = false
same_bytes (b ∷ bs) [] = false
same_bytes (b ∷ bs) (c ∷ cs) = let rest = same_bytes bs cs in b == c && rest

-- `len(parts) != 2 || parts[0] != "Bearer"`, else `parts[1]`
abbrev pub bearer_token : List (List ℕ) → Option (List ℕ)
bearer_token [] = none
bearer_token (p ∷ []) = none
bearer_token (p ∷ t ∷ []) = if same_bytes p bearer then some t else none
bearer_token (p ∷ t ∷ q ∷ ps) = none

module _ (jwt : Jwt) (secret now : ℕ) where
  unfoldable pub generate_access_token : ℕ → ℕ → ℕ → Result (List ℕ)
  generate_access_token account session duration =
      jwt.sign (new_claims account session duration now) secret

  unfoldable pub verify_access_token : List ℕ → Result Claims
  verify_access_token token = elim (jwt.parse now token (key_func secret)) [
    | err e ↦ err e
    | ok t ↦ checked t
  ]

  unfoldable pub identify : Option (List ℕ) → Authenticated
  unfolding verify_access_token
  identify none = unauthorized
  identify (some token) = elim (verify_access_token token) [
    | err e ↦ unauthorized
    | ok c ↦ identified c.account_id c.session_id
  ]

  -- `AuthMiddleware`; the header is empty where it is missing.
  unfoldable pub authenticate : List ℕ → Authenticated
  authenticate [] = unauthorized
  authenticate (b ∷ bs) = identify (bearer_token (split 32 (b ∷ bs)))

  unfoldable pub token_status : Option (List ℕ) → ℕ
  unfolding verify_access_token
  token_status none = 401
  token_status (some token) = elim (verify_access_token token) [ err e ↦ 401 | ok c ↦ 200 ]

  -- `VerifyTokenHandler`, by its status.
  unfoldable pub verify_token_handler : List ℕ → ℕ
  verify_token_handler [] = 401
  verify_token_handler (b ∷ bs) = token_status (bearer_token (split 32 (b ∷ bs)))
