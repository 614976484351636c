-- ===== src/Auth/Grpc.antt =====
-- internal/auth/delivery/grpc/handler.go.
use mini_wallet.Base.{ℕ, List, [], ◌∷◌, Option, none, some}
use mini_wallet.Sql.{Action, ◌>>=◌, pure}
use mini_wallet.Auth.Tables.{Db}
use mini_wallet.Auth.Repository.Statements.{SessionItem}
use mini_wallet.Auth.Service.Sessions.{get_active_sessions}

-- `authpb.Session`; the push token is 0 for none.
pub record ActiveSession : Type 0 where
  pub user_id : ℕ
  pub session_id : ℕ
  pub push_token : ℕ

abbrev pub token_or_empty : Option ℕ → ℕ
token_or_empty none = 0
token_or_empty (some t) = t

abbrev pub active_sessions : ℕ → List SessionItem → List ActiveSession
active_sessions user_id [] = []
active_sessions user_id (s ∷ ss) =
    record {
      user_id = user_id;
      session_id = s.session_id;
      push_token = token_or_empty s.push_token;
    }
    ∷ active_sessions user_id ss

unfoldable pub get_user_active_sessions : ℕ → Action Db (List ActiveSession)
get_user_active_sessions user_id = do
  sessions ← get_active_sessions user_id
  pure (active_sessions user_id sessions)
