-- ===== src/RichError/Tests.antt =====
-- Errors on which the theorems about pkg/richerror are applied.

use mini_wallet.Base.{[], ◌∷◌}
use mini_wallet.RichError.{
  Error, no_rows, wrapped, report, not_found, internal, RichError, rich_error,
}
use mini_wallet.RichError.Laws.{Layer}

abbrev missing : Error
missing = wrapped "handler" (report "repository.GetUserByEmail" no_rows "user not found" not_found)

abbrev repository_layer : Layer
repository_layer = record {
  op = "repository.GetUserByEmail";
  text = "user not found";
  kind = not_found;
}

abbrev service_layer : Layer
service_layer = record { op = "Service.Login"; text = "login failed"; kind = internal }

abbrev reported : RichError
reported =
    rich_error ("Service.Login" ∷ "repository.GetUserByEmail" ∷ [])
      (report "repository.GetUserByEmail" no_rows "user not found" not_found) "login failed"
      internal []
