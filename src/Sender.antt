-- ===== src/Sender.antt =====
-- pkg/sender/factory.go: the choice of a provider for push notifications. The constructors of the
-- senders, which call remote services, are parameters.
use Prim.Native.String.{◌++◌ as join}
use text.Mathlib.Text.{◌==◌ as str_eq}
use mini_wallet.Base.{String, ◌||◌, if◌then◌else◌}
use mini_wallet.RichError.{plain}
use mini_wallet.Sql.{Result, ok, err}

pub record Config : Type 0 where
  pub provider : String
  pub app_id : String
  pub api_key : String
  pub credentials_file : String

abbrev pub one_signal : String
one_signal = "one_signal"

abbrev pub firebase : String
firebase = "firebase"

-- `NewFactory`; the factory is its config.
unfoldable pub new_factory : Config → Result Config
new_factory config =
    if str_eq config.provider ""
    then err (plain "provider type is required")
    else if str_eq config.provider one_signal
    then (if str_eq config.app_id "" || str_eq config.api_key ""
        then err (plain "one_signal config is incomplete")
        else ok config)
    else if str_eq config.provider firebase
    then (if str_eq config.credentials_file ""
        then err (plain "firebase config is incomplete")
        else ok config)
    else err (plain (join "unsupported provider: " config.provider))

-- `CreateSender`
unfoldable pub create_sender :
    {Sender : Type 0} → (Config → Sender) → (Config → Result Sender) → Config → Result Sender
create_sender new_one_signal_sender new_firebase_sender config =
    if str_eq config.provider one_signal
    then ok (new_one_signal_sender config)
    else if str_eq config.provider firebase
    then new_firebase_sender config
    else err (plain (join "unsupported provider: " config.provider))
