-- ===== src/Wallet/Subscriber.antt =====
-- internal/wallet/subscriber/handler.go. The decoders of protobuf are parameters.
use text.Mathlib.Text.{◌==◌ as str_eq}
use mini_wallet.Base.{ℕ, List, String, if◌then◌else◌, ◌-◌, ◌%◌, ◌^◌}
use mini_wallet.Base.Int.{ℤ, pos, negsuc}
use mini_wallet.RichError.{Error, as_conflict}
use mini_wallet.Sql.{World, Result, ok, err, Action}
use mini_wallet.Inbox.Handling
use mini_wallet.Inbox.Handling.{Delivered}
use mini_wallet.Wallet.Tables.{Db, store}
use mini_wallet.Wallet.Service.{init_wallet}

-- `commonpb.EventEnvelope`: the type of the event, and its payload, which is still encoded.
pub record Envelope : Type 0 where
  pub event_type : String
  pub payload : List ℕ

-- `authpb.RegisterNewUser`
pub record RegisterNewUser : Type 0 where
  pub id : ℤ

-- `event.TypeAuthRegisterNewUser` (pkg/event)
abbrev pub register_new_user : String
register_new_user = "auth.v1.RegisterNewUser"

-- Go's conversion of an int64 to uint64.
unfoldable pub uint64_of : ℤ → ℕ
uint64_of (pos n) = n % 2 ^ 64
uint64_of (negsuc n) = 2 ^ 64 - 1 - n % 2 ^ 64

-- A conflict is an outcome, for `handleRegisterNewUser`, as good as a new wallet.
unfoldable pub skip_conflict : Result ℕ × World Db → Result (Unit {0}) × World Db
skip_conflict (r, w) = elim r [
  | ok _ ↦ (ok tt, w)
  | err e ↦ if as_conflict e then (ok tt, w) else (err e, w)
]

module _ (unmarshal : List ℕ → Result Envelope) (unmarshal_to : List ℕ → Result RegisterNewUser)
    (wallet_uuid : ℕ) where
  unfoldable pub registered : Result RegisterNewUser → Action Db (Unit {0})
  unfolding skip_conflict
  registered (err e) w = (err e, w)
  registered (ok ev) w = skip_conflict (init_wallet wallet_uuid (uint64_of ev.id) w)

  unfoldable pub handle_register_new_user : Envelope → Action Db (Unit {0})
  unfolding registered
  handle_register_new_user ev = registered (unmarshal_to ev.payload)

  unfoldable pub handle_event : Envelope → Action Db (Unit {0})
  unfolding handle_register_new_user
  handle_event ev w =
      if str_eq ev.event_type register_new_user then handle_register_new_user ev w else (ok tt, w)

  unfoldable pub handle : Delivered → World Db → Error × World Db
  handle msg w = Handling.handle store unmarshal handle_event msg w
