-- ===== src/Auth/Http/Devices.antt =====
-- `getDeviceContext` of internal/auth/delivery/http/handler.go, and identity.go, platform.go,
-- device_name.go and app_version.go of pkg/middleware.
use text.Mathlib.Text.{◌==◌ as str_eq}
use mini_wallet.Base.{ℕ, List, String, if◌then◌else◌, ltb, ◌==◌}
use mini_wallet.Auth.Tables.{DeviceContext}

-- The headers that the middlewares read, a missing one as the empty text; of the installation id its
-- number, and its length.
pub record Headers : Type 0 where
  pub installation_id : ℕ
  pub installation_length : ℕ
  pub platform : String
  pub device_name : String
  pub app_version : String

-- What a middleware does: abort with 400 and an error, or go on.
pub data Passed : Type 0 where
  aborted : String → Passed
  next : Passed

abbrev pub identity_middleware : Headers → Passed
identity_middleware h =
    if h.installation_length == 0
    then aborted "missing installation id"
    else if ltb h.installation_length 10
    then aborted "invalid installation id"
    else next

abbrev pub platform_middleware : Headers → Passed
platform_middleware h = if str_eq h.platform "" then aborted "missing platform id" else next

abbrev pub app_version_middleware : Headers → Passed
app_version_middleware h = if str_eq h.app_version "" then aborted "missing app version" else next

abbrev pub device_name_middleware : Headers → Passed
device_name_middleware h = if str_eq h.device_name "" then aborted "missing device name" else next

abbrev pub and_then : Passed → Passed → Passed
and_then (aborted e) p = aborted e
and_then next p = p

-- `public.Use(...)` and `sessionsRouter.Use(...)`
unfoldable pub device_middlewares : Headers → Passed
device_middlewares h = and_then (identity_middleware h) (
    and_then (platform_middleware h)
      (and_then (app_version_middleware h) (device_name_middleware h)))

-- The user agent and the address are what `Value` of the gin context gives for their keys; the
-- address is parsed by the net package.
abbrev pub get_device_context : (List ℕ → List ℕ) → Headers → String → List ℕ → DeviceContext
get_device_context parse_ip h user_agent ip_address = record {
  user_agent = user_agent;
  ip_address = parse_ip ip_address;
  installation_id = h.installation_id;
  platform = h.platform;
  device_name = h.device_name;
  app_version = h.app_version;
}
