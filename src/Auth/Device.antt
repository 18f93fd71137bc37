-- ===== src/Auth/Device.antt =====
-- src/middlewares/auth.rs: authentication of client devices.
pub mod Replayed
use hush_net_backend.Prelude.{ℕ, String, not, Option, none, some}
use hush_net_backend.Prelude.Text.{as_bytes}
use hush_net_backend.Prelude.Decimal.{parse_i64}
use hush_net_backend.Models.{Devices}
use hush_net_backend.Store.{◌>>=◌, ◌>>◌, Exec, gets, ok_or, map_err, throw_if, utc_now}
use hush_net_backend.Web.{Parts, HeaderValue, text, opaque, Response, respond, plain}
use hush_net_backend.Repository.Accounts.{get_device_by_identity_key}
use hush_net_backend.Utils.Keys.{to_array}
use hush_net_backend.Auth.Window.{outside_window}

abbrev pub text_of : Option HeaderValue → Option String
text_of none = none
text_of (some opaque) = none
text_of (some (text s)) = some s

-- ts.parse().unwrap_or(0)
abbrev pub or_zero : Option ℕ → ℕ
or_zero none = 0
or_zero (some n) = n

-- AuthenticatedDevice::from_request_parts
unfoldable pub authenticate_device : Parts → Exec Response Devices
authenticate_device parts = do
  ik_b64 ←
      ok_or (text_of (parts.header "X-Identity-Key")) (respond 401 (plain "Missing X-Identity-Key"))
  sig_b64 ← ok_or (text_of (parts.header "X-Signature")) (respond 401 (plain "Missing X-Signature"))
  ts ← ok_or (text_of (parts.header "X-Timestamp")) (respond 401 (plain "Missing X-Timestamp"))
  now ← utc_now
  throw_if (outside_window 30 now (or_zero (parse_i64 ts)))
      (respond 401 (plain "Expired timestamp"))
  env ← gets (λ w. w.env)
  sig_decoded ← ok_or (env.decode_b64 sig_b64) (respond 400 (plain "Bad signature b64"))
  sig ← ok_or (to_array 64 sig_decoded) (respond 400 (plain "Signature must be 64 bytes"))
  vk_bytes ← ok_or (env.decode_b64 ik_b64) (respond 400 (plain "Bad pubkey b64"))
  vk_arr ← ok_or (to_array 32 vk_bytes) (respond 400 (plain "Bad pubkey length"))
  throw_if (not (env.valid_key vk_arr)) (respond 400 (plain "Bad pubkey"))
  throw_if (not (env.verify vk_arr (as_bytes ts) sig)) (respond 401 (plain "Signature mismatch"))
  map_err (λ _. respond 401 (plain "Unknown device")) (get_device_by_identity_key ik_b64)
