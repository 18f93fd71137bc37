-- ===== src/Tests/Devices.antt =====
-- The theorems on the authentication of devices, at the small nodes.
use hush_net_backend.Prelude.{
  ◌≡◌, refl, subst, String, Option, none, some, [], ◌∷◌, str_eq, false, if◌then◌else◌,
}
use hush_net_backend.Prelude.Text.{as_bytes}
use hush_net_backend.Prelude.Decimal.{parse_i64}
use hush_net_backend.Models.{Devices}
use hush_net_backend.Store.{World, ok, query, ◌>>=◌}
use hush_net_backend.Web.{Parts, HeaderValue, text}
use hush_net_backend.Repository.Accounts.{get_device_by_identity_key}
use hush_net_backend.Auth.Window.{outside_window}
use hush_net_backend.Auth.Device.{or_zero, authenticate_device}
use hush_net_backend.Auth.Device.Replayed.{Shown, authenticate_device-Shown, device_headers_replay}
use hush_net_backend.Tests.Fixtures.{env, encode, zeros, phone, db, w0}
use mathlib.Core.Option.{some-injective}

abbrev key : String
key = encode (zeros 32)

abbrev signature : String
signature = encode (env.sign (zeros 32) (as_bytes "5000"))

abbrev headers : String → Option HeaderValue
headers name =
    if str_eq name "X-Identity-Key"
    then some (text key)
    else if str_eq name "X-Signature"
    then some (text signature)
    else if str_eq name "X-Timestamp"
    then some (text "5000")
    else none

abbrev parts : Parts
parts = record { header = headers; method = "GET"; path_and_query = some "/messages/pending" }

-- another request with the same headers
abbrev other : Parts
other = record { header = headers; method = "POST"; path_and_query = some "/messages" }

abbrev owner : Devices
owner = record phone { identity_pubkey = key }

abbrev w1 : World
w1 = record w0 { db = record db { devices = owner ∷ [] } }

abbrev w2 : World
w2 = record w1 { calls = 1 }

accepted : authenticate_device parts w1 ≡ (ok owner, w2)
unfolding authenticate_device get_device_by_identity_key query ◌>>=◌ outside_window parse_i64
    as_bytes
accepted = refl

in_time : outside_window 30 5000 (or_zero (parse_i64 "5000")) ≡ false
unfolding outside_window parse_i64
in_time = refl

authenticate_device-Shown_example : Shown parts w1 owner
authenticate_device-Shown_example = authenticate_device-Shown parts w1 w2 owner accepted

device_headers_replay_example : (authenticate_device other w2).0 ≡ ok owner
device_headers_replay_example =
    device_headers_replay parts other w1 w2 w2 owner accepted refl refl refl refl (λ ts h.
      subst (λ t. outside_window 30 5000 (or_zero (parse_i64 t)) ≡ false)
        (some-injective "5000" ts h) in_time)
