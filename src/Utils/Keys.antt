-- ===== src/Utils/Keys.antt =====
-- src/utils/node_keys.rs: the node's key pair, signing and verifying.
use hush_net_backend.Prelude.{ℕ, String, Bool, ◌==◌, Option, none, some, length, if◌then◌else◌}
use hush_net_backend.Store.{Env, Bytes, Result, ok, err}
use hush_net_backend.Web.{NodeKeys, ClientError, undecodable_private_key, private_key_length}

-- bytes.try_into() to an array of `n` bytes
abbrev pub to_array : ℕ → Bytes → Option Bytes
to_array n bytes = if length bytes == n then some bytes else none

abbrev key_of_bytes : Option Bytes → Result ClientError Bytes
key_of_bytes none = err undecodable_private_key
key_of_bytes (some bytes) = if length bytes == 32 then ok bytes else err private_key_length

unfoldable pub signing_key : Env → NodeKeys → Result ClientError Bytes
signing_key env keys = key_of_bytes (env.decode_b64 keys.private_b64)

-- the public half as a verifying key, or nothing where one of the three steps fails
unfoldable pub verifying_key : Env → NodeKeys → Option Bytes
verifying_key env keys = elim (env.decode_b64 keys.public_b64) [
  | none ↦ none
  | some bytes ↦
      if length bytes == 32 then (if env.valid_key bytes then some bytes else none) else none
]

abbrev signed : Env → Bytes → Result ClientError Bytes → Option String
signed env message (err e) = none
signed env message (ok key) = some (env.encode_b64 (env.sign key message))

unfoldable pub sign_message : Env → NodeKeys → Bytes → Option String
sign_message env keys message = signed env message (signing_key env keys)

abbrev checked : Env → Bytes → Option Bytes → Option Bytes → Option Bool
checked env message none sig = none
checked env message (some vk) none = none
checked env message (some vk) (some sig) =
    if length sig == 64 then some (env.verify vk message sig) else none

unfoldable pub verify_message : Env → NodeKeys → Bytes → String → Option Bool
verify_message env keys message signature_b64 =
    checked env message (verifying_key env keys) (env.decode_b64 signature_b64)
