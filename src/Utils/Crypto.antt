-- ===== src/Utils/Crypto.antt =====
-- src/utils/crypto_utils.rs: the signatures of prekeys and of login messages.
pub mod Prekeys
use hush_net_backend.Prelude.{String, Bool, ◌==◌, ◌&&◌, length}
use hush_net_backend.Store.{◌>>=◌, ◌>>◌, Env, Bytes, Exec, ok_or, throw_if}
use mathlib.Core.Bool.{not}

-- VerifyingKey::try_from and Signature::try_from on a slice
abbrev pub is_key : Env → Bytes → Bool
is_key env bytes = length bytes == 32 && env.valid_key bytes

abbrev pub is_signature : Bytes → Bool
is_signature bytes = length bytes == 64

unfoldable pub verify_signed_prekey_signature :
    Env → String → String → String → Exec String (Unit {0})
verify_signed_prekey_signature env identity_pubkey_b64 spk_pub_b64 spk_sig_b64 = do
  identity_bytes ← ok_or (env.decode_b64 identity_pubkey_b64) "Invalid Base64 in identity_pubkey"
  spk_pubkey ← ok_or (env.decode_b64 spk_pub_b64) "Invalid Base64 in signed_prekey.key"
  spk_sig ← ok_or (env.decode_b64 spk_sig_b64) "Invalid Base64 in signed_prekey.signature"
  throw_if (not (is_key env identity_bytes)) "Invalid identity_pubkey bytes"
  throw_if (not (is_signature spk_sig)) "Invalid signed_prekey.signature bytes"
  throw_if (not (env.verify identity_bytes spk_pubkey spk_sig)) "Invalid signed_prekey signature"

unfoldable pub verify_message_signature : Env → String → String → String → Exec String (Unit {0})
verify_message_signature env pubkey_b64 message_b64 signature_b64 = do
  identity_bytes ← ok_or (env.decode_b64 pubkey_b64) "Invalid Base64 in pubkey"
  message ← ok_or (env.decode_b64 message_b64) "Invalid Base64 in message"
  signature ← ok_or (env.decode_b64 signature_b64) "Invalid Base64 in signature"
  throw_if (not (is_signature signature)) "Invalid signed_prekey.signature bytes"
  throw_if (not (is_key env identity_bytes)) "Invalid identity_pubkey bytes"
  throw_if (not (env.verify identity_bytes message signature)) "Invalid signature"
