-- ===== src/Utils/Crypto/Prekeys.antt =====
-- verify_signed_prekey_signature of src/utils/crypto_utils.rs: what it accepts.
use hush_net_backend.Prelude.{String, Bool, true, false, not, ◌≡◌, some, arith}
use hush_net_backend.Store.{Env, World, Bytes, ok}
use hush_net_backend.Store.Inversion.{ok_or_elim, throw_if_elim, throw_if-eq-ok}
use hush_net_backend.Utils.Crypto.{is_key, is_signature, verify_signed_prekey_signature}

-- The second text is signed by the first, a key, with the third as the signature.
pub record SignedBy (env : Env) (identity spk sig : String) : Type 0 where
  pub identity_bytes : Bytes
  pub spk_bytes : Bytes
  pub sig_bytes : Bytes
  pub identity_decodes : env.decode_b64 identity ≡ some identity_bytes
  pub spk_decodes : env.decode_b64 spk ≡ some spk_bytes
  pub sig_decodes : env.decode_b64 sig ≡ some sig_bytes
  pub valid_identity : is_key env identity_bytes ≡ true
  pub valid_length : is_signature sig_bytes ≡ true
  pub verified : env.verify identity_bytes spk_bytes sig_bytes ≡ true

pub un_not : {b : Bool} → not b ≡ false → b ≡ true
un_not {b} h = ground arith

pub prekey-SignedBy :
    (env : Env) (identity spk sig : String) (w v : World) (a : Unit {0})
    → verify_signed_prekey_signature env identity spk sig w ≡ (ok a, v)
    → SignedBy env identity spk sig × (w ≡ v)
unfolding verify_signed_prekey_signature
prekey-SignedBy env identity spk sig w v a e =
    ok_or_elim (env.decode_b64 identity) _ _ e (λ ib d1 e1.
      ok_or_elim (env.decode_b64 spk) _ _ e1 (λ pb d2 e2.
        ok_or_elim (env.decode_b64 sig) _ _ e2 (λ sb d3 e3.
          throw_if_elim (not (is_key env ib)) _ _ e3 (λ k1 e4.
            throw_if_elim (not (is_signature sb)) _ _ e4 (λ k2 e5.
              let (k3, same) = throw_if-eq-ok (not (env.verify ib pb sb)) _ e5 in
              (
                record {
                  identity_bytes = ib;
                  spk_bytes = pb;
                  sig_bytes = sb;
                  identity_decodes = d1;
                  spk_decodes = d2;
                  sig_decodes = d3;
                  valid_identity = un_not k1;
                  valid_length = un_not k2;
                  verified = un_not k3;
                },
                same,
              ))))))
