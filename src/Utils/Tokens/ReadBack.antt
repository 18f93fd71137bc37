-- ===== src/Utils/Tokens/ReadBack.antt =====
-- A token of src/services/auth.rs, read back while it lasts.
use hush_net_backend.Prelude.{ℕ, ◌+◌, ◌≤◌, String, ◌≡◌, ap, ◌∙◌, Option, none, some}
use hush_net_backend.Models.{Uuid}
use hush_net_backend.Store.{Env, World}
use hush_net_backend.Utils.Tokens.{generate_enrollment_tokens, verify_enrollment_token}

-- The crates jsonwebtoken and uuid, at one id and one secret: a token that has not expired gives its
-- subject, and the text of the id gives the id.
pub record TokensOf (env : Env) (id : Uuid) (secret : String) : Type 0 where
  pub decodes :
      (exp now : ℕ)
      → now ≤ exp
      → env.decode_jwt now (env.encode_jwt (env.uuid_text id) exp secret) secret
        ≡ some (env.uuid_text id)
  pub parses : env.parse_uuid (env.uuid_text id) ≡ some id

-- While it lasts, a token names the user it was made for.
pub verify-generate :
    (id : Uuid) (secret : String) (w v : World)
    → v.env ≡ w.env
    → TokensOf w.env id secret
    → w.env.utc_now v.calls ≤ w.env.utc_now w.calls + 300
    → verify_enrollment_token (generate_enrollment_tokens id secret w) secret v ≡ some id
unfolding generate_enrollment_tokens verify_enrollment_token
verify-generate id secret w v same t h =
    ap (λ (e : Env). parsed e (e.decode_jwt (e.utc_now v.calls) token secret)) same
    ∙ ap (parsed w.env) (t.decodes (w.env.utc_now w.calls + 300) (w.env.utc_now v.calls) h)
    ∙ t.parses
  where
    token : String
    token = generate_enrollment_tokens id secret w

    parsed : Env → Option String → Option Uuid
    parsed e o = elim o [ none ↦ none | some sub ↦ e.parse_uuid sub ]
