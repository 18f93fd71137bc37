-- ===== src/Utils/Tokens.antt =====
-- src/services/auth.rs: enrollment tokens.
pub mod ReadBack
use hush_net_backend.Prelude.{◌+◌, String, Option, none, some}
use hush_net_backend.Models.{Uuid, EnrollmentClaims}
use hush_net_backend.Store.{World}

-- the user's id as the subject, and five minutes from now
abbrev claims_for : Uuid → World → EnrollmentClaims
claims_for user_id w = record { sub = w.env.uuid_text user_id; exp = w.env.utc_now w.calls + 300 }

unfoldable pub generate_enrollment_tokens : Uuid → String → World → String
generate_enrollment_tokens user_id secret w =
    let claims = claims_for user_id w in w.env.encode_jwt claims.sub claims.exp secret

unfoldable pub verify_enrollment_token : String → String → World → Option Uuid
verify_enrollment_token token secret w =
    elim (w.env.decode_jwt (w.env.utc_now w.calls) token secret) [
      | none ↦ none
      | some sub ↦ w.env.parse_uuid sub
    ]
