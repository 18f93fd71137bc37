-- ===== src/Controllers/Accounts/Unverified.antt =====
-- create_device of src/controllers/device_controller.rs with a token that does not verify.
use hush_net_backend.Prelude.{suc, ◌≡◌, ap, none}
use hush_net_backend.Store.{World}
use hush_net_backend.Web.{AppState}
use hush_net_backend.Utils.Tokens.{verify_enrollment_token}
use hush_net_backend.Controllers.Accounts.{CreateDeviceBody, is_other}
use hush_net_backend.Controllers.Accounts.Creates.{Creatable, Gives, create_device-Gives}

-- A token that does not verify, being expired, forged or no token at all, is no obstacle: whatever
-- existing user the request names, the creation answers 201 with a device of that user, the user has a
-- device with the identity key, and the token's text is recorded as used. The prekey is signed by the
-- identity key that the request brings, the token's text and the key are new, and the database answers.
pub unverified_token_enrols :
    (state : AppState) (payload : CreateDeviceBody) (w : World)
    → Creatable state payload w
    → verify_enrollment_token payload.enrollment_token state.jwt_secret
        (record w { calls = suc w.calls })
      ≡ none
    → Gives state payload w
unverified_token_enrols state payload w c unverified =
    create_device-Gives state payload w c (ap (is_other payload.user_id) unverified)
