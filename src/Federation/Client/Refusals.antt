-- ===== src/Federation/Client/Refusals.antt =====
-- The responses that `error_for_status` of src/federation/client.rs turns into an error.
use hush_net_backend.Prelude.{true, ◌≡◌, refl}
use hush_net_backend.Web.{Response, ResponseBody, respond}
use hush_net_backend.Federation.Client.{is_error_status}

-- The response is an error to `error_for_status`.
abbrev pub Refusal : Response → Type 0
Refusal r = is_error_status r.code ≡ true

pub refuses_400 : (b : ResponseBody) → Refusal (respond 400 b)
refuses_400 b = refl

pub refuses_401 : (b : ResponseBody) → Refusal (respond 401 b)
refuses_401 b = refl

pub refuses_403 : (b : ResponseBody) → Refusal (respond 403 b)
refuses_403 b = refl

pub refuses_404 : (b : ResponseBody) → Refusal (respond 404 b)
refuses_404 b = refl

pub refuses_500 : (b : ResponseBody) → Refusal (respond 500 b)
refuses_500 b = refl

pub refuses_502 : (b : ResponseBody) → Refusal (respond 502 b)
refuses_502 b = refl

pub refuses_503 : (b : ResponseBody) → Refusal (respond 503 b)
refuses_503 b = refl

pub ruleset refusals =
    (refuses_400, refuses_401, refuses_403, refuses_404, refuses_500, refuses_502, refuses_503)
