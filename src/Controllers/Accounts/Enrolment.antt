-- ===== src/Controllers/Accounts/Enrolment.antt =====
-- From create_user of src/controllers/user_controller.rs to create_device of device_controller.rs.
use hush_net_backend.Prelude.{
  suc, ◌+◌, ◌≤◌, String, not, ◌≡◌, sym, ap, ◌∙◌, some, ◌==◌, Bool-cases, inl, inr, ◌⊎◌, false,
  ==_iff, arith,
}
use hush_net_backend.Models.{Uuid, User}
use hush_net_backend.Store.{World, ok, err}
use hush_net_backend.Store.Inversion.{bind_elim, gets_step, pure-eq-ok}
use hush_net_backend.Web.{AppState, Response, ResponseBody, respond, enrolled}
use hush_net_backend.Utils.Tokens.{generate_enrollment_tokens, verify_enrollment_token}
use hush_net_backend.Utils.Tokens.ReadBack.{TokensOf, verify-generate}
use hush_net_backend.Controllers.Accounts.{
  CreateDeviceBody, CreateUserBody, wrong_token, is_other, create_device, create_user,
}
use hush_net_backend.Controllers.Accounts.Creates.{
  Creatable, Gives, create_device-Gives, create_device_refuses,
}

abbrev token_in : ResponseBody → String
token_in (enrolled u token) = token
token_in _ = ""

abbrev id_in : ResponseBody → Uuid
id_in (enrolled u token) = u.id
id_in _ = 0

-- the token that a creation hands out
created-token :
    (state : AppState) (body : CreateUserBody) (w v : World) (u : User) (token : String)
    → create_user state body w ≡ (ok (respond 201 (enrolled u token)), v)
    → generate_enrollment_tokens u.id state.jwt_secret v ≡ token
unfolding create_user
created-token state body w v u token e = bind_elim _ _ e (λ created x made rest.
    let (answer, next) = pure-eq-ok _ (gets_step _ _ rest) in
    let ids : created.id ≡ u.id = ap (λ (r : Response). id_in r.body) answer in
    ap (generate_enrollment_tokens u.id state.jwt_secret) (sym next)
    ∙ ap (λ id. generate_enrollment_tokens id state.jwt_secret x) (sym ids)
    ∙ ap (λ (r : Response). token_in r.body) answer)

-- The creation gives the device to the user `id`, if it asks for that user, and else it is refused and
-- writes nothing.
abbrev pub Decides : AppState → CreateDeviceBody → World → Uuid → Type 0
Decides state payload w id =
    ((id ≡ payload.user_id) × Gives state payload w)
    ⊎ ((¬ (id ≡ payload.user_id))
        × (create_device state payload w ≡ (err wrong_token, record w { calls = suc w.calls })))

decided :
    (state : AppState) (payload : CreateDeviceBody) (w : World) (id : Uuid)
    → Creatable state payload w
    → verify_enrollment_token payload.enrollment_token state.jwt_secret
        (record w { calls = suc w.calls })
      ≡ some id
    → Decides state payload w id
decided state payload w id c names = elim (Bool-cases (id == payload.user_id)) [
  | inl mine ↦ inl (
    (==_iff id payload.user_id).0 mine,
    create_device-Gives state payload w c (ap (is_other payload.user_id) names ∙ ap not mine),
  )
  | inr others ↦ inr (
    other_user others,
    create_device_refuses state payload w c (ap (is_other payload.user_id) names ∙ ap not others),
  )
]
  where
    other_user : (id == payload.user_id) ≡ false → ¬ (id ≡ payload.user_id)
    other_user apart same = ground (arith, apart, same)

-- The token that create_user hands out enrols a device for its user: a creation with it for that user
-- is answered with 201, the user has a device with the identity key and the token is recorded as used.
-- For the five minutes that it lasts, a creation with it for any other user is refused and writes
-- nothing. The creation has what it needs beside the token: the prekey is signed, token and key are
-- new, the user exists and the database answers.
pub token_enrols_owner :
    (state : AppState) (body : CreateUserBody) (payload : CreateDeviceBody) (w v w' : World)
    (u : User) (token : String)
    → create_user state body w ≡ (ok (respond 201 (enrolled u token)), v)
    → TokensOf v.env u.id state.jwt_secret
    → w'.env ≡ v.env
    → v.env.utc_now (suc w'.calls) ≤ v.env.utc_now v.calls + 300
    → payload.enrollment_token ≡ token
    → Creatable state payload w'
    → Decides state payload w' u.id
token_enrols_owner state body payload w v w' u token made tokens env lasts same c =
    decided state payload w' u.id c (
      ap (λ t. verify_enrollment_token t state.jwt_secret (record w' { calls = suc w'.calls }))
        (same ∙ sym (created-token state body w v u token made))
      ∙ verify-generate u.id state.jwt_secret v (record w' { calls = suc w'.calls }) env tokens
          lasts)
