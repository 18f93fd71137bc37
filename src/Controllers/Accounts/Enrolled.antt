-- ===== src/Controllers/Accounts/Enrolled.antt =====
-- create_device of src/controllers/device_controller.rs: what a created device has passed.
use hush_net_backend.Prelude.{
  suc, String, true, false, ◌≡◌, sym, ap, subst, ◌∙◌, [], ◌∷◌, ==_refl, exists_where,
  exists_where-append, arith,
}
use text.Mathlib.TextPositions.{eq_refl}
use hush_net_backend.Models.{Devices}
use hush_net_backend.Store.{Db, World, ok, Call, call_of, map_err}
use hush_net_backend.Store.Inversion.{
  bind_elim, mapped_query_elim, throw_if_elim, gets_step, map_err-eq-ok, pure-eq-ok, ok-injective,
  after,
}
use hush_net_backend.Web.{AppState, Response, respond, device}
use hush_net_backend.Repository.Shadow.{same_device_key, user_exists}
use hush_net_backend.Repository.Accounts.{
  NewDevice, registered, create_device_statement, create_device as insert_device,
}
use hush_net_backend.Repository.Enrollment.{
  is_token, enrollment_token_exists, add_token_statement, add_used_token,
}
use hush_net_backend.Utils.Crypto.{verify_signed_prekey_signature}
use hush_net_backend.Utils.Crypto.Prekeys.{SignedBy, prekey-SignedBy}
use hush_net_backend.Utils.Tokens.{verify_enrollment_token}
use hush_net_backend.Controllers.Accounts.{CreateDeviceBody, is_other, new_device, create_device}

-- The token is on record as used.
abbrev pub TokenUsed : String → Db → Type 0
TokenUsed token db = exists_where (is_token token) db.used_tokens ≡ true

add_token-used :
    (token : String) (c : Call) (db : Db) → TokenUsed token (add_token_statement token c db).1
unfolding add_token_statement
add_token-used token c db = ground (
  arith,
  exists_where-append (is_token token) db.used_tokens
      (record { token = token; used_at = c.now } ∷ []),
  eq_refl token,
)

insert_device-stores :
    (n : NewDevice) (c : Call) (db : Db) (d : Devices)
    → (create_device_statement n c db).0 ≡ ok d
    → (exists_where
          (same_device_key n.user_id n.identity_pubkey)
          (create_device_statement n c db).1.devices
        ≡ true)
      × (d.user_id ≡ n.user_id)
      × (user_exists n.user_id db ≡ true)
unfolding create_device_statement
insert_device-stores n c db d h = (
  ground (
    arith,
    h,
    exists_where-append (same_device_key n.user_id n.identity_pubkey) db.devices
        (registered n c ∷ []),
    eq_refl n.identity_pubkey,
    ==_refl n.user_id,
  ),
  ground (arith, h),
  ground (arith, h),
)

add_token-devices :
    (token : String) (c : Call) (db : Db) → (add_token_statement token c db).1.devices ≡ db.devices
unfolding add_token_statement
add_token-devices token c db = ground arith

-- What a device creation that was answered without an error has checked and written.
pub record DeviceCreated (state : AppState) (payload : CreateDeviceBody) (w v : World)
    (r : Response) : Type 0 where
  -- the token was not used before, and the user it names, if it names one, is the one asked for
  pub unused : exists_where (is_token payload.enrollment_token) w.db.used_tokens ≡ false
  pub owner :
      is_other payload.user_id (
        verify_enrollment_token payload.enrollment_token state.jwt_secret
          (record w { calls = suc w.calls }))
      ≡ false
  pub signed :
      SignedBy w.env payload.identity_pubkey payload.signed_prekey.key
        payload.signed_prekey.signature
  pub created : Devices
  pub answer : r ≡ respond 201 (device created)
  pub of_user : created.user_id ≡ payload.user_id
  pub stored :
      exists_where (same_device_key payload.user_id payload.identity_pubkey) v.db.devices ≡ true
  pub used : TokenUsed payload.enrollment_token v.db

-- A device creation that is answered without an error has checked that the token is new and not of
-- another user and that the prekey is signed, has stored a device of the user, and has put the
-- token on record.
pub create_device-DeviceCreated :
    (state : AppState) (payload : CreateDeviceBody) (w v : World) (r : Response)
    → create_device state payload w ≡ (ok r, v)
    → DeviceCreated state payload w v r
unfolding create_device enrollment_token_exists insert_device add_used_token
create_device-DeviceCreated state payload w v r e = mapped_query_elim _ _ _ e (λ seen said1 e1.
    throw_if_elim seen _ _ e1 (λ fresh e2.
      let w1 : World = record w { calls = suc w.calls } in
      let e3 = gets_step _ _ (gets_step _ _ e2) in
      bind_elim (map_err _ (verify_signed_prekey_signature _ _ _ _)) _ e3 (λ done u run e4.
        let (signed, same) = prekey-SignedBy w.env _ _ _ w1 u done (map_err-eq-ok _ _ run) in
        throw_if_elim (is_other payload.user_id _) _ _ e4 (λ mine e5.
          mapped_query_elim _ (create_device_statement (new_device payload)) _ e5 (λ d said6 e6.
            mapped_query_elim _ (add_token_statement payload.enrollment_token) _ e6
              (λ done' said7 e7.
                let (answer, next) = pure-eq-ok (respond 201 (device d)) e7 in
                let (there, of_user, _) =
                  insert_device-stores (new_device payload) (call_of u) u.db d said6 in
                let x : World = after (create_device_statement (new_device payload)) u in
                record {
                  unused = ok-injective said1 ∙ fresh;
                  owner = mine;
                  signed = signed;
                  created = d;
                  answer = sym answer;
                  of_user = of_user;
                  stored =
                      subst
                        (λ (y : World).
                          exists_where (same_device_key payload.user_id payload.identity_pubkey)
                            y.db.devices
                          ≡ true)
                        next
                        (ap (exists_where (same_device_key payload.user_id payload.identity_pubkey))
                            (add_token-devices payload.enrollment_token (call_of x) x.db)
                          ∙ there);
                  used =
                      subst (λ (y : World). TokenUsed payload.enrollment_token y.db) next
                        (add_token-used payload.enrollment_token (call_of x) x.db);
                }))))))

-- A token enrols one device: after a creation that was answered without an error, and whatever else
-- happens that keeps the tokens on record, no creation with the same token succeeds.
pub token_once :
    (state state' : AppState) (payload payload' : CreateDeviceBody) (w v w' v' : World)
    (r r' : Response)
    → create_device state payload w ≡ (ok r, v)
    → (TokenUsed payload.enrollment_token v.db → TokenUsed payload.enrollment_token w'.db)
    → payload'.enrollment_token ≡ payload.enrollment_token
    → ¬ (create_device state' payload' w' ≡ (ok r', v'))
token_once state state' payload payload' w v w' v' r r' first kept same second =
    let a = create_device-DeviceCreated state payload w v r first in
    let b = create_device-DeviceCreated state' payload' w' v' r' second in
    ground (
      arith,
      kept a.used,
      subst (λ t. exists_where (is_token t) w'.db.used_tokens ≡ false) same b.unused,
    )
