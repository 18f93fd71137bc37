-- ===== src/Controllers/Accounts/Creates.antt =====
-- create_device of src/controllers/device_controller.rs, run forward.
use hush_net_backend.Prelude.{ℕ, suc, String, true, false, not, ◌≡◌, ap, ◌∙◌, exists_where, arith}
use hush_net_backend.Models.{Devices}
use hush_net_backend.Store.{Db, World, Result, ok, err, SqlError, Call, fine, call_of}
use hush_net_backend.Store.Inversion.{after, query_fine}
use hush_net_backend.Store.Forward.{
  bind_step, ok_or_step, gets_run, throw_if_step, throw_if_run, throw_if_stop, map_err_step,
  pure_run,
}
use hush_net_backend.Web.{AppState, Response, respond, device}
use hush_net_backend.Repository.Shadow.{same_device_key, user_exists}
use hush_net_backend.Repository.Accounts.{
  NewDevice, registered, create_device_statement, create_device as insert_device,
}
use hush_net_backend.Repository.Sessions.{has_device_id}
use hush_net_backend.Repository.Enrollment.{
  is_token, enrollment_token_exists, add_token_statement, add_used_token,
}
use hush_net_backend.Utils.Crypto.{verify_signed_prekey_signature}
use hush_net_backend.Utils.Crypto.Prekeys.{SignedBy}
use hush_net_backend.Controllers.Accounts.Enrolled.{DeviceCreated, create_device-DeviceCreated}
use hush_net_backend.Utils.Tokens.{verify_enrollment_token}
use hush_net_backend.Controllers.Accounts.{
  CreateDeviceBody, wrong_token, is_other, new_device, create_device,
}

verify_run :
    (identity spk sig : String) (w : World)
    → SignedBy w.env identity spk sig
    → (u : World) → verify_signed_prekey_signature w.env identity spk sig u ≡ (ok tt, u)
unfolding verify_signed_prekey_signature
verify_run identity spk sig w s u =
    ok_or_step _ _ u s.identity_decodes
    ∙ ok_or_step _ _ u s.spk_decodes
    ∙ ok_or_step _ _ u s.sig_decodes
    ∙ throw_if_step _ _ u (ap not s.valid_identity)
    ∙ throw_if_step _ _ u (ap not s.valid_length)
    ∙ throw_if_run _ u (ap not s.verified)

insert_run :
    (n : NewDevice) (c : Call) (db : Db)
    → exists_where (has_device_id c.new_id) db.devices ≡ false
    → exists_where (same_device_key n.user_id n.identity_pubkey) db.devices ≡ false
    → user_exists n.user_id db ≡ true
    → (create_device_statement n c db).0 ≡ ok (registered n c)
unfolding create_device_statement
insert_run n c db h1 h2 h3 = ground (arith, h1, h2, h3)

add_token_run : (token : String) (c : Call) (db : Db) → (add_token_statement token c db).0 ≡ ok tt
unfolding add_token_statement
add_token_run token c db = ground arith

-- What a creation needs beside a token that verifies.
pub record Creatable (state : AppState) (payload : CreateDeviceBody) (w : World) : Type 0 where
  pub no_fault : (i : ℕ) → w.env.fault i ≡ fine
  pub unused : exists_where (is_token payload.enrollment_token) w.db.used_tokens ≡ false
  pub signed :
      SignedBy w.env payload.identity_pubkey payload.signed_prekey.key
        payload.signed_prekey.signature
  pub fresh_id : exists_where (has_device_id (w.env.new_id (suc w.calls))) w.db.devices ≡ false
  pub fresh_key :
      exists_where (same_device_key payload.user_id payload.identity_pubkey) w.db.devices ≡ false
  pub user : user_exists payload.user_id w.db ≡ true

-- A creation that has what it needs gives the user the device, unless its token names another user.
create_device_run :
    (state : AppState) (payload : CreateDeviceBody) (w : World)
    → Creatable state payload w
    → is_other payload.user_id (
        verify_enrollment_token payload.enrollment_token state.jwt_secret
          (record w { calls = suc w.calls }))
      ≡ false
    → (create_device state payload w).0
      ≡ ok (
          respond 201
            (device (registered (new_device payload) (call_of (record w { calls = suc w.calls })))))
unfolding create_device enrollment_token_exists insert_device add_used_token
create_device_run state payload w c mine =
    let w1 : World = record w { calls = suc w.calls } in
    let n = new_device payload in
    let w2 : World = after (create_device_statement n) w1 in
    ap (λ (x : Result Response Response × World). x.0)
      (bind_step _ _ (map_err_step _ _ (query_fine _ w (c.no_fault w.calls)))
        ∙ throw_if_step _ _ w1 c.unused
        ∙ gets_run _ _ w1
        ∙ gets_run _ _ w1
        ∙ bind_step _ _ (map_err_step _ _ (verify_run _ _ _ w c.signed w1))
        ∙ throw_if_step _ _ w1 mine
        ∙ bind_step _ _ (
            map_err_step _ _ (
              query_fine (create_device_statement n) w1 (c.no_fault (suc w.calls))
              ∙ ap (λ (r : Result SqlError Devices). (r, w2))
                  (insert_run n (call_of w1) w1.db c.fresh_id c.fresh_key c.user)))
        ∙ bind_step _ _ (
            map_err_step _ _ (
              query_fine (add_token_statement payload.enrollment_token) w2
                (c.no_fault (suc (suc w.calls)))
              ∙ ap
                  (λ (r : Result SqlError (Unit {0})).
                    (r, after (add_token_statement payload.enrollment_token) w2))
                  (add_token_run payload.enrollment_token (call_of w2) w2.db)))
        ∙ pure_run (respond 201 (device (registered n (call_of w1))))
            (after (add_token_statement payload.enrollment_token) w2))

-- With a token that names another user the request is refused, and nothing is written.
pub create_device_refuses :
    (state : AppState) (payload : CreateDeviceBody) (w : World)
    → Creatable state payload w
    → is_other payload.user_id (
        verify_enrollment_token payload.enrollment_token state.jwt_secret
          (record w { calls = suc w.calls }))
      ≡ true
    → create_device state payload w ≡ (err wrong_token, record w { calls = suc w.calls })
unfolding create_device enrollment_token_exists
create_device_refuses state payload w c other =
    let w1 : World = record w { calls = suc w.calls } in
    bind_step _ _ (map_err_step _ _ (query_fine _ w (c.no_fault w.calls)))
    ∙ throw_if_step _ _ w1 c.unused
    ∙ gets_run _ _ w1
    ∙ gets_run _ _ w1
    ∙ bind_step _ _ (map_err_step _ _ (verify_run _ _ _ w c.signed w1))
    ∙ throw_if_stop _ _ w1 other

-- the answer to a creation that gives the user the device
abbrev pub created_at : CreateDeviceBody → World → Response
created_at payload w =
    respond 201
      (device (registered (new_device payload) (call_of (record w { calls = suc w.calls }))))

-- The creation is answered with the device, and the user has it.
abbrev pub Gives : AppState → CreateDeviceBody → World → Type 0
Gives state payload w =
    ((create_device state payload w).0 ≡ ok (created_at payload w))
    × DeviceCreated state payload w (create_device state payload w).1 (created_at payload w)

pub create_device-Gives :
    (state : AppState) (payload : CreateDeviceBody) (w : World)
    → Creatable state payload w
    → is_other payload.user_id (
        verify_enrollment_token payload.enrollment_token state.jwt_secret
          (record w { calls = suc w.calls }))
      ≡ false
    → Gives state payload w
create_device-Gives state payload w c mine =
    let answer = create_device_run state payload w c mine in
    (
      answer,
      create_device-DeviceCreated state payload w (create_device state payload w).1
          (created_at payload w)
          (ap (λ (r : Result Response Response). (r, (create_device state payload w).1)) answer),
    )
