-- ===== src/Controllers/Accounts.antt =====
-- src/controllers/device_controller.rs and user_controller.rs
pub mod Login
pub mod Creates
pub mod Unverified
pub mod Enrolment
pub mod Enrolled
use hush_net_backend.Prelude.{
  String, Bool, false, not, Option, none, some, List, map, str_eq, ◌==◌, if◌then◌else◌,
}
use hush_net_backend.Models.{Uuid, User, SignedPreKey, OneTimePrekeys, json_strings}
use hush_net_backend.Store.{
  ◌>>=◌, ◌>>◌, Exec, SqlError, database, row_not_found, column_decode, connection, pure, throw_if,
  gets, map_err,
}
use hush_net_backend.Web.{
  AppState, Response, respond, error, device, devices, bundles, user, users, enrolled,
}
use hush_net_backend.Repository.Accounts.{
  NewDevice, create_device as insert_device, get_devices_by_user_id, get_device_bundle,
  get_user_for_device as find_user_for_device, create_user as insert_user, find_user_by_pubkey,
  find_user_by_id, get_all_users,
}
use hush_net_backend.Repository.Enrollment.{enrollment_token_exists, add_used_token}
use hush_net_backend.Utils.Crypto.{verify_signed_prekey_signature, verify_message_signature}
use hush_net_backend.Utils.Tokens.{generate_enrollment_tokens, verify_enrollment_token}

pub record CreateDeviceBody : Type 0 where
  pub user_id : Uuid
  pub identity_pubkey : String
  pub prekey_pubkey : String
  pub signed_prekey : SignedPreKey
  pub one_time_prekeys : List OneTimePrekeys
  pub device_label : String
  pub push_token : String
  pub enrollment_token : String

pub record CreateUserBody : Type 0 where
  pub username : String

pub record LoginUserBody : Type 0 where
  pub identity_pubkey : String
  pub message : String
  pub signature : String

abbrev pub wrong_token : Response
wrong_token = respond 401 (error "Wrong or expired enrollment token for user")

-- `if let Some(id) = user { if id != payload.user_id { … } }`: no user passes
abbrev pub is_other : Uuid → Option Uuid → Bool
is_other user_id none = false
is_other user_id (some id) = not (id == user_id)

abbrev pub new_device : CreateDeviceBody → NewDevice
new_device payload = record {
  user_id = payload.user_id;
  identity_pubkey = payload.identity_pubkey;
  prekey_pubkey = payload.prekey_pubkey;
  signed_prekey_pub = payload.signed_prekey.key;
  signed_prekey_sig = payload.signed_prekey.signature;
  one_time_prekeys = json_strings (map (λ (p : OneTimePrekeys). p.key) payload.one_time_prekeys);
  device_label = payload.device_label;
  push_token = payload.push_token;
}

-- `db_err.code() == code`
abbrev has_code : String → SqlError → Bool
has_code code (database c) = str_eq c code
has_code code row_not_found = false
has_code code column_decode = false
has_code code connection = false

abbrev pub device_failure : SqlError → Response
device_failure e =
    if has_code "23503" e
    then respond 400 (error "User ID does not exist")
    else respond 500 (error "Error creating device")

unfoldable pub create_device : AppState → CreateDeviceBody → Exec Response Response
create_device state payload = do
  used ←
      map_err (λ _. respond 500 (error "Database error"))
        (enrollment_token_exists payload.enrollment_token)
  throw_if used wrong_token
  owner ← gets (λ w. verify_enrollment_token payload.enrollment_token state.jwt_secret w)
  env ← gets (λ w. w.env)
  map_err (λ _. respond 401 (error "Signature check failed."))
      (verify_signed_prekey_signature env payload.identity_pubkey payload.signed_prekey.key
        payload.signed_prekey.signature)
  throw_if (is_other payload.user_id owner) wrong_token
  created ← map_err device_failure (insert_device (new_device payload))
  map_err (λ _. respond 500 (error "Error creating device"))
      (add_used_token payload.enrollment_token)
  pure (respond 201 (device created))

unfoldable pub get_devices_for_user : Uuid → Exec Response Response
get_devices_for_user user_id = do
  found ←
      map_err (λ _. respond 500 (error "Internal server error")) (get_devices_by_user_id user_id)
  pure (respond 200 (devices found))

unfoldable pub get_user_keys : Uuid → Exec Response Response
get_user_keys user_id = do
  found ←
      map_err (λ _. respond 404 (error "User not found or has no active devices"))
        (get_device_bundle user_id)
  pure (respond 200 (bundles found))

unfoldable pub get_user_for_device : Uuid → Exec Response Response
get_user_for_device device_id = do
  found ←
      map_err (λ _. respond 404 (error "User not found for device"))
        (find_user_for_device device_id)
  pure (respond 200 (user found))

abbrev pub user_failure : SqlError → Response
user_failure e =
    if has_code "23505" e
    then respond 409 (error "User already exists")
    else respond 500 (error "Error creating user")

unfoldable pub create_user : AppState → CreateUserBody → Exec Response Response
create_user state payload = do
  created ← map_err user_failure (insert_user payload.username)
  token ← gets (generate_enrollment_tokens created.id state.jwt_secret)
  pure (respond 201 (enrolled created token))

unfoldable pub login_user : LoginUserBody → Exec Response Response
login_user payload = do
  env ← gets (λ w. w.env)
  map_err (λ _. respond 401 (error "Invalid signature"))
      (verify_message_signature env payload.identity_pubkey payload.message payload.signature)
  found ←
      map_err (λ _. respond 401 (error "Unauthorized"))
        (find_user_by_pubkey payload.identity_pubkey)
  pure (respond 200 (user found))

unfoldable pub get_user_by_id : Uuid → Exec Response Response
get_user_by_id user_id = do
  found ← map_err (λ _. respond 500 (error "Internal server error")) (find_user_by_id user_id)
  pure (respond 200 (user found))

-- `unwrap` on the error of a statement: the task panics, and no response is sent.
pub data Panic : Type 0 where
  unwrapped : SqlError → Panic

unfoldable pub list_users : Exec Panic Response
list_users = do found ← map_err unwrapped get_all_users; pure (respond 200 (users found))
