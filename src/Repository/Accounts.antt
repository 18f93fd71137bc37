-- ===== src/Repository/Accounts.antt =====
-- src/repository/device_repository.rs and user_repository.rs
pub mod Bundles
use hush_net_backend.Prelude.{
  String, Bool, not, ◌&&◌, Option, none, some, List, [], ◌∷◌, ◌++◌, str_eq, ◌==◌, if◌then◌else◌,
  exists_where, find_where, select_where, order_by_desc, map,
}
use hush_net_backend.Models.{
  Uuid, Timestamp, Value, User, UserRow, Devices, DeviceBundle, to_strings,
}
use hush_net_backend.Store.{
  ◌>>=◌, Db, Result, ok, err, Exec, Statement, Call, SqlError, unique_violation,
  foreign_key_violation, column_decode, query, fetch_one, head?, lift,
}
use hush_net_backend.Repository.Shadow.{is_null, user_exists, same_device_key, device_notice}
use hush_net_backend.Repository.Sessions.{has_device_id}
use mathlib.Core.Option

-- The arguments of create_device beside the pool.
pub record NewDevice : Type 0 where
  pub user_id : Uuid
  pub identity_pubkey : String
  pub prekey_pubkey : String
  pub signed_prekey_pub : String
  pub signed_prekey_sig : String
  pub one_time_prekeys : Value
  pub device_label : String
  pub push_token : String

abbrev pub registered : NewDevice → Call → Devices
registered n c = record {
  id = c.new_id;
  user_id = n.user_id;
  identity_pubkey = n.identity_pubkey;
  prekey_pubkey = n.prekey_pubkey;
  signed_prekey_pub = n.signed_prekey_pub;
  signed_prekey_sig = n.signed_prekey_sig;
  one_time_prekeys = n.one_time_prekeys;
  device_label = some n.device_label;
  push_token = some n.push_token;
  last_seen = some c.now;
  created_at = some c.now;
}

unfoldable pub create_device_statement : NewDevice → Statement Devices
create_device_statement n c db =
    if exists_where (has_device_id c.new_id) db.devices
    then (err unique_violation, db)
    else if exists_where (same_device_key n.user_id n.identity_pubkey) db.devices
    then (err unique_violation, db)
    else if not (user_exists n.user_id db)
    then (err foreign_key_violation, db)
    else (
      ok (registered n c),
      record db {
        devices = db.devices ++ registered n c ∷ [];
        notified = db.notified ++ device_notice n.user_id ∷ [];
      },
    )

unfoldable pub create_device : NewDevice → Exec SqlError Devices
create_device n = query (create_device_statement n)

-- ORDER BY created_at, where a NULL sorts above every value; the column is never set to NULL here
abbrev pub created : Devices → Timestamp
created d = elim d.created_at [ none ↦ 0 | some t ↦ t ]

unfoldable pub get_devices_by_user_id : Uuid → Exec SqlError (List Devices)
get_devices_by_user_id user_id =
    query (λ c db.
      (ok (order_by_desc created (select_where (λ d. d.user_id == user_id) db.devices)), db))

abbrev pub has_identity_key : String → Devices → Bool
has_identity_key key d = str_eq d.identity_pubkey key

unfoldable pub get_device_by_identity_key : String → Exec SqlError Devices
get_device_by_identity_key id_key = query (λ c db. (
  fetch_one (head? (order_by_desc created (select_where (has_identity_key id_key) db.devices))),
  db,
))

abbrev pub bundle_of : Devices → List String → DeviceBundle
bundle_of row otpks = record {
  device_id = row.id;
  identity_pubkey = row.identity_pubkey;
  prekey_pubkey = row.prekey_pubkey;
  signed_prekey_pub = row.signed_prekey_pub;
  signed_prekey_sig = row.signed_prekey_sig;
  one_time_prekeys = otpks;
}

-- the loop over the rows: the first column that does not decode ends it
unfoldable pub bundles_of : List Devices → Result SqlError (List DeviceBundle)
bundles_of [] = ok []
bundles_of (row ∷ rows) = elim (to_strings row.one_time_prekeys) [
  | none ↦ err column_decode
  | some otpks ↦ elim (bundles_of rows) [
    | err e ↦ err e
    | ok bundles ↦ ok (bundle_of row otpks ∷ bundles)
  ]
]

unfoldable pub get_device_bundle : Uuid → Exec SqlError (List DeviceBundle)
get_device_bundle user_id = do
  rows ← query (λ c db. (ok (select_where (λ d. d.user_id == user_id) db.devices), db))
  lift (bundles_of rows)

abbrev pub user_of : UserRow → User
user_of u = record { id = u.id; username = u.username; created_at = some u.created_at }

unfoldable pub find_user_by_id : Uuid → Exec SqlError (Option User)
find_user_by_id user_id =
    query (λ c db. (ok (Option.map user_of (find_where (λ u. u.id == user_id) db.users)), db))

unfoldable pub get_user_for_device : Uuid → Exec SqlError (Option User)
get_user_for_device device_id = do
  row ← query (λ c db. (fetch_one (find_where (has_device_id device_id) db.devices), db))
  query (λ c db. (ok (Option.map user_of (find_where (λ u. u.id == row.user_id) db.users)), db))

unfoldable pub get_all_users : Exec SqlError (List User)
get_all_users =
    query (λ c db. (ok (map user_of (select_where (λ u. is_null u.home_node_id) db.users)), db))

abbrev pub local_user : String → Call → UserRow
local_user username c = record {
  id = c.new_id;
  username = username;
  created_at = c.now;
  home_node_id = none;
  federated_address = none;
}

unfoldable pub create_user_statement : String → Statement User
create_user_statement username c db =
    if exists_where (λ u. u.id == c.new_id) db.users
    then (err unique_violation, db)
    else if exists_where (λ u. str_eq u.username username) db.users
    then (err unique_violation, db)
    else (
      ok (user_of (local_user username c)),
      record db { users = db.users ++ local_user username c ∷ [] },
    )

unfoldable pub create_user : String → Exec SqlError User
create_user username = query (create_user_statement username)

-- some device of the user has the key
abbrev pub owns_key : String → Db → UserRow → Bool
owns_key key db u = exists_where (λ d. d.user_id == u.id && has_identity_key key d) db.devices

unfoldable pub find_user_by_pubkey : String → Exec SqlError (Option User)
find_user_by_pubkey pubkey_b64 =
    query (λ c db. (ok (Option.map user_of (find_where (owns_key pubkey_b64 db) db.users)), db))
