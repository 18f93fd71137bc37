-- ===== src/Models/Account.antt =====
-- Users, devices and key bundles: src/models/user.rs, device.rs and sql_models/seed.sql.
use hush_net_backend.Prelude.{ℕ, String, Option, List}
use hush_net_backend.Models.Json.{Value}

-- A UUID is its 128-bit number, which is also how the code and the database order UUIDs.
abbrev pub Uuid : Type 0
Uuid = ℕ

-- Seconds since the epoch.
abbrev pub Timestamp : Type 0
Timestamp = ℕ

pub record User : Type 0 where
  pub id : Uuid
  pub username : String
  pub created_at : Option Timestamp

-- A row of the table `users`, with the federation columns.
pub record UserRow : Type 0 where
  pub id : Uuid
  pub username : String
  pub created_at : Timestamp
  pub home_node_id : Option Uuid
  pub federated_address : Option String

pub record Devices : Type 0 where
  pub id : Uuid
  pub user_id : Uuid
  pub identity_pubkey : String
  pub prekey_pubkey : String
  pub signed_prekey_pub : String
  pub signed_prekey_sig : String
  pub one_time_prekeys : Value
  pub device_label : Option String
  pub push_token : Option String
  pub last_seen : Option Timestamp
  pub created_at : Option Timestamp

pub record SignedPreKey : Type 0 where
  pub key : String
  pub signature : String

pub record OneTimePrekeys : Type 0 where
  pub key : String

pub record DeviceBundle : Type 0 where
  pub device_id : Uuid
  pub identity_pubkey : String
  pub prekey_pubkey : String
  pub signed_prekey_pub : String
  pub signed_prekey_sig : String
  pub one_time_prekeys : List String

-- The claims of an enrollment token: src/models/enrollment_token.rs.
pub record EnrollmentClaims : Type 0 where
  pub sub : String
  pub exp : ℕ
