-- ===== src/Models/Wire.antt =====
-- Peer nodes, the outbox and the node-to-node bodies: src/models/federation.rs.
use hush_net_backend.Prelude.{ℕ, String, Bool, Option, List}
use hush_net_backend.Models.Json.{Value}
use hush_net_backend.Models.Account.{Uuid, Timestamp}

pub record FederationNode : Type 0 where
  pub id : Uuid
  pub node_id : String
  pub api_url : String
  pub public_key_b64 : String
  pub last_seen : Option Timestamp
  pub is_blocked : Bool
  pub created_at : Timestamp

-- A row of used_node_nonces.
pub record UsedNonce : Type 0 where
  pub nonce : String
  pub node_id : String
  pub used_at : Timestamp

-- The texts that the CHECK on the column `status` admits.
pub data OutboxStatus : Type 0 where
  pending delivered failed : OutboxStatus

-- `attempt_count` is an i32 in the code; it starts at 0 and is counted up.
pub record FederationOutboxEntry : Type 0 where
  pub id : Uuid
  pub target_node_id : String
  pub logical_msg_id : String
  pub payload : Value
  pub attempt_count : ℕ
  pub last_attempt : Option Timestamp
  pub next_attempt : Timestamp
  pub status : OutboxStatus
  pub created_at : Timestamp

pub record S2sDevicePayload : Type 0 where
  pub to_device_id : Uuid
  pub header : Value
  pub ciphertext : String

pub record S2sMessagePayload : Type 0 where
  pub logical_msg_id : String
  pub from_federated_address : String
  pub from_device_id : Uuid
  pub from_identity_pubkey : String
  pub to_user : String
  pub payloads : List S2sDevicePayload

pub record S2sSessionInit : Type 0 where
  pub recipient_device_id : Uuid
  pub ephemeral_pubkey : String
  pub sender_prekey_pub : String
  pub otpk_used : String
  pub ciphertext : String

pub record S2sSessionPayload : Type 0 where
  pub from_federated_address : String
  pub from_device_id : Uuid
  pub from_identity_pubkey : String
  pub to_user : String
  pub sessions_init : List S2sSessionInit

pub record S2sAck : Type 0 where
  pub logical_msg_id : String
  pub status : String

pub record NodeInfo : Type 0 where
  pub node_id : String
  pub api_url : String
  pub public_key_b64 : String
  pub protocol_version : String
