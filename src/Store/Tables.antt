-- ===== src/Store/Tables.antt =====
-- The tables of sql_models/seed.sql and sql_models/federation.sql, in insertion order, and the
-- notifications that their triggers have sent.
use hush_net_backend.Prelude.{String, List}
use hush_net_backend.Models.{
  Uuid, Timestamp, UserRow, Devices, FederationNode, UsedNonce, FederationOutboxEntry, Message,
  Chat, PendingSession, Session,
}

pub record ChatMember : Type 0 where
  pub chat_id : Uuid
  pub user_id : Uuid

pub record UsedToken : Type 0 where
  pub token : String
  pub used_at : Timestamp

-- pg_notify(channel, {"type": event_type, "user_id": user_id, …})
pub record Notification : Type 0 where
  pub channel : String
  pub event_type : String
  pub user_id : Uuid

pub record Db : Type 0 where
  pub users : List UserRow
  pub devices : List Devices
  pub chats : List Chat
  pub chat_members : List ChatMember
  pub messages : List Message
  pub sessions : List Session
  pub used_tokens : List UsedToken
  pub pending_sessions : List PendingSession
  pub federation_nodes : List FederationNode
  pub used_node_nonces : List UsedNonce
  pub federation_outbox : List FederationOutboxEntry
  pub notified : List Notification
