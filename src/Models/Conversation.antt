-- ===== src/Models/Conversation.antt =====
-- Messages, chats and sessions: src/models/message.rs, chat.rs, session.rs, realtime.rs.
use hush_net_backend.Prelude.{String, Option, List}
use hush_net_backend.Models.Json.{Value}
use hush_net_backend.Models.Account.{Uuid, Timestamp}

pub record Message : Type 0 where
  pub id : Uuid
  pub logical_msg_id : String
  pub chat_id : Uuid
  pub from_user_id : Uuid
  pub from_device_id : Uuid
  pub to_user_id : Uuid
  pub to_device_id : Uuid
  pub header : Value
  pub ciphertext : String
  pub delivered_at : Option Timestamp
  pub read_at : Option Timestamp
  pub created_at : Timestamp

pub record OutgoingMessagePayload : Type 0 where
  pub to_device_id : Uuid
  pub header : Value
  pub ciphertext : String

pub record OutgoingMessage : Type 0 where
  pub chat_id : Uuid
  pub logical_msg_id : String
  pub to_user_id : Uuid
  pub to_user_address : Option String
  pub payloads : List OutgoingMessagePayload

pub record MessageView : Type 0 where
  pub id : Uuid
  pub logical_msg_id : String
  pub chat_id : Option Uuid
  pub from_user_id : Option Uuid
  pub from_device_id : Option Uuid
  pub header : Value
  pub ciphertext : String
  pub created_at : Option Timestamp

-- The texts that the CHECK on the column `chat_type` admits.
pub data ChatType : Type 0 where
  direct group : ChatType

pub record Chat : Type 0 where
  pub id : Uuid
  pub chat_type : ChatType
  pub user_a : Option Uuid
  pub user_b : Option Uuid
  pub name : Option String
  pub owner_id : Option Uuid
  pub last_message_id : Option Uuid
  pub created_at : Timestamp
  pub updated_at : Timestamp

pub record PendingSession : Type 0 where
  pub id : Uuid
  pub sender_device_id : Uuid
  pub recipient_device_id : Uuid
  pub ephemeral_pubkey : String
  pub sender_prekey_pub : String
  pub otpk_used : String
  pub ciphertext : String
  pub created_at : Option Timestamp

pub record Session : Type 0 where
  pub id : Uuid
  pub chat_id : Uuid
  pub sender_device_id : Uuid
  pub receiver_device_id : Uuid
  pub created_at : Timestamp
  pub updated_at : Timestamp

pub record RealtimeEvent : Type 0 where
  pub event_type : String
  pub payload : Value

pub record ChatView : Type 0 where
  pub id : Uuid
  pub chat_type : Option ChatType
  pub partner_user_id : Option Uuid
  pub partner_username : Option String
  pub partner_federated_address : Option String
  pub name : Option String
  pub last_message_id : Option Uuid
  pub updated_at : Option Timestamp
