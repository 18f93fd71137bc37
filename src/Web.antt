-- ===== src/Web.antt =====
-- Requests and responses as the handlers see them: axum's extractors and `IntoResponse`, and
-- src/app_state.rs.
use hush_net_backend.Prelude.{ℕ, String, Option, List}
use hush_net_backend.Models.{
  User, Devices, DeviceBundle, MessageView, ChatView, PendingSession, S2sAck, NodeInfo,
}

-- utils/node_keys.rs
pub record NodeKeys : Type 0 where
  pub public_b64 : String
  pub private_b64 : String

pub record AppState : Type 0 where
  pub jwt_secret : String
  pub node_keys : NodeKeys
  pub this_node_id : String
  pub this_api_url : String
  pub registry_url : String

-- A header's value is a text if `to_str` says so.
pub data HeaderValue : Type 0 where
  text : String → HeaderValue
  opaque : HeaderValue

-- request::Parts: `headers.get(name)`, the method, and `uri.path_and_query()`
pub record Parts : Type 0 where
  pub header : String → Option HeaderValue
  pub method : String
  pub path_and_query : Option String

-- What an outbound call failed with: the errors of `node_keys` and the contexts of `client.rs`.
pub data ClientError : Type 0 where
  undecodable_private_key : ClientError
  private_key_length : ClientError
  context : String → ClientError

-- The bodies of the responses: a plain text, {"error": …}, {"status": …}, {"success": "true"},
-- {"message": …}, data.
pub data ResponseBody : Type 0 where
  plain : String → ResponseBody
  error : String → ResponseBody
  status : String → ResponseBody
  success : ResponseBody
  greeting : String → ResponseBody
  peer_error : ClientError → ResponseBody
  ack : S2sAck → ResponseBody
  info : NodeInfo → ResponseBody
  device : Devices → ResponseBody
  devices : List Devices → ResponseBody
  bundles : List DeviceBundle → ResponseBody
  message_views : List MessageView → ResponseBody
  chats : List ChatView → ResponseBody
  pending_sessions : List PendingSession → ResponseBody
  user : Option User → ResponseBody
  users : List User → ResponseBody
  enrolled : User → String → ResponseBody

pub record Response : Type 0 where
  pub code : ℕ
  pub body : ResponseBody

abbrev pub respond : ℕ → ResponseBody → Response
respond code body = record { code = code; body = body }
