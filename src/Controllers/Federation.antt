-- ===== src/Controllers/Federation.antt =====
-- src/controllers/federation_controller.rs: the node-to-node endpoints and the key proxy.
pub mod Refused
pub mod Clash
pub mod Senders
pub mod Names
pub mod Redelivery
pub mod Contents
pub mod Errors
use hush_net_backend.Prelude.{
  String, Bool, false, ◌||◌, none, some, List, [], ◌∷◌, str_eq, if◌then◌else◌,
}
use hush_net_backend.Prelude.Text.{find, slice_to}
use hush_net_backend.Models.{
  Uuid, FederationNode, S2sAck, S2sDevicePayload, S2sMessagePayload, S2sSessionInit,
  S2sSessionPayload,
}
use hush_net_backend.Store.{◌>>=◌, ◌>>◌, Exec, ok, pure, ok_or, map_err}
use hush_net_backend.Web.{
  AppState, Response, respond, error, status, info, ack, devices, bundles, peer_error,
}
use hush_net_backend.Repository.Federation.{mark_outbox_delivered_by_logical_id}
use hush_net_backend.Repository.Shadow.{
  upsert_shadow_user, upsert_shadow_device, get_or_create_direct_chat,
  get_local_user_id_by_username,
}
use hush_net_backend.Repository.Messages.{NewMessage, insert_federated_message}
use hush_net_backend.Repository.Sessions.{create_pending_session}
use hush_net_backend.Repository.Accounts.{get_devices_by_user_id, get_device_bundle}
use hush_net_backend.Federation.Client.{fetch_peer_keys}
use hush_net_backend.Federation.Outbox.{client_of}
use hush_net_backend.Controllers.Peers.{internal, resolve_target}

unfoldable pub node_info : AppState → Response
node_info state = respond 200 (
    info (record {
      node_id = state.this_node_id;
      api_url = state.this_api_url;
      public_key_b64 = state.node_keys.public_b64;
      protocol_version = "0.0.2";
    }))

abbrev pub not_local : Response
not_local = respond 404 (error "user not found or not local to this node")

-- the id of a local user, or the response for one that is not
unfoldable pub local_user_or : Response → String → Exec Response Uuid
local_user_or missing username = do
  found ← map_err internal (get_local_user_id_by_username username)
  ok_or found missing

unfoldable pub get_user_devices : FederationNode → String → Exec Response Response
get_user_devices peer username = do
  user_id ← local_user_or not_local username
  found ← map_err internal (get_devices_by_user_id user_id)
  pure (respond 200 (devices found))

unfoldable pub get_user_keys : FederationNode → String → Exec Response Response
get_user_keys peer username = do
  user_id ← local_user_or not_local username
  bundle ← map_err internal (get_device_bundle user_id)
  pure (respond 200 (bundles bundle))

-- from_federated_address.split('@').next()
unfoldable pub sender_username : String → String
sender_username address = elim (find b'@' address) [
  | none ↦ address
  | some at ↦ slice_to at address
]

-- the loop over `payload.sessions_init`
unfoldable pub store_sessions : Uuid → List S2sSessionInit → Exec Response (Unit {0})
store_sessions sender [] = pure tt
store_sessions sender (init ∷ inits) = do
  map_err (λ _. respond 500 (error "failed to store pending session"))
      (create_pending_session sender init.recipient_device_id init.ephemeral_pubkey
        init.sender_prekey_pub init.otpk_used init.ciphertext)
  store_sessions sender inits

-- the shadow records of a sender
unfoldable pub shadow_sender : FederationNode → String → Uuid → String → Exec Response Uuid
shadow_sender peer address device_id identity_pubkey = do
  sender_local_id ← map_err internal (upsert_shadow_user (sender_username address) address peer.id)
  map_err internal (upsert_shadow_device device_id sender_local_id identity_pubkey)
  pure sender_local_id

unfoldable pub receive_session : FederationNode → S2sSessionPayload → Exec Response Response
receive_session peer payload = do
  shadow_sender peer payload.from_federated_address payload.from_device_id
      payload.from_identity_pubkey
  store_sessions payload.from_device_id payload.sessions_init
  pure (respond 200 (status "ok"))

abbrev pub incoming : S2sMessagePayload → Uuid → Uuid → Uuid → S2sDevicePayload → NewMessage
incoming payload chat_id sender_local_id recipient_id dev = record {
  logical_msg_id = payload.logical_msg_id;
  chat_id = chat_id;
  from_user_id = sender_local_id;
  from_device_id = payload.from_device_id;
  to_user_id = recipient_id;
  to_device_id = dev.to_device_id;
  header = dev.header;
  ciphertext = dev.ciphertext;
}

-- the loop over `payload.payloads`, with the variable `any_new`
unfoldable pub store_messages :
    (S2sDevicePayload → NewMessage) → Bool → List S2sDevicePayload → Exec Response Bool
store_messages message any_new [] = pure any_new
store_messages message any_new (dev ∷ devs) = do
  inserted ← map_err internal (insert_federated_message (message dev))
  store_messages message (any_new || inserted) devs

abbrev pub ack_of : S2sMessagePayload → Bool → Response
ack_of payload any_new = respond 200 (
    ack (record {
      logical_msg_id = payload.logical_msg_id;
      status = if any_new then "delivered" else "duplicate";
    }))

unfoldable pub receive_messages : FederationNode → S2sMessagePayload → Exec Response Response
receive_messages peer payload = do
  recipient_id ←
      local_user_or (respond 404 (error "recipient not found or not local to this node"))
        payload.to_user
  sender_local_id ← map_err internal (
      upsert_shadow_user (sender_username payload.from_federated_address)
        payload.from_federated_address peer.id)
  map_err internal
      (upsert_shadow_device payload.from_device_id sender_local_id payload.from_identity_pubkey)
  chat_id ← map_err internal (get_or_create_direct_chat sender_local_id recipient_id)
  any_new ←
      store_messages (incoming payload chat_id sender_local_id recipient_id) false payload.payloads
  pure (ack_of payload any_new)

unfoldable pub receive_ack : FederationNode → S2sAck → Exec Response Response
receive_ack peer received = do
  map_err internal (mark_outbox_delivered_by_logical_id received.logical_msg_id)
  pure (respond 200 (status "ack received"))

unfoldable pub local_keys : String → Exec Response Response
local_keys username = do
  user_id ← local_user_or (respond 404 (error "user not found")) username
  bundle ← map_err internal (get_device_bundle user_id)
  pure (respond 200 (bundles bundle))

unfoldable pub proxied_keys : AppState → String → String → Exec Response Response
proxied_keys state username node_id = do
  node ← resolve_target state node_id
  bundle ←
      map_err (λ e. respond 502 (peer_error e))
        (fetch_peer_keys (client_of state) node.api_url username)
  pure (respond 200 (bundles bundle))

unfoldable pub federated_keys : AppState → String → String → Exec Response Response
federated_keys state username node_id =
    if str_eq node_id state.this_node_id
    then local_keys username
    else proxied_keys state username node_id
