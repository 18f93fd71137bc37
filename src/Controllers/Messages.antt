-- ===== src/Controllers/Messages.antt =====
-- src/controllers/messages_controller.rs
pub mod Local
pub mod Queued
use hush_net_backend.Prelude.{String, not, Option, none, some, map, str_eq, if◌then◌else◌}
use hush_net_backend.Models.{
  Uuid, User, Devices, OutgoingMessage, OutgoingMessagePayload, S2sDevicePayload, S2sMessagePayload,
  S2sAck,
}
use hush_net_backend.Store.{
  Exec, Result, ok, err, SqlError, Delivery, pure, throw, gets, attempt, ok_or, map_err, spawn,
  ignore, ◌>>=◌, ◌>>◌,
}
use hush_net_backend.Web.{
  AppState, Response, respond, error, status, success, message_views, ClientError,
}
use hush_net_backend.Repository.Federation.{enqueue_outbox, mark_outbox_delivered}
use hush_net_backend.Repository.Messages.{insert_message, fetch_pending_messages}
use hush_net_backend.Repository.Accounts.{find_user_by_id}
use hush_net_backend.Federation.Address.{parse_federated_address}
use hush_net_backend.Federation.Client.{forward_messages}
use hush_net_backend.Federation.Outbox.{client_of}
use hush_net_backend.Controllers.Peers.{internal, resolve_node}
use Prim.Native.String.{◌++◌}

abbrev pub elsewhere : AppState → Option (String × String) → Option (String × String)
elsewhere state none = none
elsewhere state (some (username, node_id)) =
    if not (str_eq node_id state.this_node_id) then some (username, node_id) else none

-- the user and the node of an address that points to another node
unfoldable pub remote_target : AppState → Option String → Option (String × String)
remote_target state none = none
remote_target state (some addr) = elsewhere state (parse_federated_address addr)

abbrev pub no_identity : Response
no_identity = respond 500 (error "cannot resolve sender identity")

-- `Ok(Some(u)) => u.username`, and one response for all else
abbrev username_or : {E : Type 0} → E → Result SqlError (Option User) → Exec E String
username_or e (err _) = throw e
username_or e (ok none) = throw e
username_or e (ok (some u)) = pure u.username

unfoldable pub sender_name : {E : Type 0} → Uuid → E → Exec E String
sender_name user_id e = do found ← attempt (find_user_by_id user_id); username_or e found

abbrev pub device_payload : OutgoingMessagePayload → S2sDevicePayload
device_payload p = record {
  to_device_id = p.to_device_id;
  header = p.header;
  ciphertext = p.ciphertext;
}

abbrev pub address_of : AppState → String → String
address_of state username = username ++ ("@" ++ state.this_node_id)

abbrev pub wire_message : AppState → Devices → OutgoingMessage → String → String → S2sMessagePayload
wire_message state device msg sender to_username = record {
  logical_msg_id = msg.logical_msg_id;
  from_federated_address = address_of state sender;
  from_device_id = device.id;
  from_identity_pubkey = device.identity_pubkey;
  to_user = to_username;
  payloads = map device_payload msg.payloads;
}

unfoldable pub handle_federated_message :
    AppState → Devices → OutgoingMessage → Uuid → String → String → Exec Response Response
handle_federated_message state device msg from_user_id to_username target_node_id = do
  sender ← sender_name from_user_id no_identity
  node ← resolve_node state target_node_id
  env ← gets (λ w. w.env)
  let payload = wire_message state device msg sender to_username
  json ← ok_or (env.message_to_value payload) (respond 500 (error "internal error"))
  outbox_id ← map_err internal (enqueue_outbox target_node_id msg.logical_msg_id json)
  spawn (record { outbox_id = outbox_id; api_url = node.api_url; payload = payload })
  pure (respond 202 (status "queued"))

abbrev pub after_immediate : {E : Type 0} → Delivery → Result ClientError S2sAck → Exec E (Unit {0})
after_immediate d (ok ack) = ignore (mark_outbox_delivered d.outbox_id)
after_immediate d (err e) = pure tt

-- the task that handle_federated_message spawns
unfoldable pub immediate_delivery : {E : Type 0} → AppState → Delivery → Exec E (Unit {0})
immediate_delivery state d = do
  result ← attempt (forward_messages (client_of state) d.api_url d.payload)
  after_immediate d result

abbrev pub server_error : SqlError → Response
server_error e = respond 500 (error "internal server error")

abbrev pub deliver_or_queue :
    AppState → Devices → OutgoingMessage → Option (String × String) → Exec Response Response
deliver_or_queue state device msg (some (username, node_id)) =
    handle_federated_message state device msg device.user_id username node_id
deliver_or_queue state device msg none =
    map_err server_error (insert_message device.id device.user_id msg) >>= λ _.
    pure (respond 200 success)

unfoldable pub send_message : AppState → Devices → OutgoingMessage → Exec Response Response
send_message state device msg =
    deliver_or_queue state device msg (remote_target state msg.to_user_address)

unfoldable pub get_pending_messages : Devices → Exec Response Response
get_pending_messages device = do
  messages ← map_err server_error (fetch_pending_messages device)
  pure (respond 200 (message_views messages))
