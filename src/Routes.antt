-- ===== src/Routes.antt =====
-- The handlers behind the routes of src/routes, each after its extractors.
mod Table
pub mod Delivered
pub mod Accepted
pub mod Marked
unfoldable pub use Table.*
use hush_net_backend.Prelude.{String, Option, List, none, some}
use hush_net_backend.Models.{
  Uuid, Value, OutgoingMessage, S2sAck, S2sMessagePayload, S2sSessionPayload,
}
use hush_net_backend.Store.{
  HttpRequest, HttpReply, response, World, Result, Exec, pure, throw, lift, map_err, answer, ◌>>=◌,
  ◌>>◌,
}
use hush_net_backend.Web.{AppState, Parts, Response, ResponseBody}
use hush_net_backend.Auth.Node.{authenticate_node}
use hush_net_backend.Auth.Device.{authenticate_device}
use hush_net_backend.Controllers.Root.{root, health_check}
use hush_net_backend.Controllers.Accounts.{
  CreateUserBody, LoginUserBody, CreateDeviceBody, list_users, get_user_by_id, create_user,
  login_user, create_device, get_devices_for_user, get_user_keys as get_keys_of_user,
  get_user_for_device,
}
use hush_net_backend.Controllers.Sessions.{
  CreateSessionBody, ConfirmSessionBody, create_session, get_pending_sessions_handler,
  confirm_session,
}
use hush_net_backend.Controllers.Chats.{get_all_chats}
use hush_net_backend.Controllers.Messages.{send_message, get_pending_messages}
use hush_net_backend.Controllers.Federation.{
  node_info, get_user_devices, get_user_keys, receive_session, receive_messages, receive_ack,
  federated_keys,
}

-- axum and serde, with the proxy before them: the parts that an extractor sees; `Path`, `Json` and the upgrade of a
-- socket, with their rejections; the JSON of a response; and what the client gets where a handler
-- panics and its connection is closed.
pub record Axum : Type 0 where
  pub parts : HttpRequest → Parts
  pub path_id : HttpRequest → Result Response Uuid
  pub path_username : HttpRequest → Result Response String
  pub path_username_and_node : HttpRequest → Result Response (String × String)
  pub json_create_user : HttpRequest → Result Response CreateUserBody
  pub json_login_user : HttpRequest → Result Response LoginUserBody
  pub json_create_device : HttpRequest → Result Response CreateDeviceBody
  pub json_create_session : HttpRequest → Result Response CreateSessionBody
  pub json_confirm_session : HttpRequest → Result Response ConfirmSessionBody
  pub json_outgoing : HttpRequest → Result Response OutgoingMessage
  pub json_session : HttpRequest → Result Response S2sSessionPayload
  pub json_messages : HttpRequest → Result Response S2sMessagePayload
  pub json_ack : HttpRequest → Result Response S2sAck
  pub upgrade : HttpRequest → Result Response Response
  pub to_json : ResponseBody → Option Value
  pub after_panic : Response

module _ (axum : Axum) (state : AppState) (req : HttpRequest) where
  -- a handler behind its extractors, in the order of its arguments
  abbrev pub handle : Endpoint → Exec Response Response
  handle to_root = pure root
  handle to_health_check = pure health_check
  handle to_list_users = map_err (λ _. axum.after_panic) list_users
  handle to_get_user_by_id = lift (axum.path_id req) >>= get_user_by_id
  handle to_create_user = lift (axum.json_create_user req) >>= create_user state
  handle to_login_user = lift (axum.json_login_user req) >>= login_user
  handle to_create_device = lift (axum.json_create_device req) >>= create_device state
  handle to_get_devices_for_user = lift (axum.path_id req) >>= get_devices_for_user
  handle to_get_keys_of_user = lift (axum.path_id req) >>= get_keys_of_user
  handle to_get_user_for_device = lift (axum.path_id req) >>= get_user_for_device
  handle to_create_session = do
    sender ← authenticate_device (axum.parts req)
    payload ← lift (axum.json_create_session req)
    create_session state sender payload
  handle to_get_pending_sessions =
      authenticate_device (axum.parts req) >>= get_pending_sessions_handler
  handle to_confirm_session = do
    device ← authenticate_device (axum.parts req)
    payload ← lift (axum.json_confirm_session req)
    confirm_session device payload
  handle to_get_all_chats = authenticate_device (axum.parts req) >>= get_all_chats
  handle to_send_message = do
    device ← authenticate_device (axum.parts req)
    msg ← lift (axum.json_outgoing req)
    send_message state device msg
  handle to_get_pending_messages = authenticate_device (axum.parts req) >>= get_pending_messages
  handle to_node_info = pure (node_info state)
  handle to_get_user_devices = do
    peer ← authenticate_node state (axum.parts req)
    username ← lift (axum.path_username req)
    get_user_devices peer username
  handle to_get_user_keys = do
    peer ← authenticate_node state (axum.parts req)
    username ← lift (axum.path_username req)
    get_user_keys peer username
  handle to_receive_session = do
    peer ← authenticate_node state (axum.parts req)
    payload ← lift (axum.json_session req)
    receive_session peer payload
  handle to_receive_messages = do
    peer ← authenticate_node state (axum.parts req)
    payload ← lift (axum.json_messages req)
    receive_messages peer payload
  handle to_receive_ack = do
    peer ← authenticate_node state (axum.parts req)
    received ← lift (axum.json_ack req)
    receive_ack peer received
  handle to_federated_keys = do
    authenticate_device (axum.parts req)
    (username, node_id) ← lift (axum.path_username_and_node req)
    federated_keys state username node_id
  handle to_ws_route = lift (axum.upgrade req)

  -- what the handler of an endpoint does with a request, and the response that it sends
  abbrev pub serve : Endpoint → World → Response × World
  serve endpoint = answer (handle endpoint)

-- The response as the sender's HTTP client hands it out.
abbrev pub reply_of : Axum → Response → HttpReply
reply_of axum r = response r.code (axum.to_json r.body)
