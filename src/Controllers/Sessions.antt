-- ===== src/Controllers/Sessions.antt =====
-- src/controllers/session_controller.rs
pub mod Confirmed
pub mod Foreign
pub mod Loop
pub mod Created
pub mod Others
pub mod Lifecycle
use hush_net_backend.Prelude.{String, Option, none, some, List, [], ◌∷◌, map, ◌==◌}
use hush_net_backend.Models.{Uuid, Devices, S2sSessionInit, S2sSessionPayload}
use hush_net_backend.Store.{
  ◌>>=◌, ◌>>◌, Exec, Result, ok, err, SqlError, Statement, query, pure, throw_if, attempt, ok_or,
  map_err,
}
use hush_net_backend.Web.{
  AppState, Response, respond, plain, error, status, pending_sessions, ClientError,
}
use hush_net_backend.Repository.Sessions.{
  create_pending_session, get_pending_sessions, get_pending_session_by_id, get_or_create_chat_id,
  insert_or_update_session, delete_pending_session,
}
use hush_net_backend.Federation.Client.{forward_session}
use hush_net_backend.Federation.Outbox.{client_of}
use hush_net_backend.Controllers.Peers.{resolve_node}
use hush_net_backend.Controllers.Messages.{remote_target, sender_name, address_of}

pub record SessionInit : Type 0 where
  pub recipient_device_id : Uuid
  pub ephemeral_pubkey : String
  pub sender_prekey_pub : String
  pub otpk_used : String
  pub ciphertext : String

pub record CreateSessionBody : Type 0 where
  pub recipient_user_id : Uuid
  pub recipient_user_address : Option String
  pub sessions_init : List SessionInit

pub record ConfirmSessionBody : Type 0 where
  pub pending_session_id : Uuid
  pub sender_device_id : Uuid
  pub receiver_device_id : Uuid

abbrev pub failed_with : String → SqlError → Response
failed_with message e = respond 500 (plain message)

-- BEGIN and COMMIT of a transaction in which nothing is run: the inserts go through the pool
unfoldable pub transaction_statement : Statement (Unit {0})
transaction_statement c db = (ok tt, db)

-- the loop over `payload.sessions_init`
unfoldable pub create_all : Uuid → List SessionInit → Exec Response (Unit {0})
create_all sender [] = pure tt
create_all sender (init ∷ inits) = do
  map_err (failed_with "Failed to insert pending session") (
      create_pending_session sender init.recipient_device_id init.ephemeral_pubkey
        init.sender_prekey_pub init.otpk_used init.ciphertext)
  create_all sender inits

unfoldable pub create_local_session : Devices → CreateSessionBody → Exec Response Response
create_local_session sender payload = do
  throw_if (sender.user_id == payload.recipient_user_id)
      (respond 400 (plain "Cannot create session with self"))
  map_err (failed_with "Failed to start transaction") (query transaction_statement)
  create_all sender.id payload.sessions_init
  map_err (failed_with "Failed to commit") (query transaction_statement)
  pure (respond 201 (status "ok"))

abbrev pub wire_init : SessionInit → S2sSessionInit
wire_init i = record {
  recipient_device_id = i.recipient_device_id;
  ephemeral_pubkey = i.ephemeral_pubkey;
  sender_prekey_pub = i.sender_prekey_pub;
  otpk_used = i.otpk_used;
  ciphertext = i.ciphertext;
}

abbrev pub wire_session :
    AppState → Devices → CreateSessionBody → String → String → S2sSessionPayload
wire_session state sender payload name to_username = record {
  from_federated_address = address_of state name;
  from_device_id = sender.id;
  from_identity_pubkey = sender.identity_pubkey;
  to_user = to_username;
  sessions_init = map wire_init payload.sessions_init;
}

abbrev forwarded : Result ClientError (Unit {0}) → Response
forwarded (err e) = respond 502 (error "failed to reach target node")
forwarded (ok _) = respond 202 (status "forwarded")

-- `Err(())` is the response that create_session makes of it; all else is a response.
unfoldable pub handle_federated_session :
    AppState → Devices → CreateSessionBody → String → String → Exec Response Response
handle_federated_session state sender payload to_username target_node_id = do
  name ← sender_name sender.user_id (respond 502 (plain "failed to forward session"))
  node ← resolve_node state target_node_id
  result ← attempt (
      forward_session (client_of state) node.api_url
        (wire_session state sender payload name to_username))
  pure (forwarded result)

abbrev create_or_forward :
    AppState → Devices → CreateSessionBody → Option (String × String) → Exec Response Response
create_or_forward state sender payload (some (username, node_id)) =
    handle_federated_session state sender payload username node_id
create_or_forward state sender payload none = create_local_session sender payload

unfoldable pub create_session : AppState → Devices → CreateSessionBody → Exec Response Response
create_session state sender payload =
    create_or_forward state sender payload (remote_target state payload.recipient_user_address)

-- An empty list and a full one are answered alike.
unfoldable pub get_pending_sessions_handler : Devices → Exec Response Response
get_pending_sessions_handler device = do
  sessions ← map_err (failed_with "Failed to fetch pending sessions") (get_pending_sessions device)
  pure (respond 200 (pending_sessions sessions))

unfoldable pub confirm_session : Devices → ConfirmSessionBody → Exec Response Response
confirm_session device payload = do
  found ←
      map_err (failed_with "DB error")
        (get_pending_session_by_id payload.pending_session_id device.id)
  ps ← ok_or found (respond 404 (plain "Pending session not found or not owned by device"))
  chat_id ←
      map_err (failed_with "Failed to get or create chat")
        (get_or_create_chat_id payload.sender_device_id payload.receiver_device_id)
  map_err (failed_with "Failed to insert session")
      (insert_or_update_session chat_id payload.sender_device_id payload.receiver_device_id)
  map_err (failed_with "Failed to delete pending session")
      (delete_pending_session payload.pending_session_id)
  pure (respond 201 (status "session confirmed"))
