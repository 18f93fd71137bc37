-- ===== src/Routes/Table.antt =====
-- The routes of src/routes, as src/main.rs merges them.
use hush_net_backend.Prelude.{String, Bool, ◌&&◌, List, [], ◌∷◌, ◌++◌, true}

-- the handlers that the tables name
pub data Endpoint : Type 0 where
  to_root to_health_check : Endpoint
  to_list_users to_get_user_by_id to_create_user to_login_user : Endpoint
  to_create_device to_get_devices_for_user to_get_keys_of_user to_get_user_for_device : Endpoint
  to_create_session to_get_pending_sessions to_confirm_session : Endpoint
  to_get_all_chats : Endpoint
  to_send_message to_get_pending_messages : Endpoint
  to_node_info to_get_user_devices to_get_user_keys to_federated_keys : Endpoint
  to_receive_session to_receive_messages to_receive_ack : Endpoint
  to_ws_route : Endpoint

pub record Route : Type 0 where
  pub path : String
  pub method : String
  pub endpoint : Endpoint

abbrev get_route : String → Endpoint → Route
get_route path e = record { path = path; method = "GET"; endpoint = e }

abbrev post_route : String → Endpoint → Route
post_route path e = record { path = path; method = "POST"; endpoint = e }

abbrev users_routes : List Route
users_routes =
    get_route "/users" to_list_users
    ∷ get_route "/users/:id" to_get_user_by_id
    ∷ post_route "/users/create" to_create_user
    ∷ post_route "/users/login" to_login_user
    ∷ []

abbrev devices_routes : List Route
devices_routes =
    post_route "/users/:id/devices" to_create_device
    ∷ get_route "/users/:id/devices" to_get_devices_for_user
    ∷ get_route "/users/:id/keys" to_get_keys_of_user
    ∷ get_route "/devices/:id/user" to_get_user_for_device
    ∷ []

abbrev root_routes : List Route
root_routes = get_route "/" to_root ∷ get_route "/health" to_health_check ∷ []

abbrev sessions_routes : List Route
sessions_routes =
    post_route "/sessions" to_create_session
    ∷ get_route "/sessions/pending" to_get_pending_sessions
    ∷ post_route "/sessions/confirm" to_confirm_session
    ∷ []

abbrev chats_routes : List Route
chats_routes = get_route "/chats" to_get_all_chats ∷ get_route "/chats/:id" to_get_all_chats ∷ []

abbrev messages_routes : List Route
messages_routes =
    post_route "/messages" to_send_message
    ∷ get_route "/messages/pending" to_get_pending_messages
    ∷ []

abbrev federation_routes : List Route
federation_routes =
    get_route "/s2s/info" to_node_info
    ∷ get_route "/s2s/users/:username/devices" to_get_user_devices
    ∷ get_route "/s2s/users/:username/keys" to_get_user_keys
    ∷ post_route "/s2s/sessions" to_receive_session
    ∷ post_route "/s2s/messages" to_receive_messages
    ∷ post_route "/s2s/ack" to_receive_ack
    ∷ get_route "/s2s/federated/:username/:node_id/keys" to_federated_keys
    ∷ []

abbrev websocket_routes : List Route
websocket_routes = get_route "/ws/:user_id" to_ws_route ∷ []

-- Router::new().merge(…)…
unfoldable pub routes : List Route
routes =
    users_routes
    ++ (devices_routes
        ++ (root_routes
            ++ (sessions_routes
                ++ (chats_routes ++ (messages_routes ++ (federation_routes ++ websocket_routes))))))

-- Router::route refuses some paths, and panics.
unfoldable pub all_accepted : (String → Bool) → List Route → Bool
all_accepted accepts [] = true
all_accepted accepts (r ∷ rs) = let rest = all_accepted accepts rs in accepts r.path && rest
