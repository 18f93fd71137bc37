-- ===== src/Realtime/Websocket.antt =====
-- src/realtime/websocket.rs: the task of one socket.
pub mod Filter
use hush_net_backend.Prelude.{
  ℕ, String, Bool, true, false, Option, none, some, List, [], ◌∷◌, str_eq, if◌then◌else◌,
}
use hush_net_backend.Models.{RealtimeEvent, get_str}

-- rx.recv(): an event, with whether a send to the socket would succeed then, `n` events dropped, or
-- the end of the channel
pub data Broadcast : Type 0 where
  event : RealtimeEvent → (writable : Bool) → Broadcast
  lagged : ℕ → Broadcast
  closed : Broadcast

-- unwrap_or_default()
abbrev or_default : Option String → String
or_default none = ""
or_default (some s) = s

abbrev pub is_for : String → RealtimeEvent → Bool
is_for user_id e = str_eq (or_default (get_str e.payload "user_id")) user_id

-- `if let Ok(json) = to_string(&event) { if send(json).is_err() { break } }`
abbrev pub dispatched : Option String → Bool → List String → List String
dispatched none writable rest = rest
dispatched (some json) true rest = json ∷ rest
dispatched (some json) false rest = []

-- the texts that the loop sends
unfoldable pub handle_socket :
    (RealtimeEvent → Option String) → String → List Broadcast → List String
handle_socket to_json user_id [] = []
handle_socket to_json user_id (event e writable ∷ rest) =
    let later = handle_socket to_json user_id rest in
    if is_for user_id e then dispatched (to_json e) writable later else later
handle_socket to_json user_id (lagged n ∷ rest) = handle_socket to_json user_id rest
handle_socket to_json user_id (closed ∷ rest) = []
