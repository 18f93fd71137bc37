-- ===== src/Tests/Realtime.antt =====
-- The theorems on sockets, at three notifications.
use hush_net_backend.Prelude.{
  ◌≡◌, String, Option, true, false, none, some, List, [], ◌∷◌, select_where,
}
use hush_net_backend.Models.{Value, RealtimeEvent, string, object, field, end}
use hush_net_backend.Realtime.Listener.{Received, notice, failure, forward_notices}
use hush_net_backend.Realtime.Websocket.{Broadcast, event, is_for, handle_socket}
use hush_net_backend.Realtime.Websocket.Filter.{
  texts, texts_due, events_before_end, broadcast, IsPrefix, socket_receives_prefix,
  notices_reach_user,
}

abbrev payload_of : String → Value
payload_of user_id = object (field "type" (string "message") (field "user_id" (string user_id) end))

abbrev to_json : RealtimeEvent → Option String
to_json e = some e.event_type

abbrev note : String → RealtimeEvent
note user_id = record { event_type = "message"; payload = payload_of user_id }

abbrev breaking : List Broadcast
breaking = event (note "alice") true ∷ event (note "alice") false ∷ event (note "alice") true ∷ []

socket_receives_prefix_example :
    IsPrefix
      (handle_socket to_json "alice" breaking)
      (texts to_json (select_where (is_for "alice") (events_before_end breaking)))
socket_receives_prefix_example = socket_receives_prefix to_json "alice" breaking

abbrev received : List Received
received =
    notice (some (payload_of "alice"))
    ∷ failure
    ∷ notice none
    ∷ notice (some (payload_of "bob"))
    ∷ []

notices_reach_user_example :
    handle_socket to_json "alice" (broadcast (forward_notices received))
    ≡ texts_due to_json "alice" received
notices_reach_user_example = notices_reach_user to_json "alice" received
