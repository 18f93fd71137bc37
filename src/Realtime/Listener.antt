-- ===== src/Realtime/Listener.antt =====
-- src/realtime/listener.rs: from notifications to broadcast events.
use hush_net_backend.Prelude.{String, Option, none, some, List, [], ◌∷◌}
use hush_net_backend.Models.{Value, RealtimeEvent, get_str}

-- listener.recv(): a notification, with its payload where that is JSON, or an error
pub data Received : Type 0 where
  notice : Option Value → Received
  failure : Received

-- unwrap_or("unknown")
abbrev or_unknown : Option String → String
or_unknown none = "unknown"
or_unknown (some s) = s

unfoldable pub event_of : Value → RealtimeEvent
event_of payload = record { event_type = or_unknown (get_str payload "type"); payload = payload }

-- the loop, over what it receives: the events that it sends to the broadcast channel
unfoldable pub forward_notices : List Received → List RealtimeEvent
forward_notices [] = []
forward_notices (notice (some payload) ∷ rest) = event_of payload ∷ forward_notices rest
forward_notices (notice none ∷ rest) = forward_notices rest
forward_notices (failure ∷ rest) = forward_notices rest
