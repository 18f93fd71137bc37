-- ===== src/Realtime/Websocket/Filter.antt =====
-- What a socket receives of the events: src/realtime/websocket.rs.
use hush_net_backend.Prelude.{
  String, Bool, true, false, ◌&&◌, ◌≡◌, refl, ap, ◌∙◌, Option, none, some, List, [], ◌∷◌, ◌++◌,
  select_where, str_eq, if◌then◌else◌, Bool-cases, inl, inr, arith,
}
use hush_net_backend.Models.{Value, RealtimeEvent, get_str}
use hush_net_backend.Realtime.Listener.{Received, notice, failure, event_of, forward_notices}
use hush_net_backend.Realtime.Websocket.{
  Broadcast, event, lagged, closed, is_for, dispatched, handle_socket,
}

-- the events that stand before the end of the channel
abbrev pub events_before_end : List Broadcast → List RealtimeEvent
events_before_end [] = []
events_before_end (event e writable ∷ rest) = e ∷ events_before_end rest
events_before_end (lagged n ∷ rest) = events_before_end rest
events_before_end (closed ∷ rest) = []

abbrev pub always_open : List Broadcast → Bool
always_open [] = true
always_open (event e writable ∷ rest) = writable && always_open rest
always_open (lagged n ∷ rest) = always_open rest
always_open (closed ∷ rest) = always_open rest

-- the texts of the events that serialise
abbrev pub texts : (RealtimeEvent → Option String) → List RealtimeEvent → List String
texts to_json [] = []
texts to_json (e ∷ es) = elim (to_json e) [
  | none ↦ texts to_json es
  | some s ↦ s ∷ texts to_json es
]

-- An open socket of a user is sent, in their order, the texts of exactly the events for that user
-- that come before the end of the channel.
pub socket_receives :
    (to_json : RealtimeEvent → Option String) (user_id : String) (bs : List Broadcast)
    → always_open bs ≡ true
    → handle_socket to_json user_id bs
      ≡ texts to_json (select_where (is_for user_id) (events_before_end bs))
unfolding handle_socket
socket_receives to_json user_id [] h = refl
socket_receives to_json user_id (event e writable ∷ rest) h =
    ground (arith, socket_receives to_json user_id rest)
socket_receives to_json user_id (lagged n ∷ rest) h = socket_receives to_json user_id rest h
socket_receives to_json user_id (closed ∷ rest) h = refl

abbrev pub IsPrefix : List String → List String → Type 0
IsPrefix xs ys = (zs : List String) × (xs ++ zs ≡ ys)

dispatched-IsPrefix :
    (o : Option String) (writable : Bool) (xs ys : List String)
    → IsPrefix xs ys
    → IsPrefix (dispatched o writable xs) (elim o [ none ↦ ys | some s ↦ s ∷ ys ])
dispatched-IsPrefix none writable xs ys h = h
dispatched-IsPrefix (some s) true xs ys (zs, e) = (zs, ap (λ (l : List String). s ∷ l) e)
dispatched-IsPrefix (some s) false xs ys h = (s ∷ ys, refl)

-- Whatever sends fail, what a socket is sent is a first part of that, so that no event of another
-- user reaches it.
pub socket_receives_prefix :
    (to_json : RealtimeEvent → Option String) (user_id : String) (bs : List Broadcast)
    → IsPrefix
        (handle_socket to_json user_id bs)
        (texts to_json (select_where (is_for user_id) (events_before_end bs)))
unfolding handle_socket
socket_receives_prefix to_json user_id [] = ([], refl)
socket_receives_prefix to_json user_id (event e writable ∷ rest) =
    elim (Bool-cases (is_for user_id e)) [
      | inl mine ↦ rw mine (
          dispatched-IsPrefix (to_json e) writable (handle_socket to_json user_id rest)
            (texts to_json (select_where (is_for user_id) (events_before_end rest)))
            (socket_receives_prefix to_json user_id rest))
      | inr other ↦ rw other (socket_receives_prefix to_json user_id rest)
    ]
socket_receives_prefix to_json user_id (lagged n ∷ rest) =
    socket_receives_prefix to_json user_id rest
socket_receives_prefix to_json user_id (closed ∷ rest) = ([], refl)

-- the events of a broadcast to an open socket
abbrev pub broadcast : List RealtimeEvent → List Broadcast
broadcast [] = []
broadcast (e ∷ es) = event e true ∷ broadcast es

broadcast-open : (es : List RealtimeEvent) → always_open (broadcast es) ≡ true
broadcast-open [] = refl
broadcast-open (e ∷ es) = broadcast-open es

events-broadcast : (es : List RealtimeEvent) → events_before_end (broadcast es) ≡ es
events-broadcast [] = refl
events-broadcast (e ∷ es) = ap (λ (l : List RealtimeEvent). e ∷ l) (events-broadcast es)

abbrev type_in : Value → String
type_in payload = elim (get_str payload "type") [ none ↦ "unknown" | some t ↦ t ]

abbrev user_in : Value → String
user_in payload = elim (get_str payload "user_id") [ none ↦ "" | some u ↦ u ]

abbrev with_text : Option String → List String → List String
with_text none ss = ss
with_text (some s) ss = s ∷ ss

-- what the user is to get of the notifications: the text of each that parses and names the user
abbrev pub texts_due : (RealtimeEvent → Option String) → String → List Received → List String
texts_due to_json user_id [] = []
texts_due to_json user_id (failure ∷ rs) = texts_due to_json user_id rs
texts_due to_json user_id (notice none ∷ rs) = texts_due to_json user_id rs
texts_due to_json user_id (notice (some payload) ∷ rs) =
    let rest = texts_due to_json user_id rs in
    if str_eq (user_in payload) user_id
    then with_text (to_json (record { event_type = type_in payload; payload = payload })) rest
    else rest

due-forwarded :
    (to_json : RealtimeEvent → Option String) (user_id : String) (rs : List Received)
    → texts to_json (select_where (is_for user_id) (forward_notices rs))
      ≡ texts_due to_json user_id rs
unfolding forward_notices event_of
due-forwarded to_json user_id [] = refl
due-forwarded to_json user_id (failure ∷ rs) = due-forwarded to_json user_id rs
due-forwarded to_json user_id (notice none ∷ rs) = due-forwarded to_json user_id rs
due-forwarded to_json user_id (notice (some payload) ∷ rs) =
    ground (arith, due-forwarded to_json user_id rs)

-- From the database to the client: an open socket that loses no event is sent, in the order of the
-- notifications, the text of each whose payload is JSON and names the socket's user: an event with
-- the payload and its type, "unknown" where it has none. The listener's errors end nothing.
pub notices_reach_user :
    (to_json : RealtimeEvent → Option String) (user_id : String) (rs : List Received)
    → handle_socket to_json user_id (broadcast (forward_notices rs)) ≡ texts_due to_json user_id rs
notices_reach_user to_json user_id rs =
    socket_receives to_json user_id (broadcast (forward_notices rs))
      (broadcast-open (forward_notices rs))
    ∙ ap (λ es. texts to_json (select_where (is_for user_id) es))
        (events-broadcast (forward_notices rs))
    ∙ due-forwarded to_json user_id rs
