-- ===== src/Tests/Routes.antt =====
-- The theorems on deliveries from node to node, between two small nodes.
use hush_net_backend.Prelude.{
  String, true, ◌≡◌, refl, ◌⊎◌, Option, none, some, List, [], ◌∷◌, str_eq, if◌then◌else◌, ◌++◌,
}
use hush_net_backend.Prelude.Text.{as_bytes, slice_from}
use hush_net_backend.Prelude.Decimal.{u64_text, to_decimal, parse_i64}
use hush_net_backend.Models.{S2sMessagePayload, Value, object, field, end, string, get_str, S2sAck}
use hush_net_backend.Store.{
  World, HttpRequest, Body, messages, Delivery, SqlError, Result, ok, err, query, send, ◌>>=◌,
}
use hush_net_backend.Web.{AppState, HeaderValue, text, ResponseBody, plain, ack, Response, respond}
use hush_net_backend.Utils.Keys.{signing_key}
use hush_net_backend.Federation.Client.{
  FederationClient, canonical, sign, signed_post, forward_messages,
}
use hush_net_backend.Federation.Client.Posted.{posted_request}
use hush_net_backend.Auth.Window.{outside_window}
use hush_net_backend.Auth.Node.{header_str, resolve_peer, check_signature, authenticate_node}
use hush_net_backend.Repository.Federation.{get_federation_node, claim_nonce, claim_statement}
use hush_net_backend.Repository.Shadow.{
  get_local_user_id_by_username, upsert_shadow_user, shadow_user_statement, upsert_shadow_device,
  shadow_device_statement, get_or_create_direct_chat, ordered_chat, find_chat_statement,
  insert_chat_statement,
}
use hush_net_backend.Repository.Messages.{insert_federated_message, federated_statement}
use hush_net_backend.Controllers.Federation.{
  local_user_or, sender_username, store_messages, receive_messages,
}
use hush_net_backend.Controllers.Messages.{immediate_delivery}
use hush_net_backend.Routes.{to_receive_messages, Axum, serve, reply_of}
use hush_net_backend.Routes.Delivered.{ReadsBack, messages_after, forwarded_is_stored}
use hush_net_backend.Repository.Messages.Contents.{Has}
use hush_net_backend.Prelude.{AllOf}
use hush_net_backend.Routes.Accepted.{acked}
use hush_net_backend.Routes.Marked.{StoredBy, marked_is_stored}
use hush_net_backend.Tests.Fixtures.{env, encode, zeros, keys, state, peer, wire, db, w0}

abbrev json_body : ResponseBody → Option Value
json_body (ack s) = some (
    object
      (field "logical_msg_id" (string s.logical_msg_id) (field "status" (string s.status) end)))
json_body _ = none

abbrev read_status : String → Option String → Option S2sAck
read_status l none = none
read_status l (some s) = some (record { logical_msg_id = l; status = s })

abbrev read_ack : Value → Option S2sAck
read_ack v = elim (get_str v "logical_msg_id") [
  | none ↦ none
  | some l ↦ read_status l (get_str v "status")
]

abbrev header_in : String → List (String × String) → Option HeaderValue
header_in name [] = none
header_in name ((key, value) ∷ hs) =
    let rest = header_in name hs in if str_eq key name then some (text value) else rest

abbrev json_messages : Body → Result Response S2sMessagePayload
json_messages (messages payload) = ok payload
json_messages _ = err (respond 422 (plain "no message"))

-- extractors behind a proxy that strips https://a.example/api
abbrev axum : Axum
axum = record {
  parts = λ req. record {
    header = λ name. header_in name req.headers;
    method = req.method;
    path_and_query = some (slice_from 21 req.url);
  };
  path_id = λ req. err (respond 400 (plain ""));
  path_username = λ req. err (respond 400 (plain ""));
  path_username_and_node = λ req. err (respond 400 (plain ""));
  json_create_user = λ req. err (respond 422 (plain ""));
  json_login_user = λ req. err (respond 422 (plain ""));
  json_create_device = λ req. err (respond 422 (plain ""));
  json_create_session = λ req. err (respond 422 (plain ""));
  json_confirm_session = λ req. err (respond 422 (plain ""));
  json_outgoing = λ req. err (respond 422 (plain ""));
  json_session = λ req. err (respond 422 (plain "no session"));
  json_messages = λ req. json_messages req.body;
  json_ack = λ req. err (respond 422 (plain "no acknowledgement"));
  upgrade = λ req. err (respond 400 (plain ""));
  to_json = json_body;
  after_panic = respond 500 (plain "");
}

-- Bob's node, which reaches Alice's
abbrev sender : AppState
sender = record state { this_node_id = "b.example" }

abbrev from_bob : World
from_bob = record w0 {
  env = record env {
    http = λ i req. reply_of axum (serve axum state req to_receive_messages w0).0;
    ack_of_value = read_ack;
  };
}

abbrev bob : FederationClient
bob = record { node_keys = keys; this_node_id = "b.example" }

abbrev to_alice : String
to_alice = "https://a.example/api"

abbrev arrived : World
arrived = (forward_messages bob to_alice wire from_bob).1

forwards : forward_messages bob to_alice wire from_bob ≡ (ok (acked wire true), arrived)
unfolding forward_messages signed_post sign signing_key u64_text to_decimal authenticate_node
    header_str resolve_peer get_federation_node check_signature claim_nonce claim_statement
    outside_window parse_i64 as_bytes receive_messages local_user_or get_local_user_id_by_username
    sender_username upsert_shadow_user shadow_user_statement upsert_shadow_device
    shadow_device_statement get_or_create_direct_chat ordered_chat find_chat_statement
    insert_chat_statement store_messages insert_federated_message federated_statement query send
    ◌>>=◌
forwards = refl

back : ReadsBack axum bob to_alice wire
back auth = refl

forwarded_is_stored_example :
    (req : HttpRequest) × (arrived.sent ≡ [] ++ req ∷ [])
    × AllOf (Has wire db.messages (messages_after axum state w0 req)) wire.payloads
forwarded_is_stored_example =
    forwarded_is_stored bob to_alice wire from_bob arrived (acked wire true) axum state w0 back
      (λ req. refl) forwards

abbrev nonce : String
nonce = encode (7 ∷ [])

abbrev signature : String
signature = encode (env.sign (zeros 32) (as_bytes (canonical "POST" "/s2s/messages" "5000" nonce)))

abbrev request : HttpRequest
request = posted_request bob to_alice wire ("5000", nonce, signature)

abbrev admitted : World
admitted = (authenticate_node state (axum.parts request) w0).1

abbrev taken : World
taken = (receive_messages peer wire admitted).1

abbrev task : Delivery
task = record { outbox_id = 70; api_url = to_alice; payload = wire }

marked_is_stored_example :
    ((immediate_delivery {E = SqlError} sender task from_bob).1.db ≡ db)
    ⊎ StoredBy axum state task w0 from_bob
        (immediate_delivery {E = SqlError} sender task from_bob).1
marked_is_stored_example =
    marked_is_stored SqlError sender state axum task from_bob w0 back (λ req. refl)
