-- ===== src/Routes/Accepted.antt =====
-- A delivery to a peer that knows the sender: src/federation/client.rs signs the request,
-- src/middlewares/node_auth.rs of the peer accepts it, and the acknowledgement comes back.
use hush_net_backend.Prelude.{
  suc, ◌+◌, ◌^◌, ◌≤◌, ◌<◌, String, Bool, false, ◌≡◌, some, exists_where, if◌then◌else◌,
}
use hush_net_backend.Models.{Value, S2sMessagePayload, S2sAck}
use hush_net_backend.Store.{World, HttpRequest, fine}
use hush_net_backend.Web.{AppState, text, ack}
use hush_net_backend.Repository.Federation.{is_nonce}
use hush_net_backend.Federation.Client.{FederationClient}
use hush_net_backend.Routes.{Axum}
use hush_net_backend.Routes.Delivered.{ReadsBack, ServedBy}

-- The acknowledgement that the peer serialises is what the sender reads.
abbrev pub AckCodec : Axum → World → Type 0
AckCodec axum w =
    (s : S2sAck) → (j : Value) × (axum.to_json (ack s) ≡ some j) × (w.env.ack_of_value j ≡ some s)

abbrev pub acked : S2sMessagePayload → Bool → S2sAck
acked payload new = record {
  logical_msg_id = payload.logical_msg_id;
  status = if new then "delivered" else "duplicate";
}

-- The parts that an extractor of the peer sees of a request: the method and path that were signed,
-- and the four headers.
pub record Sees (axum : Axum) (client : FederationClient) (req : HttpRequest)
    (ts nonce sig : String) : Type 0 where
  pub sees_method : (axum.parts req).method ≡ "POST"
  pub sees_path : (axum.parts req).path_and_query ≡ some "/s2s/messages"
  pub sees_node : (axum.parts req).header "X-Node-ID" ≡ some (text client.this_node_id)
  pub sees_ts : (axum.parts req).header "X-Timestamp" ≡ some (text ts)
  pub sees_nonce : (axum.parts req).header "X-Nonce" ≡ some (text nonce)
  pub sees_sig : (axum.parts req).header "X-Node-Signature" ≡ some (text sig)

-- The peer, in the world `there`, is reached by the sender in the world `w`: it answers
-- with the handler of this program, the clocks are within a minute
-- of each other and below 2^62, its database answers the two statements of the authentication, and
-- the nonce is new to it.
pub record Reachable (axum : Axum) (state : AppState) (client : FederationClient) (api_url : String)
    (payload : S2sMessagePayload) (nonce : String) (w there : World) : Type 0 where
  pub back : ReadsBack axum client api_url payload
  pub serves : ServedBy axum state there w
  pub sender_clock : w.env.utc_now w.calls < 2 ^ 62
  pub peer_clock : there.env.utc_now there.calls < 2 ^ 62
  pub not_early : there.env.utc_now there.calls ≤ w.env.utc_now w.calls + 60
  pub not_late : w.env.utc_now w.calls ≤ there.env.utc_now there.calls + 60
  pub lookup_answers : there.env.fault there.calls ≡ fine
  pub claim_answers : there.env.fault (suc there.calls) ≡ fine
  pub new_nonce :
      exists_where (is_nonce client.this_node_id nonce) there.db.used_node_nonces ≡ false
