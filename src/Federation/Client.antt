-- ===== src/Federation/Client.antt =====
-- src/federation/client.rs: outbound requests signed with the node's key.
pub mod Paths
pub mod Frames
pub mod Failures
pub mod Refusals
pub mod Posted
use hush_net_backend.Prelude.{
  ℕ, suc, ◌+◌, ◌==◌, String, Bool, false, ◌&&◌, Option, none, some, List, [], ◌∷◌, leb,
  if◌then◌else◌,
}
use hush_net_backend.Prelude.Text.{find, slice_from, as_bytes}
use hush_net_backend.Prelude.Decimal.{u64_text}
use hush_net_backend.Models.{Value, DeviceBundle, S2sAck, S2sMessagePayload, S2sSessionPayload}
use hush_net_backend.Store.{
  ◌>>=◌, HttpReply, unreachable, response, Body, empty, messages, sessions, Exec, pure, throw, gets,
  lift, ok_or, send, utc_now,
}
use hush_net_backend.Web.{NodeKeys, ClientError, context}
use hush_net_backend.Utils.Keys.{signing_key}
use Prim.Native.String.{◌++◌}
use Prim.Native.Char.{code}
use Prim.Native.String

pub record FederationClient : Type 0 where
  pub node_keys : NodeKeys
  pub this_node_id : String

abbrev head_is : ℕ → String → Bool
head_is c String.[] = false
head_is c (String.◌∷◌ x s) = code x == c

-- "://" stands here
abbrev at_scheme : String → Bool
at_scheme s = head_is b':' s && (head_is b'/' (slice_from 1 s) && head_is b'/' (slice_from 2 s))

-- url.find("://")
abbrev find_scheme : String → Option ℕ
find_scheme String.[] = none
find_scheme (String.◌∷◌ c s) =
    let rest = find_scheme s in
    if at_scheme (String.◌∷◌ c s) then some 0 else elim rest [ none ↦ none | some i ↦ some (suc i) ]

abbrev path_of : String → String
path_of after_scheme = elim (find b'/' after_scheme) [
  | none ↦ "/"
  | some slash ↦ slice_from slash after_scheme
]

unfoldable pub url_path : String → String
url_path url = elim (find_scheme url) [ none ↦ url | some pos ↦ path_of (slice_from (pos + 3) url) ]

-- {method}\n{path}\n{timestamp}\n{nonce}
abbrev pub canonical : String → String → String → String → String
canonical method path ts nonce = method ++ ("\n" ++ (path ++ ("\n" ++ (ts ++ ("\n" ++ nonce)))))

-- the timestamp, the nonce and the signature
unfoldable pub sign :
    FederationClient → String → String → Exec ClientError (String × String × String)
sign client method path = do
  now ← utc_now
  nonce ← gets (λ w. w.env.encode_b64 (w.env.random w.calls))
  env ← gets (λ w. w.env)
  key ← lift (signing_key env client.node_keys)
  let ts = u64_text now
  pure (ts, nonce, env.encode_b64 (env.sign key (as_bytes (canonical method path ts nonce))))

abbrev pub auth_headers : FederationClient → String × String × String → List (String × String)
auth_headers client (ts, nonce, sig) =
    ("X-Node-ID", client.this_node_id)
    ∷ ("X-Timestamp", ts)
    ∷ ("X-Nonce", nonce)
    ∷ ("X-Node-Signature", sig)
    ∷ []

-- send().await.context(failure)
abbrev pub sent_or : String → HttpReply → Exec ClientError HttpReply
sent_or failure unreachable = throw (context failure)
sent_or failure (response status json) = pure (response status json)

unfoldable pub signed_get : FederationClient → String → Exec ClientError HttpReply
unfolding sign url_path
signed_get client url = do
  auth ← sign client "GET" (url_path url)
  reply ←
      send (record { method = "GET"; url = url; headers = auth_headers client auth; body = empty })
  sent_or "S2S GET request failed" reply

unfoldable pub signed_post : FederationClient → String → String → Body → Exec ClientError HttpReply
unfolding sign
signed_post client api_url path body = do
  auth ← sign client "POST" path
  reply ← send (record {
    method = "POST";
    url = api_url ++ path;
    headers = ("Content-Type", "application/json") ∷ auth_headers client auth;
    body = body;
  })
  sent_or "S2S POST request failed" reply

abbrev pub is_error_status : ℕ → Bool
is_error_status status = leb 400 status && leb status 599

-- error_for_status().context(failure), with the body where it is JSON
abbrev pub body_or : String → HttpReply → Exec ClientError (Option Value)
body_or failure unreachable = throw (context failure)
body_or failure (response status json) =
    if is_error_status status then throw (context failure) else pure json

-- json::<A>().context(failure)
abbrev pub decoded : {A : Type 0} → (Value → Option A) → Option Value → String → Exec ClientError A
decoded decode none failure = throw (context failure)
decoded decode (some v) failure = ok_or (decode v) (context failure)

unfoldable pub fetch_peer_keys :
    FederationClient → String → String → Exec ClientError (List DeviceBundle)
unfolding signed_get
fetch_peer_keys client api_url username = do
  reply ← signed_get client (api_url ++ ("/s2s/users/" ++ (username ++ "/keys")))
  json ← body_or "peer returned error for key fetch" reply
  env ← gets (λ w. w.env)
  decoded env.bundles_of_value json "invalid key bundle in peer response"

unfoldable pub forward_session :
    FederationClient → String → S2sSessionPayload → Exec ClientError (Unit {0})
unfolding signed_post
forward_session client api_url payload = do
  reply ← signed_post client api_url "/s2s/sessions" (sessions payload)
  json ← body_or "peer rejected session forward" reply
  pure tt

unfoldable pub forward_messages :
    FederationClient → String → S2sMessagePayload → Exec ClientError S2sAck
unfolding signed_post
forward_messages client api_url payload = do
  reply ← signed_post client api_url "/s2s/messages" (messages payload)
  json ← body_or "peer rejected message forward" reply
  env ← gets (λ w. w.env)
  decoded env.ack_of_value json "invalid ack in peer response"
