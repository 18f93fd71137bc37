-- ===== src/Tests/Auth.antt =====
-- The theorems on the authentication of nodes, at the small nodes.
use hush_net_backend.Prelude.{
  ◌+◌, ◌^◌, ◌≡◌, ◌≢◌, ◌↔◌, ◌⊎◌, refl, String, false, Option, none, some, [], ◌∷◌, arith, str_eq,
  if◌then◌else◌, ==_refl,
}
use hush_net_backend.Prelude.Text.{as_bytes}
use hush_net_backend.Store.{World, ok, query, ◌>>=◌}
use hush_net_backend.Web.{Parts, HeaderValue, text}
use hush_net_backend.Repository.Federation.{get_federation_node, claim_nonce, claim_statement}
use hush_net_backend.Federation.Client.{FederationClient, canonical, sign}
use hush_net_backend.Utils.Keys.{signing_key}
use hush_net_backend.Auth.Window.{outside_window}
use hush_net_backend.Auth.Window.Bounds.{Near, window_iff}
use hush_net_backend.Auth.Node.{header_str, resolve_peer, check_signature, authenticate_node}
use hush_net_backend.Auth.Node.Signed.{KnownPeer, signed_request_accepted}
use hush_net_backend.Auth.Node.Replay.{here, SaneClocks, accepted_once}
use hush_net_backend.Prelude.Decimal.{u64_text, to_decimal, parse_i64}
use hush_net_backend.Tests.Fixtures.{
  env, encode, decode-encode, zeros, env, keys, state, peer, db, w0,
}

abbrev client : FederationClient
client = record { node_keys = keys; this_node_id = "b.example" }

bob-KnownPeer : KnownPeer client w0 w0 (zeros 32) (zeros 32) peer
unfolding signing_key
bob-KnownPeer = record {
  codec = decode-encode;
  ed25519 = λ m. ==_refl _;
  signature_length = λ m. refl;
  private_key = refl;
  cached = refl;
  not_blocked = refl;
  public_key = refl;
  public_key_length = refl;
  public_key_valid = refl;
}

abbrev nonce : String
nonce = encode (7 ∷ [])

abbrev signature : String
signature =
    encode (env.sign (zeros 32) (as_bytes (canonical "GET" "/s2s/users/alice/keys" "5000" nonce)))

abbrev headers : String → Option HeaderValue
headers name =
    if str_eq name "X-Node-ID"
    then some (text "b.example")
    else if str_eq name "X-Timestamp"
    then some (text "5000")
    else if str_eq name "X-Nonce"
    then some (text nonce)
    else if str_eq name "X-Node-Signature"
    then some (text signature)
    else none

abbrev parts : Parts
parts = record { header = headers; method = "GET"; path_and_query = some "/s2s/users/alice/keys" }

signed : (sign client "GET" "/s2s/users/alice/keys" w0).0 ≡ ok ("5000", nonce, signature)
unfolding sign signing_key ◌>>=◌ u64_text to_decimal
signed = refl

signed_request_accepted_example : (authenticate_node state parts w0).0 ≡ ok peer
signed_request_accepted_example =
    signed_request_accepted client state parts "GET" "/s2s/users/alice/keys" "5000" nonce signature
      w0 w0 (zeros 32) (zeros 32) peer bob-KnownPeer signed refl refl refl refl refl refl
      (omega arith) (omega arith) (omega arith) (omega arith) refl refl refl

-- the world after the request was accepted
abbrev w1 : World
w1 = record w0 {
  db = record db {
    used_node_nonces = record { nonce = nonce; node_id = "b.example"; used_at = 5000 } ∷ [];
  };
  calls = 2;
}

accepted : authenticate_node state parts w0 ≡ (ok peer, w1)
unfolding authenticate_node header_str resolve_peer get_federation_node check_signature claim_nonce
    claim_statement query ◌>>=◌ outside_window parse_i64 as_bytes
accepted = refl

clocks : SaneClocks env
clocks = record {
  monotone = λ i j h. omega arith;
  ahead = λ i. omega arith;
  behind = λ i. omega arith;
  bounded = λ i. omega arith;
}

accepted_once_example : (authenticate_node state parts w1).0 ≢ ok peer
accepted_once_example =
    accepted_once state state parts parts w0 w1 w1 peer peer clocks accepted here refl

window_iff_example :
    (outside_window 60 5000 5061 ≡ false) ↔ (Near 60 5000 5061 ⊎ (5061 ≡ 5000 + 2 ^ 63))
window_iff_example = window_iff 60 5000 5061 (omega arith) (omega arith) (omega arith)
