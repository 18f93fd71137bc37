-- ===== src/Federation/Client/Frames.antt =====
-- The requests of src/federation/client.rs and this node's own tables.
use hush_net_backend.Prelude.{String, Option, none, some}
use hush_net_backend.Models.{Value, S2sMessagePayload, S2sSessionPayload}
use hush_net_backend.Store.{Db, HttpReply, unreachable, response, Body}
use hush_net_backend.Store.Keeps.{Keeps, keeps_rules}
use hush_net_backend.Federation.Client.{
  FederationClient, sent_or, body_or, decoded, sign, signed_get, signed_post, fetch_peer_keys,
  forward_session, forward_messages,
}

module _ (P : Db → Type 0) where
  sent_or-Keeps : (failure : String) (r : HttpReply) → Keeps P (sent_or failure r)
  sent_or-Keeps failure unreachable = search keeps_rules
  sent_or-Keeps failure (response status json) = search keeps_rules

  body_or-Keeps : (failure : String) (r : HttpReply) → Keeps P (body_or failure r)
  body_or-Keeps failure unreachable = search keeps_rules
  body_or-Keeps failure (response status json) = search keeps_rules

  decoded-Keeps :
      {A : Type 0} (decode : Value → Option A) (json : Option Value) (failure : String)
      → Keeps P (decoded decode json failure)
  decoded-Keeps decode none failure = search keeps_rules
  decoded-Keeps decode (some v) failure = search keeps_rules

  sign-Keeps :
      (client : FederationClient) (method path : String) → Keeps P (sign client method path)
  unfolding sign
  sign-Keeps client method path = search keeps_rules depth 16

  signed_post-Keeps :
      (client : FederationClient) (url path : String) (body : Body)
      → Keeps P (signed_post client url path body)
  unfolding signed_post
  signed_post-Keeps client url path body = search (keeps_rules, sign-Keeps, sent_or-Keeps) depth 12

  signed_get-Keeps : (client : FederationClient) (url : String) → Keeps P (signed_get client url)
  unfolding signed_get
  signed_get-Keeps client url = search (keeps_rules, sign-Keeps, sent_or-Keeps) depth 12

  pub forward_messages-Keeps :
      (client : FederationClient) (url : String) (payload : S2sMessagePayload)
      → Keeps P (forward_messages client url payload)
  unfolding forward_messages
  forward_messages-Keeps client url payload =
      search (keeps_rules, signed_post-Keeps, body_or-Keeps, decoded-Keeps) depth 16

  pub forward_session-Keeps :
      (client : FederationClient) (url : String) (payload : S2sSessionPayload)
      → Keeps P (forward_session client url payload)
  unfolding forward_session
  forward_session-Keeps client url payload =
      search (keeps_rules, signed_post-Keeps, body_or-Keeps) depth 16

  pub fetch_peer_keys-Keeps :
      (client : FederationClient) (url username : String)
      → Keeps P (fetch_peer_keys client url username)
  unfolding fetch_peer_keys
  fetch_peer_keys-Keeps client url username =
      search (keeps_rules, signed_get-Keeps, body_or-Keeps, decoded-Keeps) depth 16
