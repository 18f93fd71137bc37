-- ===== src/Auth/Node/Signed.antt =====
-- A request signed by `FederationClient::sign` of src/federation/client.rs, at the receiving node.
use hush_net_backend.Prelude.{
  ℕ, suc, ◌+◌, ◌^◌, ◌≤◌, ◌<◌, String, ◌≡◌, refl, sym, ap, ◌∙◌, inl, true, false, not, Option, some,
  length, exists_where, find_where, ==_iff, arith,
}
use hush_net_backend.Prelude.Text.{as_bytes}
use hush_net_backend.Prelude.Decimal.{u64_text}
use hush_net_backend.Prelude.Decimal.RoundTrip.{parse_i64-u64_text}
use hush_net_backend.Models.{FederationNode}
use hush_net_backend.Store.{World, Bytes, fine, Result, ok, continue, query, ◌>>=◌}
use hush_net_backend.Store.Inversion.{after, query_fine}
use hush_net_backend.Store.Forward.{
  bind_step, ok_or_step, gets_run, throw_if_step, throw_if_run, map_err_step, pure_run,
}
use hush_net_backend.Web.{AppState, Parts, text, Response, ClientError}
use hush_net_backend.Repository.Federation.{
  has_node_id, get_federation_node, is_nonce, claim_statement, claim_nonce,
}
use hush_net_backend.Federation.Client.{FederationClient, canonical, sign}
use hush_net_backend.Utils.Keys.{signing_key, to_array}
use hush_net_backend.Auth.Window.Bounds.{window_iff}
use hush_net_backend.Auth.Node.{
  header_text, header_str, or_ask, resolve_peer, check_signature, authenticate_node, db_error,
}

-- The node of `client`, in the world `w`, is known to the receiver, in the world `r`, as `n`: the
-- key pair belongs together, as the crates base64 and ed25519-dalek have it, and the receiver has
-- the public half in its cache, not blocked.
pub record KnownPeer (client : FederationClient) (w r : World) (sk pk : Bytes) (n : FederationNode)
    : Type 0 where
  pub codec : (b : Bytes) → r.env.decode_b64 (w.env.encode_b64 b) ≡ some b
  pub ed25519 : (m : Bytes) → r.env.verify pk m (w.env.sign sk m) ≡ true
  pub signature_length : (m : Bytes) → length (w.env.sign sk m) ≡ 64
  pub private_key : signing_key w.env client.node_keys ≡ ok sk
  pub cached : find_where (has_node_id client.this_node_id) r.db.federation_nodes ≡ some n
  pub not_blocked : n.is_blocked ≡ false
  pub public_key : r.env.decode_b64 n.public_key_b64 ≡ some pk
  pub public_key_length : length pk ≡ 32
  pub public_key_valid : r.env.valid_key pk ≡ true

to_array_of_length : (k : ℕ) (b : Bytes) → length b ≡ k → to_array k b ≡ some b
to_array_of_length k b h = rw ((==_iff (length b) k).1 h)

-- what `sign` sends in the world `w`
module _ (w : World) where
  abbrev ts_of : String
  ts_of = u64_text (w.env.utc_now w.calls)

  abbrev nonce_of : String
  nonce_of = w.env.encode_b64 (w.env.random w.calls)

  abbrev sig_of : Bytes → String → String → String
  sig_of key method path =
      w.env.encode_b64 (w.env.sign key (as_bytes (canonical method path ts_of nonce_of)))

sign_run :
    (client : FederationClient) (method path : String) (w : World) (sk : Bytes)
    → signing_key w.env client.node_keys ≡ ok sk
    → sign client method path w ≡ (ok (ts_of w, nonce_of w, sig_of w sk method path), w)
unfolding sign ◌>>=◌
sign_run client method path w sk h = rw (h, continue)

get_cached :
    (id : String) (r : World) (n : FederationNode)
    → r.env.fault r.calls ≡ fine
    → find_where (has_node_id id) r.db.federation_nodes ≡ some n
    → get_federation_node id r ≡ (ok (some n), record r { calls = suc r.calls })
unfolding get_federation_node
get_cached id r n f h =
    query_fine _ r f
    ∙ ap (λ (o : Option FederationNode). (ok o, record r { calls = suc r.calls })) h

resolve_peer_cached :
    (state : AppState) (id : String) (r : World) (n : FederationNode)
    → r.env.fault r.calls ≡ fine
    → find_where (has_node_id id) r.db.federation_nodes ≡ some n
    → resolve_peer state id r ≡ (ok n, record r { calls = suc r.calls })
unfolding resolve_peer
resolve_peer_cached state id r n f h =
    bind_step _ (or_ask state id)
      (map_err_step (get_federation_node id) db_error (get_cached id r n f h))
    ∙ pure_run n _

claim_unseen :
    (id nonce : String) (r : World)
    → r.env.fault r.calls ≡ fine
    → exists_where (is_nonce id nonce) r.db.used_node_nonces ≡ false
    → claim_nonce id nonce r ≡ (ok true, after (claim_statement id nonce) r)
unfolding claim_nonce claim_statement
claim_unseen id nonce r f h =
    bind_step (query (claim_statement id nonce)) {a = 1} _
      (query_fine (claim_statement id nonce) r f ∙ rw h)
    ∙ pure_run true _

module _ (client : FederationClient) (method path : String) (w r : World) {sk pk : Bytes}
    {n : FederationNode} (k : KnownPeer client w r sk pk n) (parts : Parts)
    (same_method : parts.method ≡ method) (same_path : parts.path_and_query ≡ some path) where
  -- the signature check, after `m` calls of the receiver
  signature_passes :
      (m : ℕ)
      → let u = record r { calls = m } in
        check_signature parts n (ts_of w) (nonce_of w) (sig_of w sk method path) u ≡ (ok tt, u)
  unfolding check_signature
  signature_passes m =
      let u : World = record r { calls = m } in
      gets_run _ _ u
      ∙ ok_or_step _ _ u (k.codec _)
      ∙ ok_or_step _ _ u (to_array_of_length 64 _ (k.signature_length _))
      ∙ ok_or_step _ _ u k.public_key
      ∙ ok_or_step _ _ u (to_array_of_length 32 pk k.public_key_length)
      ∙ throw_if_step _ _ u (ap not k.public_key_valid)
      ∙ throw_if_run _ u (rw (same_method, same_path) (ap not (k.ed25519 _)))

  signed_passes :
      (state : AppState)
      → parts.header "X-Node-ID" ≡ some (text client.this_node_id)
      → parts.header "X-Timestamp" ≡ some (text (ts_of w))
      → parts.header "X-Nonce" ≡ some (text (nonce_of w))
      → parts.header "X-Node-Signature" ≡ some (text (sig_of w sk method path))
      → w.env.utc_now w.calls < 2 ^ 62
      → r.env.utc_now r.calls < 2 ^ 62
      → r.env.utc_now r.calls ≤ w.env.utc_now w.calls + 60
      → w.env.utc_now w.calls ≤ r.env.utc_now r.calls + 60
      → r.env.fault r.calls ≡ fine
      → r.env.fault (suc r.calls) ≡ fine
      → exists_where (is_nonce client.this_node_id (nonce_of w)) r.db.used_node_nonces ≡ false
      → (authenticate_node state parts r).0 ≡ ok n
  unfolding authenticate_node header_str
  signed_passes state h1 h2 h3 h4 bw br l1 l2 f1 f2 fresh =
      let u : World = record r { calls = suc r.calls } in
      ap (λ (x : Result Response FederationNode × World). x.0)
        (ok_or_step _ _ r (ap header_text h1)
          ∙ ok_or_step _ _ r (ap header_text h2)
          ∙ ok_or_step _ _ r (ap header_text h3)
          ∙ ok_or_step _ _ r (ap header_text h4)
          ∙ gets_run _ _ r
          ∙ ok_or_step _ _ r (parse_i64-u64_text (w.env.utc_now w.calls) (omega arith))
          ∙ throw_if_step _ _ r (
              (window_iff 60 (r.env.utc_now r.calls) (w.env.utc_now w.calls) (omega arith) br
                  (omega arith)).1
                (inl (inl (l1, l2))))
          ∙ bind_step _ _ (resolve_peer_cached state client.this_node_id r n f1 k.cached)
          ∙ throw_if_step _ _ u k.not_blocked
          ∙ bind_step _ _ (signature_passes (suc r.calls))
          ∙ bind_step _ _
              (map_err_step _ db_error (claim_unseen client.this_node_id (nonce_of w) u f2 fresh))
          ∙ throw_if_step _ _ _ refl
          ∙ pure_run n _)

ok_triple :
    {a b c a' b' c' : String}
    → ◌≡◌ {A = Result ClientError (String × String × String)} (ok (a, b, c)) (ok (a', b', c'))
    → (a ≡ a') × (b ≡ b') × (c ≡ c')
ok_triple h = ground arith

-- A request whose four headers carry what `sign` made of its method and path is accepted by a node
-- that knows the sender: the two clocks are within a minute and below 2^62, the nonce is new there, the database
-- answers, and the receiver sees the method and the path that were signed.
pub signed_request_accepted :
    (client : FederationClient) (state : AppState) (parts : Parts)
    (method path ts nonce sig : String) (w r : World) (sk pk : Bytes) (n : FederationNode)
    → KnownPeer client w r sk pk n
    → (sign client method path w).0 ≡ ok (ts, nonce, sig)
    → parts.method ≡ method
    → parts.path_and_query ≡ some path
    → parts.header "X-Node-ID" ≡ some (text client.this_node_id)
    → parts.header "X-Timestamp" ≡ some (text ts)
    → parts.header "X-Nonce" ≡ some (text nonce)
    → parts.header "X-Node-Signature" ≡ some (text sig)
    → w.env.utc_now w.calls < 2 ^ 62
    → r.env.utc_now r.calls < 2 ^ 62
    → r.env.utc_now r.calls ≤ w.env.utc_now w.calls + 60
    → w.env.utc_now w.calls ≤ r.env.utc_now r.calls + 60
    → r.env.fault r.calls ≡ fine
    → r.env.fault (suc r.calls) ≡ fine
    → exists_where (is_nonce client.this_node_id nonce) r.db.used_node_nonces ≡ false
    → (authenticate_node state parts r).0 ≡ ok n
signed_request_accepted client state parts method path ts nonce sig w r sk pk n k made m p h1 h2 h3
      h4 bw br l1 l2 f1 f2 fresh =
    let made' =
      sym made
      ∙ ap (λ (x : Result ClientError (String × String × String) × World). x.0)
          (sign_run client method path w sk k.private_key) in
    let (e1, e2, e3) = ok_triple made' in
    signed_passes client method path w r k parts m p state h1 (h2 ∙ ap (λ s. some (text s)) e1)
      (h3 ∙ ap (λ s. some (text s)) e2) (h4 ∙ ap (λ s. some (text s)) e3) bw br l1 l2 f1 f2
      (rw (← e2) fresh)
