-- ===== src/Federation/Client/Failures.antt =====
-- src/federation/client.rs, when no peer takes a request.
use hush_net_backend.Prelude.{ℕ, String, Option, none, some, true, false, ◌≡◌, subst, arith}
use hush_net_backend.Models.{Value, S2sMessagePayload, S2sAck}
use hush_net_backend.Store.{Env, World, HttpRequest, HttpReply, unreachable, response, Body, ok}
use hush_net_backend.Store.Runs.{Runs, runs_rules}
use hush_net_backend.Federation.Client.Posted.{posted_request, forward_messages-Posted}
use hush_net_backend.Federation.Client.{
  FederationClient, is_error_status, sent_or, body_or, decoded, sign, signed_post, forward_messages,
}

-- The request got no answer, or one with an error status.
abbrev Refused : HttpReply → Type 0
Refused unreachable = Unit {0}
Refused (response status json) = is_error_status status ≡ true

-- No peer takes a request.
abbrev pub Unreceptive : Env → Type 0
Unreceptive env = (i : ℕ) (req : HttpRequest) → Refused (env.http i req)

sent_or-Runs : (failure : String) (r : HttpReply) → Runs (sent_or failure r)
sent_or-Runs failure unreachable = search runs_rules
sent_or-Runs failure (response status json) = search runs_rules

body_or-Runs : (failure : String) (r : HttpReply) → Runs (body_or failure r)
body_or-Runs failure unreachable = search runs_rules
body_or-Runs failure (response status json) = search runs_rules

decoded-Runs :
    {A : Type 0} (decode : Value → Option A) (json : Option Value) (failure : String)
    → Runs (decoded decode json failure)
decoded-Runs decode none failure = search runs_rules
decoded-Runs decode (some v) failure = search runs_rules

pub sign-Runs : (client : FederationClient) (method path : String) → Runs (sign client method path)
unfolding sign
sign-Runs client method path = search runs_rules depth 16

signed_post-Runs :
    (client : FederationClient) (url path : String) (body : Body)
    → Runs (signed_post client url path body)
unfolding signed_post
signed_post-Runs client url path body = search (runs_rules, sign-Runs, sent_or-Runs) depth 12

pub forward_messages-Runs :
    (client : FederationClient) (url : String) (payload : S2sMessagePayload)
    → Runs (forward_messages client url payload)
unfolding forward_messages
forward_messages-Runs client url payload =
    search (runs_rules, signed_post-Runs, body_or-Runs, decoded-Runs) depth 16

pub forward_messages-fails :
    (client : FederationClient) (url : String) (payload : S2sMessagePayload) (w v : World)
    (a : S2sAck)
    → Unreceptive w.env
    → ¬ (forward_messages client url payload w ≡ (ok a, v))
forward_messages-fails client url payload w v a no_peer e =
    let p = forward_messages-Posted client url payload w v a e in
    contradicts p.status p.passes
      (subst Refused p.reply (no_peer w.calls (posted_request client url payload p.auth)))
  where
    contradicts : (n : ℕ) → is_error_status n ≡ false → is_error_status n ≡ true → ⊥
    contradicts n passes refused = ground (arith, passes, refused)
