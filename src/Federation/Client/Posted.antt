-- ===== src/Federation/Client/Posted.antt =====
-- forward_messages of src/federation/client.rs, when it returns: the request that it sent, and the
-- reply that it got.
use hush_net_backend.Prelude.{
  ℕ, suc, String, false, ◌≡◌, sym, ap, ◌∙◌, Option, none, some, [], ◌∷◌, ◌++◌, arith,
}
use hush_net_backend.Models.{Value, S2sMessagePayload, S2sAck}
use hush_net_backend.Store.{
  World, HttpRequest, HttpReply, unreachable, response, messages, Result, ok, pure, send, lift,
  ◌>>=◌,
}
use hush_net_backend.Store.Inversion.{
  bind_elim, gets_step, pure-eq-ok, if_throw-eq-ok, ok_or-eq-ok, ok-injective,
}
use hush_net_backend.Store.Forward.{bind_step, gets_run, ok_or_run, if_run, pure_run}
use hush_net_backend.Web.{ClientError}
use hush_net_backend.Utils.Keys.{signing_key}
use hush_net_backend.Federation.Client.{
  FederationClient, auth_headers, sent_or, body_or, decoded, is_error_status, sign, signed_post,
  forward_messages,
}
use Prim.Native.String

-- the request that forward_messages sends
abbrev pub posted_request :
    FederationClient → String → S2sMessagePayload → String × String × String → HttpRequest
posted_request client api_url payload auth = record {
  method = "POST";
  url = String.◌++◌ api_url "/s2s/messages";
  headers = ("Content-Type", "application/json") ∷ auth_headers client auth;
  body = messages payload;
}

-- That request was sent, and `error_for_status` lets the reply to it pass.
pub record Posted (client : FederationClient) (api_url : String) (payload : S2sMessagePayload)
    (w v : World) : Type 0 where
  pub auth : String × String × String
  pub last_sent : v.sent ≡ w.sent ++ posted_request client api_url payload auth ∷ []
  pub same_db : v.db ≡ w.db
  pub status : ℕ
  pub json : Option Value
  pub reply : w.env.http w.calls (posted_request client api_url payload auth) ≡ response status json
  pub passes : is_error_status status ≡ false

lift-same : {E A : Type 0} (r : Result E A) {w v : World} {a : A} → lift r w ≡ (ok a, v) → w ≡ v
unfolding ◌>>=◌
lift-same r h = ap (λ x. x.1) h

sign-same :
    (client : FederationClient) (method path : String) (w v : World) (a : String × String × String)
    → sign client method path w ≡ (ok a, v)
    → w ≡ v
unfolding sign
sign-same client method path w v a e =
    bind_elim (lift (signing_key w.env client.node_keys)) _
      (gets_step _ _ (gets_step _ _ (gets_step _ _ e)))
      (λ key u first rest. lift-same _ first ∙ (pure-eq-ok _ rest).1)

sign_run_of :
    (client : FederationClient) (method path : String) (w : World) (a : String × String × String)
    → (sign client method path w).0 ≡ ok a
    → sign client method path w ≡ (ok a, w)
sign_run_of client method path w a h =
    let v = (sign client method path w).1 in
    let e : sign client method path w ≡ (ok a, v) = ap (λ r. (r, v)) h in
    e ∙ ap (λ x. (ok a, x)) (sym (sign-same client method path w v a e))

abbrev pub asked : HttpRequest → World → World
asked req w = record w { calls = suc w.calls; sent = w.sent ++ req ∷ [] }

send-eq-ok :
    (req : HttpRequest) (w : World) {v : World} {r : HttpReply}
    → send {E = ClientError} req w ≡ (ok r, v)
    → (w.env.http w.calls req ≡ r) × (asked req w ≡ v)
unfolding send
send-eq-ok req w h = (ok-injective (ap (λ x. x.0) h), ap (λ x. x.1) h)

send_run :
    (req : HttpRequest) (w : World) {r : HttpReply}
    → w.env.http w.calls req ≡ r
    → send {E = ClientError} req w ≡ (ok r, asked req w)
unfolding send
send_run req w h = ap (λ r. (ok r, asked req w)) h

sent_or-eq-ok :
    (failure : String) (r : HttpReply) {w v : World} {a : HttpReply}
    → sent_or failure r w ≡ (ok a, v)
    → (r ≡ a) × (w ≡ v)
unfolding ◌>>=◌
sent_or-eq-ok failure unreachable h = ground arith
sent_or-eq-ok failure (response status json) h = pure-eq-ok _ h

-- The reply is a response that is not an error, with that body.
abbrev Passes : HttpReply → Option Value → Type 0
Passes r json = (status : ℕ) × (r ≡ response status json) × (is_error_status status ≡ false)

body_or-eq-ok :
    (failure : String) (r : HttpReply) (w : World) {v : World} {a : Option Value}
    → body_or failure r w ≡ (ok a, v)
    → Passes r a × (w ≡ v)
unfolding ◌>>=◌
body_or-eq-ok failure unreachable w h = ground arith
body_or-eq-ok failure (response status json) w h =
    let (good, rest) = if_throw-eq-ok (is_error_status status) _ (pure json) w h in
    let (same, next) = pure-eq-ok json rest in ((status, ap (response status) same, good), next)

decoded-same :
    {A : Type 0} (decode : Value → Option A) (json : Option Value) (failure : String) (w : World)
    {v : World} {a : A}
    → decoded decode json failure w ≡ (ok a, v)
    → w ≡ v
unfolding ◌>>=◌
decoded-same decode none failure w h = ground arith
decoded-same decode (some x) failure w h = (ok_or-eq-ok (decode x) _ w h).1

-- Where a call returns, it has sent that request and got a response that is no error, and the tables
-- are as they were.
pub forward_messages-Posted :
    (client : FederationClient) (api_url : String) (payload : S2sMessagePayload) (w v : World)
    (a : S2sAck)
    → forward_messages client api_url payload w ≡ (ok a, v)
    → Posted client api_url payload w v
unfolding forward_messages signed_post
forward_messages-Posted client api_url payload w v a e =
    bind_elim (signed_post client api_url "/s2s/messages" (messages payload)) _ e
      (λ r w3 posted rest.
        bind_elim (body_or "peer rejected message forward" r) _ rest (λ json w4 read e4.
          bind_elim (sign client "POST" "/s2s/messages") _ posted (λ auth w1 signed e1.
            bind_elim (send (posted_request client api_url payload auth)) _ e1 (λ raw w2 sent e2.
              let req = posted_request client api_url payload auth in
              let same1 = sign-same client "POST" "/s2s/messages" w w1 auth signed in
              let (got, next) = send-eq-ok req w1 sent in
              let (same_raw, same3) = sent_or-eq-ok "S2S POST request failed" raw e2 in
              let ((status, is, good), same4) =
                body_or-eq-ok "peer rejected message forward" r w3 read in
              let same5 =
                decoded-same w4.env.ack_of_value json "invalid ack in peer response" w4
                  (gets_step _ _ e4) in
              let at : (x : World) → x ≡ w1 → asked req x ≡ v =
                λ x h. ap (asked req) h ∙ next ∙ same3 ∙ same4 ∙ same5 in
              record {
                auth = auth;
                last_sent = sym (ap (λ (x : World). x.sent) (at w same1));
                same_db = sym (ap (λ (x : World). x.db) (at w same1));
                status = status;
                json = json;
                reply = ap (λ (x : World). x.env.http x.calls req) same1 ∙ got ∙ same_raw ∙ is;
                passes = good;
              }))))

-- Where the request is signed and the reply to it is a response that is no error, with an
-- acknowledgement, the call returns that.
pub forward_messages_run :
    (client : FederationClient) (api_url : String) (payload : S2sMessagePayload) (w : World)
    (auth : String × String × String) (status : ℕ) (j : Value) (a : S2sAck)
    → (sign client "POST" "/s2s/messages" w).0 ≡ ok auth
    → w.env.http w.calls (posted_request client api_url payload auth) ≡ response status (some j)
    → is_error_status status ≡ false
    → w.env.ack_of_value j ≡ some a
    → forward_messages client api_url payload w
      ≡ (ok a, asked (posted_request client api_url payload auth) w)
unfolding forward_messages signed_post
forward_messages_run client api_url payload w auth status j a signed replied good decodes =
    let req = posted_request client api_url payload auth in
    bind_step _ _ (
      bind_step _ _ (sign_run_of client "POST" "/s2s/messages" w auth signed)
      ∙ bind_step _ _ (send_run req w replied)
      ∙ pure_run _ _)
    ∙ bind_step _ _ (if_run _ (some j) (asked req w) good)
    ∙ gets_run _ _ (asked req w)
    ∙ ok_or_run _ (asked req w) decodes
