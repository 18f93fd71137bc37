-- ===== src/Routes/Delivered.antt =====
-- A delivery from one node to another, end to end: forward_messages of src/federation/client.rs on
-- one side, the handler of POST /s2s/messages in src/routes/federation.rs on the other.
use hush_net_backend.Prelude.{
  ℕ, String, false, AllOf, subst, ◌≡◌, refl, sym, ap, ◌∙◌, Option, List, [], ◌∷◌, ◌++◌, arith,
}
use hush_net_backend.Models.{Value, Message, S2sMessagePayload, S2sAck}
use hush_net_backend.Store.{
  Db, World, HttpRequest, response, Result, ok, err, Exec, joined, answer, lift, ◌>>=◌,
}
use hush_net_backend.Store.Fails.{Fails, Fails-at, fails_rules}
use hush_net_backend.Store.Inversion.{bind_elim}
use hush_net_backend.Web.{AppState, Response}
use hush_net_backend.Federation.Client.{FederationClient, is_error_status, forward_messages}
use hush_net_backend.Federation.Client.Posted.{posted_request, forward_messages-Posted}
use hush_net_backend.Federation.Client.Refusals.{Refusal}
use hush_net_backend.Auth.Node.{authenticate_node}
use hush_net_backend.Auth.Node.Refused.{authenticate_node-Refusal}
use hush_net_backend.Controllers.Federation.{receive_messages}
use hush_net_backend.Controllers.Federation.Errors.{receive_messages-Refusal}
use hush_net_backend.Controllers.Federation.Contents.{receive_messages-Has}
use hush_net_backend.Repository.Messages.Contents.{Has}
use hush_net_backend.Auth.Node.Untouched.{authenticate_node-SameRest}
use hush_net_backend.Store.Keeps.{Keeps-at}
use hush_net_backend.Routes.{to_receive_messages, Axum, serve, reply_of}

-- An answer that is no error is a result.
answer-ok :
    (m : Exec Response Response) (w : World)
    → Fails Refusal m
    → is_error_status (answer m w).0.code ≡ false
    → m w ≡ (ok (answer m w).0, (answer m w).1)
answer-ok m w f h = go (m w) refl h
  where
    go :
        (x : Result Response Response × World)
        → m w ≡ x
        → is_error_status (joined x.0).code ≡ false
        → x ≡ (ok (joined x.0), x.1)
    go (ok r, v) e k = refl
    go (err r, v) e k = ground (arith, Fails-at f e)

-- The handler of the route, once the body is read.
abbrev pub inbox : Axum → AppState → HttpRequest → S2sMessagePayload → Exec Response Response
inbox axum state req payload = do
  peer ← authenticate_node state (axum.parts req)
  receive_messages peer payload

-- serde reads the body back of the requests that carry `payload` to the URL.
abbrev pub ReadsBack : Axum → FederationClient → String → S2sMessagePayload → Type 0
ReadsBack axum client api_url payload =
    (auth : String × String × String)
    → axum.json_messages (posted_request client api_url payload auth) ≡ ok payload

module _ (axum : Axum) (state : AppState) (payload : S2sMessagePayload) where
  inbox-Refusal : (req : HttpRequest) → Fails Refusal (inbox axum state req payload)
  inbox-Refusal req = search (fails_rules, authenticate_node-Refusal, receive_messages-Refusal)

  inbox_stores :
      (req : HttpRequest) (w v : World) (r : Response)
      → inbox axum state req payload w ≡ (ok r, v)
      → AllOf (Has payload w.db.messages v.db.messages) payload.payloads
  inbox_stores req w v r e =
      bind_elim (authenticate_node state (axum.parts req)) _ e (λ peer u accepted rest.
        subst (λ old. AllOf (Has payload old v.db.messages) payload.payloads)
          (ap (λ (d : Db). d.messages)
            (Keeps-at (authenticate_node-SameRest w.db state (axum.parts req)) accepted refl))
          (receive_messages-Has peer payload u v r rest))

  -- where the body is read back, the handler is the inbox
  pub serve-inbox :
      (req : HttpRequest) (w : World)
      → axum.json_messages req ≡ ok payload
      → serve axum state req to_receive_messages w ≡ answer (inbox axum state req payload) w
  unfolding ◌>>=◌
  serve-inbox req w read =
      ap
        (λ (r : Result Response S2sMessagePayload).
          answer
            (authenticate_node state (axum.parts req) >>= λ peer. lift r >>= receive_messages peer)
            w)
        read

code_of : {a b : ℕ} {j k : Option Value} → response a j ≡ response b k → a ≡ b
code_of h = ground arith

-- The delivery's requests are answered by the handler receive_messages of a node with the state
-- `state` in the world `there`, behind its authentication and its `Json` extractor.
abbrev pub ServedBy : Axum → AppState → World → World → Type 0
ServedBy axum state there w =
    (req : HttpRequest)
    → w.env.http w.calls req ≡ reply_of axum (serve axum state req to_receive_messages there).0

-- the messages of the peer once its handler has served the request
abbrev pub messages_after : Axum → AppState → World → HttpRequest → List Message
messages_after axum state there req = (serve axum state req to_receive_messages there).1.db.messages

-- When a node takes a delivery for accepted, the peer that answered it has the message for every
-- device that it names: a row with the sender's device, the header and the ciphertext of the
-- delivery, or one that was there before under the same message id. The peer answers with this
-- program's handler, whatever database faults, proxy and registry it has, and reads the body back.
pub forwarded_is_stored :
    (client : FederationClient) (api_url : String) (payload : S2sMessagePayload) (w v : World)
    (a : S2sAck) (axum : Axum) (state : AppState) (there : World)
    → ReadsBack axum client api_url payload
    → ServedBy axum state there w
    → forward_messages client api_url payload w ≡ (ok a, v)
    → (req : HttpRequest) × (v.sent ≡ w.sent ++ req ∷ [])
      × AllOf (Has payload there.db.messages (messages_after axum state there req)) payload.payloads
forwarded_is_stored client api_url payload w v a axum state there back served e =
    let p = forward_messages-Posted client api_url payload w v a e in
    let req = posted_request client api_url payload p.auth in
    let same = serve-inbox axum state payload req there (back p.auth) in
    let code : (serve axum state req to_receive_messages there).0.code ≡ p.status =
      code_of (sym (served req) ∙ p.reply) in
    (
      req,
      p.last_sent,
      subst
          (λ (x : Response × World).
            AllOf (Has payload there.db.messages x.1.db.messages) payload.payloads)
          (sym same)
          (inbox_stores axum state payload req there _ _ (
            answer-ok (inbox axum state req payload) there (inbox-Refusal axum state payload req) (
              ap (λ (x : Response × World). is_error_status x.0.code) (sym same)
              ∙ ap is_error_status code
              ∙ p.passes))),
    )
