-- ===== src/Controllers/Federation/Errors.antt =====
-- The errors of receive_messages in src/controllers/federation_controller.rs: each is a response with
-- an error status.
use hush_net_backend.Prelude.{Bool, ◌||◌, List, [], ◌∷◌, String}
use hush_net_backend.Models.{FederationNode, S2sMessagePayload, S2sDevicePayload}
use hush_net_backend.Store.Fails.{Fails, Fails-bind, fails_rules}
use hush_net_backend.Web.{Response}
use hush_net_backend.Repository.Messages.{NewMessage}
use hush_net_backend.Federation.Client.Refusals.{Refusal, refusals}
use hush_net_backend.Controllers.Federation.{local_user_or, store_messages, receive_messages}

local_user_or-Refusal :
    (missing : Response) (name : String)
    → Refusal missing
    → Fails Refusal (local_user_or missing name)
unfolding local_user_or
local_user_or-Refusal missing name h = search (fails_rules, refusals, h)

store_messages-Refusal :
    (message : S2sDevicePayload → NewMessage) (new : Bool) (devs : List S2sDevicePayload)
    → Fails Refusal (store_messages message new devs)
unfolding store_messages
store_messages-Refusal message new [] = search fails_rules
store_messages-Refusal message new (dev ∷ devs) =
    Fails-bind _ _ (search (fails_rules, refusals))
      (λ inserted. store_messages-Refusal message (new || inserted) devs)

-- A delivery that fails is answered with an error status.
pub receive_messages-Refusal :
    (peer : FederationNode) (payload : S2sMessagePayload)
    → Fails Refusal (receive_messages peer payload)
unfolding receive_messages
receive_messages-Refusal peer payload =
    search (fails_rules, refusals, local_user_or-Refusal, store_messages-Refusal) depth 20
