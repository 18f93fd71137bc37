-- ===== src/Controllers/Federation/Refused.antt =====
-- receive_messages of src/controllers/federation_controller.rs, for a recipient of another node.
use hush_net_backend.Prelude.{suc, String, ◌≡◌, refl, ap, ◌∙◌, Option, none, find_where}
use mathlib.Core.Option
use hush_net_backend.Models.{Uuid, UserRow, FederationNode, S2sMessagePayload}
use hush_net_backend.Store.{World, ok, err, fine, query, ok_or, ◌>>=◌}
use hush_net_backend.Store.Inversion.{query_fine}
use hush_net_backend.Store.Forward.{bind_step, bind_stop, map_err_step}
use hush_net_backend.Web.{Response, respond, error}
use hush_net_backend.Repository.Shadow.{is_local_user, get_local_user_id_by_username}
use hush_net_backend.Controllers.Peers.{internal}
use hush_net_backend.Controllers.Federation.{local_user_or, receive_messages}

ok_or-none : (e : Response) (w : World) → ok_or {A = Uuid} none e w ≡ (err e, w)
unfolding ◌>>=◌
ok_or-none e w = refl

local_user_missing :
    (missing : Response) (name : String) (w : World)
    → w.env.fault w.calls ≡ fine
    → find_where (is_local_user name) w.db.users ≡ none
    → local_user_or missing name w ≡ (err missing, record w { calls = suc w.calls })
unfolding local_user_or get_local_user_id_by_username
local_user_missing missing name w f h =
    bind_step _ (λ found. ok_or found missing)
      (map_err_step (query _) internal (
        query_fine _ w f
        ∙ ap
            (λ (o : Option UserRow).
              (ok (Option.map (λ (u : UserRow). u.id) o), record w { calls = suc w.calls }))
            h))
    ∙ ok_or-none missing (record w { calls = suc w.calls })

-- A delivery for a name that no user of this node has, shadow users aside, is answered with 404 and
-- writes nothing, no shadow records of its sender either, if the database answers.
pub receive_messages_refuses :
    (peer : FederationNode) (payload : S2sMessagePayload) (w : World)
    → w.env.fault w.calls ≡ fine
    → find_where (is_local_user payload.to_user) w.db.users ≡ none
    → receive_messages peer payload w ≡ (
      err (respond 404 (error "recipient not found or not local to this node")),
      record w { calls = suc w.calls },
    )
unfolding receive_messages
receive_messages_refuses peer payload w f h =
    bind_stop
      (local_user_or (respond 404 (error "recipient not found or not local to this node"))
        payload.to_user)
      _ (local_user_missing _ payload.to_user w f h)
