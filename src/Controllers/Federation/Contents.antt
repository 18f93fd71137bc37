-- ===== src/Controllers/Federation/Contents.antt =====
-- receive_messages of src/controllers/federation_controller.rs: what the rows hold that it adds.
use hush_net_backend.Prelude.{Bool, false, ◌||◌, ◌≡◌, refl, inl, inr, List, [], ◌∷◌, AllOf, AnyOf}
use hush_net_backend.Models.{Uuid, Message, FederationNode, S2sMessagePayload, S2sDevicePayload}
use hush_net_backend.Store.{World, ok}
use hush_net_backend.Store.Keeps.{Keeps, Keeps-at, Keeps-bind, Keeps-map_err, keeps_rules}
use hush_net_backend.Web.{Response}
use hush_net_backend.Repository.Messages.Contents.{
  Added, Added-none, Has, insert_federated_message-Added, all-Has,
}
use hush_net_backend.Repository.Messages.Untouched.{
  upsert_shadow_user-Keeps, upsert_shadow_device-Keeps, direct_chat-Keeps,
}
use hush_net_backend.Controllers.Federation.{incoming, store_messages, receive_messages}
use hush_net_backend.Controllers.Federation.Redelivery.{
  local_user_or-Keeps, receive_messages_stores,
}

-- Every device of `devs` is one of the delivery's.
abbrev Among : S2sMessagePayload → List S2sDevicePayload → Type 1
Among payload devs = (P : S2sDevicePayload → Type 0) → AnyOf P devs → AnyOf P payload.payloads

module _ (payload : S2sMessagePayload) (old : List Message) where
  store_messages-Added :
      (chat_id sender recipient : Uuid) (new : Bool) (devs : List S2sDevicePayload)
      → Among payload devs
      → Keeps
          (λ db. Added payload old db.messages)
          (store_messages (incoming payload chat_id sender recipient) new devs)
  unfolding store_messages
  store_messages-Added chat_id sender recipient new [] among = search keeps_rules
  store_messages-Added chat_id sender recipient new (dev ∷ devs) among =
      Keeps-bind _ _
        (Keeps-map_err _ _ (
          insert_federated_message-Added payload old (incoming payload chat_id sender recipient dev)
            (λ c. among _ (
              inl (record {
                same_id = refl;
                same_sender = refl;
                same_device = refl;
                same_header = refl;
                same_ciphertext = refl;
              })))))
        (λ inserted.
          store_messages-Added chat_id sender recipient (new || inserted) devs
            (λ P h. among P (inr h)))

  store_all-Added :
      (chat_id sender recipient : Uuid)
      → Keeps
          (λ db. Added payload old db.messages)
          (store_messages (incoming payload chat_id sender recipient) false payload.payloads)
  store_all-Added chat_id sender recipient =
      store_messages-Added chat_id sender recipient false payload.payloads (λ P h. h)

-- Whether it is answered or fails half-way, a delivery only adds rows, and each holds what the
-- delivery says for one of its devices.
receive_messages-Added :
    (peer : FederationNode) (payload : S2sMessagePayload) (old : List Message)
    → Keeps (λ db. Added payload old db.messages) (receive_messages peer payload)
unfolding receive_messages
receive_messages-Added peer payload old =
    search
      (
        keeps_rules,
        local_user_or-Keeps (Added payload old),
        upsert_shadow_user-Keeps (Added payload old),
        upsert_shadow_device-Keeps (Added payload old),
        direct_chat-Keeps (Added payload old),
        store_all-Added payload old,
      )
      depth 20

-- Once a delivery was answered, each of its devices has its message.
pub receive_messages-Has :
    (peer : FederationNode) (payload : S2sMessagePayload) (w v : World) (r : Response)
    → receive_messages peer payload w ≡ (ok r, v)
    → AllOf (Has payload w.db.messages v.db.messages) payload.payloads
receive_messages-Has peer payload w v r e =
    all-Has payload w.db.messages v.db.messages payload.payloads
      (Keeps-at (receive_messages-Added peer payload w.db.messages) e
        (Added-none payload w.db.messages))
      (receive_messages_stores peer payload w v r e)
