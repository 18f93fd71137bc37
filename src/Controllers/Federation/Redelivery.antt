-- ===== src/Controllers/Federation/Redelivery.antt =====
-- receive_messages of src/controllers/federation_controller.rs, when a peer delivers again.
use hush_net_backend.Prelude.{
  String, Bool, true, false, ◌&&◌, ◌||◌, ◌≡◌, refl, sym, ap, ◌∙◌, subst, List, [], ◌∷◌, &&-eq-true,
  arith,
}
use hush_net_backend.Models.{Uuid, Message, FederationNode, S2sMessagePayload, S2sDevicePayload}
use hush_net_backend.Store.{Db, World, ok, map_err}
use hush_net_backend.Store.Keeps.{Keeps, Keeps-at, Keeps-bind, keeps_rules}
use hush_net_backend.Store.Inversion.{bind_elim, map_err-eq-ok, pure-eq-ok}
use hush_net_backend.Web.{Response}
use hush_net_backend.Repository.Messages.Contents.{all_stored}
use hush_net_backend.Repository.Messages.Copies.{
  UniqueCopies, DistinctCopies, insert_federated_message-UniqueCopies,
}
use hush_net_backend.Repository.Messages.Redelivered.{
  HasCopy, insert_federated_message-HasCopy, insert_federated_message_stores,
  insert_federated_message_seen,
}
use hush_net_backend.Repository.Messages.Untouched.{
  upsert_shadow_user-Keeps, upsert_shadow_device-Keeps, get_local_user_id-Keeps, direct_chat-Keeps,
}
use hush_net_backend.Repository.Shadow.{
  upsert_shadow_user, upsert_shadow_device, get_or_create_direct_chat,
}
use hush_net_backend.Controllers.Peers.{internal}
use hush_net_backend.Controllers.Federation.{
  local_user_or, incoming, store_messages, ack_of, receive_messages,
}

pub local_user_or-Keeps :
    (Q : List Message → Type 0) (missing : Response) (name : String)
    → Keeps (λ db. Q db.messages) (local_user_or missing name)
unfolding local_user_or
local_user_or-Keeps Q missing name = search (keeps_rules, get_local_user_id-Keeps Q)

module _ (payload : S2sMessagePayload) (chat_id sender recipient : Uuid) where
  store_messages-UniqueCopies :
      (new : Bool) (devs : List S2sDevicePayload)
      → Keeps UniqueCopies (store_messages (incoming payload chat_id sender recipient) new devs)
  unfolding store_messages
  store_messages-UniqueCopies new [] = search keeps_rules
  store_messages-UniqueCopies new (dev ∷ devs) =
      Keeps-bind _ _ (search (keeps_rules, insert_federated_message-UniqueCopies))
        (λ inserted. store_messages-UniqueCopies (new || inserted) devs)

  store_messages-HasCopy :
      (l : String) (d : Uuid) (new : Bool) (devs : List S2sDevicePayload)
      → Keeps (HasCopy l d) (store_messages (incoming payload chat_id sender recipient) new devs)
  unfolding store_messages
  store_messages-HasCopy l d new [] = search keeps_rules
  store_messages-HasCopy l d new (dev ∷ devs) =
      Keeps-bind _ _ (search (keeps_rules, insert_federated_message-HasCopy l d))
        (λ inserted. store_messages-HasCopy l d (new || inserted) devs)

both_true : {a b : Bool} → a ≡ true → b ≡ true → (a && b) ≡ true
both_true h k = rw (h, k) refl

module _ (payload : S2sMessagePayload) (chat_id sender recipient : Uuid) where
  store_messages_stores :
      (new : Bool) (devs : List S2sDevicePayload) (w v : World) (out : Bool)
      → store_messages (incoming payload chat_id sender recipient) new devs w ≡ (ok out, v)
      → all_stored payload.logical_msg_id devs v.db.messages ≡ true
  unfolding store_messages
  store_messages_stores new [] w v out e = refl
  store_messages_stores new (dev ∷ devs) w v out e = bind_elim _ _ e (λ inserted u first rest.
      both_true
        (Keeps-at
          (store_messages-HasCopy payload chat_id sender recipient payload.logical_msg_id
            dev.to_device_id (new || inserted) devs)
          rest
          (insert_federated_message_stores (incoming payload chat_id sender recipient dev) w u
            inserted (map_err-eq-ok internal _ first)))
        (store_messages_stores (new || inserted) devs u v out rest))

  store_messages_seen :
      (new : Bool) (devs : List S2sDevicePayload) (w v : World) (out : Bool)
      → all_stored payload.logical_msg_id devs w.db.messages ≡ true
      → store_messages (incoming payload chat_id sender recipient) new devs w ≡ (ok out, v)
      → (out ≡ new) × (v.db.messages ≡ w.db.messages)
  unfolding store_messages
  store_messages_seen new [] w v out h e =
      let (same, next) = pure-eq-ok new e in
      (sym same, ap (λ (x : World). x.db.messages) (sym next))
  store_messages_seen new (dev ∷ devs) w v out h e = bind_elim _ _ e (λ inserted u first rest.
      let (here, others) = &&-eq-true _ _ h in
      let (old, same) =
        insert_federated_message_seen (incoming payload chat_id sender recipient dev) w u inserted
          here (map_err-eq-ok internal _ first) in
      let (out', last) =
        store_messages_seen (new || inserted) devs u v out
          (subst (λ (d : Db). all_stored payload.logical_msg_id devs d.messages ≡ true) (sym same)
            others)
          rest in
      (out' ∙ ap (λ b. new || b) old ∙ ground arith, last ∙ ap (λ (d : Db). d.messages) same))

-- What a delivery that was answered with `r` has done last.
record Delivered (payload : S2sMessagePayload) (w v : World) (r : Response) : Type 0 where
  chat_id : Uuid
  sender : Uuid
  recipient : Uuid
  before : World
  new : Bool
  same_messages : before.db.messages ≡ w.db.messages
  loop :
      store_messages (incoming payload chat_id sender recipient) false payload.payloads before
      ≡ (ok new, v)
  answer : ack_of payload new ≡ r

receive_messages-Delivered :
    (peer : FederationNode) (payload : S2sMessagePayload) (w v : World) (r : Response)
    → receive_messages peer payload w ≡ (ok r, v)
    → Delivered payload w v r
unfolding receive_messages
receive_messages-Delivered peer payload w v r e =
    let Q : List Message → Type 0 = λ ms. ms ≡ w.db.messages in
    bind_elim (local_user_or _ payload.to_user) _ e (λ recipient w1 run1 e1.
      bind_elim (map_err internal (upsert_shadow_user _ _ peer.id)) _ e1 (λ sender w2 run2 e2.
        bind_elim (map_err internal (upsert_shadow_device _ sender _)) _ e2 (λ done w3 run3 e3.
          bind_elim (map_err internal (get_or_create_direct_chat sender recipient)) _ e3
            (λ chat_id w4 run4 e4.
              bind_elim
                (store_messages (incoming payload chat_id sender recipient) false payload.payloads)
                _ e4
                (λ new w5 run5 e5.
                  let (said, next) = pure-eq-ok (ack_of payload new) e5 in
                  let q1 : Q w1.db.messages =
                    Keeps-at (local_user_or-Keeps Q _ payload.to_user) run1 refl in
                  let q2 : Q w2.db.messages =
                    Keeps-at (upsert_shadow_user-Keeps Q _ _ peer.id)
                      (map_err-eq-ok internal _ run2) q1 in
                  let q3 : Q w3.db.messages =
                    Keeps-at (upsert_shadow_device-Keeps Q _ sender _)
                      (map_err-eq-ok internal _ run3) q2 in
                  let q4 : Q w4.db.messages =
                    Keeps-at (direct_chat-Keeps Q sender recipient) (map_err-eq-ok internal _ run4)
                      q3 in
                  record {
                    chat_id = chat_id;
                    sender = sender;
                    recipient = recipient;
                    before = w4;
                    new = new;
                    same_messages = q4;
                    loop =
                        subst
                          (λ x.
                            store_messages (incoming payload chat_id sender recipient) false
                              payload.payloads w4
                            ≡ (ok new, x))
                          next run5;
                    answer = said;
                  })))))

-- Every device that a delivery names has its copy once the delivery was answered.
pub receive_messages_stores :
    (peer : FederationNode) (payload : S2sMessagePayload) (w v : World) (r : Response)
    → receive_messages peer payload w ≡ (ok r, v)
    → all_stored payload.logical_msg_id payload.payloads v.db.messages ≡ true
receive_messages_stores peer payload w v r e =
    let d = receive_messages-Delivered peer payload w v r e in
    store_messages_stores payload d.chat_id d.sender d.recipient false payload.payloads d.before v
      d.new d.loop

-- The answer of a delivery names the message, and says whether any device had no copy yet.
pub receive_messages_answers :
    (peer : FederationNode) (payload : S2sMessagePayload) (w v : World) (r : Response)
    → receive_messages peer payload w ≡ (ok r, v)
    → (new : Bool) × (r ≡ ack_of payload new)
receive_messages_answers peer payload w v r e =
    let d = receive_messages-Delivered peer payload w v r e in (d.new, sym d.answer)

-- Redelivery is idempotent: when a delivery was answered without an error, the messages are as it
-- left them, and the same delivery, from whatever peer, is again answered without an error, then that
-- answer says "duplicate" and the messages are as they were.
pub redelivery_duplicate :
    (peer peer' : FederationNode) (payload : S2sMessagePayload) (w v w' v' : World)
    (r r' : Response)
    → receive_messages peer payload w ≡ (ok r, v)
    → w'.db.messages ≡ v.db.messages
    → receive_messages peer' payload w' ≡ (ok r', v')
    → (r' ≡ ack_of payload false) × (v'.db.messages ≡ v.db.messages)
redelivery_duplicate peer peer' payload w v w' v' r r' first same second =
    let stored = receive_messages_stores peer payload w v r first in
    let d = receive_messages-Delivered peer' payload w' v' r' second in
    let before : d.before.db.messages ≡ v.db.messages = d.same_messages ∙ same in
    let (new, kept) =
      store_messages_seen payload d.chat_id d.sender d.recipient false payload.payloads d.before v'
        d.new
        (subst (λ ms. all_stored payload.logical_msg_id payload.payloads ms ≡ true) (sym before)
          stored)
        d.loop in
    (sym d.answer ∙ ap (ack_of payload) new, kept ∙ before)

-- A delivery never gives a device a second copy of a message, whether it is answered or fails
-- half-way, and whatever becomes of the database connection.
pub receive_messages-UniqueCopies :
    (peer : FederationNode) (payload : S2sMessagePayload)
    → Keeps UniqueCopies (receive_messages peer payload)
unfolding receive_messages
receive_messages-UniqueCopies peer payload =
    search
      (
        keeps_rules,
        local_user_or-Keeps DistinctCopies,
        upsert_shadow_user-Keeps DistinctCopies,
        upsert_shadow_device-Keeps DistinctCopies,
        direct_chat-Keeps DistinctCopies,
        store_messages-UniqueCopies,
      )
      depth 20
