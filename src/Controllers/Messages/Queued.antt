-- ===== src/Controllers/Messages/Queued.antt =====
-- send_message of src/controllers/messages_controller.rs: where a message goes.
use hush_net_backend.Prelude.{
  ℕ, suc, String, false, ◌≡◌, refl, ap, ◌∙◌, Option, some, List, [], ◌∷◌, ◌++◌, ◌==◌, exists_where,
  find_where, if◌then◌else◌, arith,
}
use mathlib.Core.Option
use hush_net_backend.Models.{
  Uuid, Value, UserRow, Devices, OutgoingMessage, OutgoingMessagePayload, FederationNode,
  FederationOutboxEntry,
}
use hush_net_backend.Store.{World, ok, err, fine, Delivery, call_of, query, spawn}
use hush_net_backend.Store.Keeps.{Keeps, Keeps-bind, Keeps-query, keeps_rules}
use hush_net_backend.Store.Inversion.{query_fine}
use hush_net_backend.Store.Forward.{
  bind_step, attempt_step, map_err_step, ok_or_step, gets_run, pure_run,
}
use hush_net_backend.Web.{AppState, Response, respond, status}
use hush_net_backend.Repository.Federation.{
  has_node_id, enqueue_statement, enqueue_outbox, new_entry,
}
use hush_net_backend.Repository.Accounts.{user_of, find_user_by_id}
use hush_net_backend.Repository.Messages.{insert_statement, insert_payloads}
use hush_net_backend.Controllers.Peers.{internal}
use hush_net_backend.Controllers.Peers.Blocked.{blocked, resolve_node_cached}
use hush_net_backend.Controllers.Messages.{
  remote_target, sender_name, no_identity, wire_message, handle_federated_message, deliver_or_queue,
  send_message,
}

sender_name_run :
    (id : Uuid) (e : Response) (w : World) (u : UserRow)
    → w.env.fault w.calls ≡ fine
    → find_where (λ (u : UserRow). u.id == id) w.db.users ≡ some u
    → sender_name id e w ≡ (ok u.username, record w { calls = suc w.calls })
unfolding sender_name find_user_by_id
sender_name_run id e w u f h =
    bind_step _ _ (
      attempt_step (query _) (
        query_fine _ w f
        ∙ ap (λ (o : Option UserRow). (ok (Option.map user_of o), record w { calls = suc w.calls }))
            h))
    ∙ pure_run u.username _

enqueue_run :
    (node l : String) (json : Value) (w : World)
    → w.env.fault w.calls ≡ fine
    → exists_where
        (λ (e : FederationOutboxEntry). e.id == w.env.new_id w.calls)
        w.db.federation_outbox
      ≡ false
    → enqueue_outbox node l json w ≡ (
      ok (w.env.new_id w.calls),
      record w {
        db = record w.db {
          federation_outbox = w.db.federation_outbox ++ new_entry node l json (call_of w) ∷ [];
        };
        calls = suc w.calls;
      },
    )
unfolding enqueue_outbox enqueue_statement
enqueue_run node l json w f h = query_fine (enqueue_statement node l json) w f ∙ rw h refl

spawn_run :
    (d : Delivery) (w : World)
    → spawn {E = Response} d w ≡ (ok tt, record w { spawned = w.spawned ++ d ∷ [] })
unfolding spawn
spawn_run d w = refl

-- The message is for a peer that is cached and not blocked, its sender is known, it serialises, and
-- the database answers.
pub record Forwardable (state : AppState) (device : Devices) (msg : OutgoingMessage)
    (username node_id : String) (sender : UserRow) (node : FederationNode) (json : Value)
    (w : World) : Type 0 where
  pub no_fault : (i : ℕ) → w.env.fault i ≡ fine
  pub remote : remote_target state msg.to_user_address ≡ some (username, node_id)
  pub sender_known : find_where (λ (u : UserRow). u.id == device.user_id) w.db.users ≡ some sender
  pub cached : find_where (has_node_id node_id) w.db.federation_nodes ≡ some node
  pub not_blocked : node.is_blocked ≡ false
  pub serialises :
      w.env.message_to_value (wire_message state device msg sender.username username) ≡ some json
  pub fresh_id :
      exists_where
        (λ (e : FederationOutboxEntry). e.id == w.env.new_id (suc (suc w.calls)))
        w.db.federation_outbox
      ≡ false

-- the world after the message was queued
abbrev pub queued_in :
    AppState
    → Devices
    → OutgoingMessage
    → String
    → String
    → UserRow
    → FederationNode
    → Value
    → World
    → World
queued_in state device msg username node_id sender node json w = record w {
  db = record w.db {
    federation_outbox =
        w.db.federation_outbox
        ++ new_entry node_id msg.logical_msg_id json
            (call_of (record w { calls = suc (suc w.calls) }))
          ∷ [];
  };
  calls = suc (suc (suc w.calls));
  spawned =
      w.spawned
      ++ record {
        outbox_id = w.env.new_id (suc (suc w.calls));
        api_url = node.api_url;
        payload = wire_message state device msg sender.username username;
      }
        ∷ [];
}

-- A message to another node is answered with 202 once one pending row for that node is in the
-- outbox, with the serialised message, and its delivery is handed to a task; nothing is stored
-- among the messages, and no request is sent yet. This holds where the node is cached and not
-- blocked, the sender is known, the message serialises, the drawn id is new and the database answers.
pub send_message_queues :
    (state : AppState) (device : Devices) (msg : OutgoingMessage) (username node_id : String)
    (sender : UserRow) (node : FederationNode) (json : Value) (w : World)
    → Forwardable state device msg username node_id sender node json w
    → send_message state device msg w ≡ (
      ok (respond 202 (status "queued")),
      queued_in state device msg username node_id sender node json w,
    )
unfolding send_message handle_federated_message
send_message_queues state device msg username node_id sender node json w p =
    let w1 : World = record w { calls = suc w.calls } in
    let w2 : World = record w { calls = suc (suc w.calls) } in
    ap (λ o. deliver_or_queue state device msg o w) p.remote
    ∙ bind_step _ _
        (sender_name_run device.user_id no_identity w sender (p.no_fault w.calls) p.sender_known)
    ∙ bind_step _ _ (
        resolve_node_cached state node_id w1 node (p.no_fault (suc w.calls)) p.cached
        ∙ ap (λ b. (if b then err blocked else ok node, w2)) p.not_blocked)
    ∙ gets_run _ _ w2
    ∙ ok_or_step _ _ w2 p.serialises
    ∙ bind_step _ _ (
        map_err_step _ internal (
          enqueue_run node_id msg.logical_msg_id json w2 (p.no_fault (suc (suc w.calls)))
            p.fresh_id))
    ∙ bind_step _ _ (spawn_run _ _)
    ∙ pure_run (respond 202 (status "queued")) _

-- A message that stays on this node leaves the outbox alone.
pub insert_payloads-outbox :
    (o : List FederationOutboxEntry) (d u : Uuid) (msg : OutgoingMessage)
    (ps : List OutgoingMessagePayload)
    → Keeps (λ db. db.federation_outbox ≡ o) (insert_payloads d u msg ps)
unfolding insert_payloads insert_statement
insert_payloads-outbox o d u msg [] = search keeps_rules
insert_payloads-outbox o d u msg (p ∷ ps) =
    Keeps-bind _ _ (Keeps-query _ (λ c db h. ground (arith, h)))
      (λ _. insert_payloads-outbox o d u msg ps)
