-- ===== src/Controllers/Messages/Local.antt =====
-- send_message of src/controllers/messages_controller.rs, for a message that stays on this node.
use hush_net_backend.Prelude.{
  ◌≡◌, refl, sym, ap, subst, ◌∙◌, none, List, [], ◌∷◌, map, map-append, append-nil, append_assoc,
  ◌++◌,
}
use hush_net_backend.Models.{Devices, OutgoingMessage, OutgoingMessagePayload}
use hush_net_backend.Store.{World, ok, call_of, map_err}
use hush_net_backend.Store.Keeps.{Keeps-at}
use hush_net_backend.Store.Inversion.{bind_elim, query_elim, map_err-eq-ok, pure-eq-ok, after}
use hush_net_backend.Web.{AppState, Response, respond, success}
use hush_net_backend.Repository.Messages.{
  stored, NewMessage, insert_statement, outgoing, insert_payloads, insert_message,
}
use hush_net_backend.Repository.Messages.Contents.{letter_of, insert-appends}
use hush_net_backend.Controllers.Messages.{
  remote_target, deliver_or_queue, server_error, send_message,
}
use hush_net_backend.Controllers.Messages.Queued.{insert_payloads-outbox}

-- what a device is to get of a message: its own header and ciphertext, and whom it is from and for
abbrev pub letter_for : Devices → OutgoingMessage → OutgoingMessagePayload → NewMessage
letter_for device msg p = record {
  logical_msg_id = msg.logical_msg_id;
  chat_id = msg.chat_id;
  from_user_id = device.user_id;
  from_device_id = device.id;
  to_user_id = msg.to_user_id;
  to_device_id = p.to_device_id;
  header = p.header;
  ciphertext = p.ciphertext;
}

insert_payloads_letters :
    (device : Devices) (msg : OutgoingMessage) (ps : List OutgoingMessagePayload) (w v : World)
    (a : Unit {0})
    → insert_payloads device.id device.user_id msg ps w ≡ (ok a, v)
    → map letter_of v.db.messages ≡ map letter_of w.db.messages ++ map (letter_for device msg) ps
unfolding insert_payloads
insert_payloads_letters device msg [] w v a e =
    ap (λ (x : World). map letter_of x.db.messages) (sym (pure-eq-ok _ e).1)
    ∙ sym (append-nil (map letter_of w.db.messages))
insert_payloads_letters device msg (p ∷ ps) w v a e =
    let n = outgoing device.id device.user_id msg p in
    query_elim (insert_statement n) _ e (λ done said rest.
      insert_payloads_letters device msg ps (after (insert_statement n) w) v a rest
      ∙ ap (λ l. map letter_of l ++ map (letter_for device msg) ps)
          (insert-appends n (call_of w) w.db said)
      ∙ ap (λ l. l ++ map (letter_for device msg) ps)
          (map-append letter_of w.db.messages (stored n (call_of w) ∷ []))
      ∙ append_assoc (map letter_of w.db.messages) (letter_for device msg p ∷ [])
          (map (letter_for device msg) ps))

-- A message to a user of this node that is answered without an error is stored once for each entry of
-- its body, in their order and behind the messages that were there: with the sender's user and device,
-- the recipient, and the header and ciphertext of the entry. The outbox is left alone.
pub send_message_local :
    (state : AppState) (device : Devices) (msg : OutgoingMessage) (w v : World) (r : Response)
    → remote_target state msg.to_user_address ≡ none
    → send_message state device msg w ≡ (ok r, v)
    → (r ≡ respond 200 success)
      × (map letter_of v.db.messages
          ≡ map letter_of w.db.messages ++ map (letter_for device msg) msg.payloads)
      × (v.db.federation_outbox ≡ w.db.federation_outbox)
unfolding send_message insert_message
send_message_local state device msg w v r local e =
    let e' = ap (λ o. deliver_or_queue state device msg o w) (sym local) ∙ e in
    bind_elim (map_err server_error (insert_message device.id device.user_id msg)) _ e'
      (λ done u run rest.
        let (said, next) = pure-eq-ok (respond 200 success) rest in
        let run' = map_err-eq-ok server_error _ run in
        (
          sym said,
          subst
              (λ (x : World).
                map letter_of x.db.messages
                ≡ map letter_of w.db.messages ++ map (letter_for device msg) msg.payloads)
              next (insert_payloads_letters device msg msg.payloads w u done run'),
          subst (λ (x : World). x.db.federation_outbox ≡ w.db.federation_outbox) next
              (Keeps-at
                (insert_payloads-outbox w.db.federation_outbox device.id device.user_id msg
                  msg.payloads)
                run' refl),
        ))
