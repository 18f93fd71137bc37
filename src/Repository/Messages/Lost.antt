-- ===== src/Repository/Messages/Lost.antt =====
-- Messages that are marked as delivered and were not handed out: fetch_pending_messages of
-- src/repository/message_repository.rs is a SELECT and an UPDATE, and the connection can fail, or
-- another request run, between the two.
use hush_net_backend.Prelude.{
  ℕ, suc, String, Bool, true, false, ◌≡◌, refl, sym, ap, ◌∙◌, subst, some, List, [], ◌∷◌, map,
  str_eq, exists_where, select_where, order_by, update_where, none-order_by, Bool-cases, inl, inr,
  arith,
}
use hush_net_backend.Models.{Uuid, Devices, Message, MessageView}
use hush_net_backend.Store.{
  World, Result, ok, err, SqlError, connection, fine, lost, Statement, call_of, query,
}
use hush_net_backend.Store.Inversion.{after, query_fine, query-eq-ok, ok-injective}
use hush_net_backend.Store.Forward.{bind_step, bind_stop}
use hush_net_backend.Repository.Messages.{
  NewMessage, is_copy, is_waiting, message_view, insert_federated_message, select_statement,
  mark_statement, fetch_pending_messages,
}
use hush_net_backend.Repository.Messages.Redelivered.{
  HasCopy, insert_federated_message_stores, insert_federated_message_seen,
}
use hush_net_backend.Repository.Messages.Waiting.{views_of, none_waiting_after}

query_lost :
    {A : Type 0} (s : Statement A) (w : World)
    → w.env.fault w.calls ≡ lost
    → query s w ≡ (err connection, after s w)
unfolding query
query_lost s w h = rw h refl

views_after : (d : Uuid) (w : World) → views_of d (after (mark_statement d) w).db.messages ≡ []
unfolding mark_statement
views_after d w =
    ap (λ ms. map message_view (order_by (λ (m : Message). m.created_at) ms))
      (none_waiting_after d (call_of w).now w.db.messages)

-- When the answer to the UPDATE is lost, the call fails, and nothing waits for the device any more:
-- what waited before is never handed out.
pub lost_answer_loses :
    (device : Devices) (w : World)
    → w.env.fault w.calls ≡ fine
    → w.env.fault (suc w.calls) ≡ lost
    → ((fetch_pending_messages device w).0 ≡ err connection)
      × (views_of device.id (fetch_pending_messages device w).1.db.messages ≡ [])
unfolding fetch_pending_messages select_statement
lost_answer_loses device w f1 f2 =
    let u : World = record w { calls = suc w.calls } in
    let run =
      bind_step (query (select_statement device.id)) _
        (query_fine (select_statement device.id) w f1)
      ∙ bind_stop (query (mark_statement device.id)) _
          (query_lost (mark_statement device.id) u f2) in
    (
      ap (λ x. x.0) run,
      ap (λ (x : Result SqlError (List MessageView) × World). views_of device.id x.1.db.messages)
            run
          ∙ views_after device.id u,
    )

-- A view carries the message `l`.
abbrev pub shows_message : String → MessageView → Bool
shows_message l v = str_eq v.logical_msg_id l

none_selected :
    (l : String) (d : Uuid) (ms : List Message)
    → exists_where (is_copy l d) ms ≡ false
    → exists_where (λ (m : Message). str_eq m.logical_msg_id l) (select_where (is_waiting d) ms)
      ≡ false
none_selected l d [] h = refl
none_selected l d (m ∷ ms) h = ground (arith, h, none_selected l d ms)

shows-view :
    (l : String) (ms : List Message)
    → exists_where (shows_message l) (map message_view ms)
      ≡ exists_where (λ (m : Message). str_eq m.logical_msg_id l) ms
shows-view l [] = refl
shows-view l (m ∷ ms) = ground (arith, shows-view l ms)

none_shown :
    (l : String) (d : Uuid) (ms : List Message)
    → exists_where (is_copy l d) ms ≡ false
    → exists_where (shows_message l) (views_of d ms) ≡ false
none_shown l d ms h =
    shows-view l (order_by (λ (m : Message). m.created_at) (select_where (is_waiting d) ms))
    ∙ none-order_by (λ (m : Message). str_eq m.logical_msg_id l) (λ (m : Message). m.created_at)
        (select_where (is_waiting d) ms) (none_selected l d ms h)

exists-mark :
    (d : Uuid) (t : ℕ) (l : String) (e : Uuid) (ms : List Message)
    → exists_where
        (is_copy l e)
        (update_where (is_waiting d) (λ m. record m { delivered_at = some t }) ms)
      ≡ exists_where (is_copy l e) ms
exists-mark d t l e [] = refl
exists-mark d t l e (m ∷ ms) = ground (arith, exists-mark d t l e ms)

mark-HasCopy :
    (d : Uuid) (l : String) (e : Uuid) (w : World)
    → HasCopy l e w.db
    → HasCopy l e (after (mark_statement d) w).db
unfolding mark_statement
mark-HasCopy d l e w h = exists-mark d (call_of w).now l e w.db.messages ∙ h

-- A call that says that the message is new found no copy of it.
new_is_unseen :
    (n : NewMessage) (w v : World)
    → insert_federated_message n w ≡ (ok true, v)
    → exists_where (is_copy n.logical_msg_id n.to_device_id) w.db.messages ≡ false
new_is_unseen n w v e =
    elim (Bool-cases (exists_where (is_copy n.logical_msg_id n.to_device_id) w.db.messages)) [
      | inl seen ↦ absurd (clash (insert_federated_message_seen n w v true seen e).0)
      | inr new ↦ new
    ]
  where
    clash : ¬ (true ≡ false)
    clash h = ground arith

-- When a peer's message for a device is stored between the SELECT and the UPDATE of a fetch, that
-- fetch does not hand it out and yet marks it as delivered, so that no later fetch does either: it
-- stays in the table, where nothing waits for the device.
pub arrival_between_loses :
    (device : Devices) (n : NewMessage) (w u u' v : World) (views : List MessageView)
    → n.to_device_id ≡ device.id
    → query (select_statement device.id) w ≡ (ok views, u)
    → insert_federated_message n u ≡ (ok true, u')
    → query (mark_statement device.id) u' ≡ (ok tt, v)
    → (exists_where (shows_message n.logical_msg_id) views ≡ false)
      × HasCopy n.logical_msg_id device.id v.db
      × (views_of device.id v.db.messages ≡ [])
unfolding select_statement
arrival_between_loses device n w u u' v views to selected stored marked =
    let (said, next) = query-eq-ok (select_statement device.id) selected in
    let unseen : exists_where (is_copy n.logical_msg_id device.id) w.db.messages ≡ false =
      subst (λ d. exists_where (is_copy n.logical_msg_id d) w.db.messages ≡ false) to
        (subst
          (λ (x : World).
            exists_where (is_copy n.logical_msg_id n.to_device_id) x.db.messages ≡ false)
          next (new_is_unseen n u u' stored)) in
    let (_, last) = query-eq-ok (mark_statement device.id) marked in
    let kept : HasCopy n.logical_msg_id device.id u'.db =
      subst (λ d. HasCopy n.logical_msg_id d u'.db) to
        (insert_federated_message_stores n u u' true stored) in
    (
      subst (λ vs. exists_where (shows_message n.logical_msg_id) vs ≡ false) (ok-injective said)
          (none_shown n.logical_msg_id device.id w.db.messages unseen),
      subst (λ (x : World). HasCopy n.logical_msg_id device.id x.db) (sym last)
          (mark-HasCopy device.id n.logical_msg_id device.id u' kept),
      subst (λ (x : World). views_of device.id x.db.messages ≡ []) (sym last)
          (views_after device.id u'),
    )
