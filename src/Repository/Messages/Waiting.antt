-- ===== src/Repository/Messages/Waiting.antt =====
-- Delivery to a device: fetch_pending_messages of src/repository/message_repository.rs.
use hush_net_backend.Prelude.{
  ℕ, ◌≡◌, refl, sym, ap, subst, ◌∙◌, some, List, [], ◌∷◌, map, select_where, update_where, order_by,
  arith,
}
use hush_net_backend.Models.{Uuid, Devices, Message, MessageView}
use hush_net_backend.Store.{World, Result, ok, SqlError}
use hush_net_backend.Store.Inversion.{query_elim, pure-eq-ok}
use hush_net_backend.Repository.Messages.{
  is_waiting, message_view, select_statement, mark_statement, fetch_pending_messages,
}

module _ (device_id : Uuid) where
  pub none_waiting_after :
      (t : ℕ) (ms : List Message)
      → select_where
          (is_waiting device_id)
          (update_where (is_waiting device_id) (λ m. record m { delivered_at = some t }) ms)
        ≡ []
  none_waiting_after t [] = refl
  none_waiting_after t (m ∷ ms) = ground (arith, none_waiting_after t ms)

abbrev pub views_of : Uuid → List Message → List MessageView
views_of device_id ms =
    map message_view (order_by (λ m. m.created_at) (select_where (is_waiting device_id) ms))

ok_views :
    {a b : List MessageView} → ◌≡◌ {A = Result SqlError (List MessageView)} (ok a) (ok b) → a ≡ b
ok_views h = ground arith

-- A call that returns hands out exactly the messages that waited for the device, oldest first, and
-- none of them waits afterwards.
pub fetch_pending_all :
    (device : Devices) (w v : World) (out : List MessageView)
    → fetch_pending_messages device w ≡ (ok out, v)
    → (out ≡ views_of device.id w.db.messages) × (views_of device.id v.db.messages ≡ [])
unfolding fetch_pending_messages select_statement mark_statement
fetch_pending_all device w v out e = query_elim (select_statement device.id) _ e (λ found said rest.
    query_elim (mark_statement device.id) _ rest (λ done _ last.
      let (same, next) = pure-eq-ok found last in
      (
        sym same ∙ sym (ok_views said),
        subst (λ (x : World). views_of device.id x.db.messages ≡ []) next
            (ap (λ ms. map message_view (order_by (λ m. m.created_at) ms))
              (none_waiting_after device.id _ w.db.messages)),
      )))
