-- ===== src/Repository/Messages/Mailbox/Slots.antt =====
-- The rows of `messages` as slots of the mailbox, under the lookups and updates of
-- src/repository/message_repository.rs.
use hush_net_backend.Prelude.{
  ℕ, String, true, false, ◌≡◌, refl, ap, List, [], ◌∷◌, ◌++◌, map, some, exists_where, select_where,
  update_where, order_by, arith,
}
use hush_net_backend.Models.{Uuid, Message}
use hush_net_backend.Repository.Messages.{is_copy, is_waiting, message_view}
use hush_net_backend.Repository.Messages.Mailbox.{Slot, holds, waits_for, letter_of_view, slot_of}
use hush_net_backend.Repository.Messages.Mailbox.Order.{rising, rising-select, order_by-rising}

pub exists-holds :
    (l : String) (d : Uuid) (ms : List Message)
    → exists_where (holds l d) (map slot_of ms) ≡ exists_where (is_copy l d) ms
exists-holds l d [] = refl
exists-holds l d (m ∷ ms) = ground (arith, exists-holds l d ms)

pub map_slot-append :
    (ms : List Message) (m : Message)
    → map slot_of (ms ++ m ∷ []) ≡ map slot_of ms ++ slot_of m ∷ []
map_slot-append [] m = refl
map_slot-append (x ∷ ms) m = ap (λ box. slot_of x ∷ box) (map_slot-append ms m)

module _ (d : Uuid) where
  pub select-slots :
      (ms : List Message)
      → map letter_of_view (map message_view (select_where (is_waiting d) ms))
        ≡ map (λ (s : Slot). s.letter) (select_where (waits_for d) (map slot_of ms))
  select-slots [] = refl
  select-slots (m ∷ ms) = ground (arith, select-slots ms)

  pub mark-slots :
      (t : ℕ) (ms : List Message)
      → map slot_of (update_where (is_waiting d) (λ m. record m { delivered_at = some t }) ms)
        ≡ update_where (waits_for d) (λ s. record s { waiting = false }) (map slot_of ms)
  mark-slots t [] = refl
  mark-slots t (m ∷ ms) = ground (arith, mark-slots t ms)

  pub rising-select_waiting :
      (ms : List Message)
      → rising 0 ms ≡ true
      → order_by (λ (m : Message). m.created_at) (select_where (is_waiting d) ms)
        ≡ select_where (is_waiting d) ms
  rising-select_waiting ms r =
      order_by-rising 0 (select_where (is_waiting d) ms) (rising-select (is_waiting d) 0 ms r)
