-- ===== src/Tests/Messages.antt =====
-- The theorems on messages, chats and peers, at the small nodes.
use hush_net_backend.Prelude.{ℕ, ◌≡◌, refl, true, false, none, some, [], ◌∷◌}
use hush_net_backend.Models.{null, string, OutgoingMessage}
use hush_net_backend.Store.{World, ok, query, ◌>>=◌}
use hush_net_backend.Store.Keeps.{Keeps}
use hush_net_backend.Web.{respond, status}
use hush_net_backend.Repository.Shadow.{
  get_local_user_id_by_username, upsert_shadow_user, shadow_user_statement, upsert_shadow_device,
  shadow_device_statement, get_or_create_direct_chat, ordered_chat, find_chat_statement,
  insert_chat_statement,
}
use hush_net_backend.Repository.Shadow.Chats.{direct_chat_stable}
use hush_net_backend.Repository.Messages.{insert_federated_message, federated_statement}
use hush_net_backend.Repository.Messages.Copies.{UniqueCopies}
use hush_net_backend.Controllers.Federation.{
  local_user_or, sender_username, store_messages, ack_of, receive_messages,
}
use hush_net_backend.Controllers.Federation.Redelivery.{
  redelivery_duplicate, receive_messages-UniqueCopies,
}
use hush_net_backend.Controllers.Messages.{remote_target, send_message}
use hush_net_backend.Controllers.Messages.Queued.{Forwardable, queued_in, send_message_queues}
use hush_net_backend.Federation.Address.{parse_federated_address}
use hush_net_backend.Repository.Shadow.{direct_chat}
use hush_net_backend.Repository.Messages.{insert_message, insert_payloads, insert_statement}
use hush_net_backend.Controllers.Messages.Local.{letter_for, send_message_local}
use hush_net_backend.Repository.Messages.Contents.{letter_of}
use hush_net_backend.Prelude.{map, ◌++◌}
use hush_net_backend.Web.{success}
use hush_net_backend.Tests.Fixtures.{wire, state, peer, alice, phone, db, w0}

-- the worlds after a first and a second delivery
abbrev once : World
once = (receive_messages peer wire w0).1

abbrev twice : World
twice = (receive_messages peer wire once).1

delivered : receive_messages peer wire w0 ≡ (ok (ack_of wire true), once)
unfolding receive_messages local_user_or get_local_user_id_by_username sender_username
    upsert_shadow_user shadow_user_statement upsert_shadow_device shadow_device_statement
    get_or_create_direct_chat ordered_chat find_chat_statement insert_chat_statement store_messages
    insert_federated_message federated_statement query ◌>>=◌
delivered = refl

again : receive_messages peer wire once ≡ (ok (ack_of wire false), twice)
unfolding receive_messages local_user_or get_local_user_id_by_username sender_username
    upsert_shadow_user shadow_user_statement upsert_shadow_device shadow_device_statement
    get_or_create_direct_chat ordered_chat find_chat_statement insert_chat_statement store_messages
    insert_federated_message federated_statement query ◌>>=◌
again = refl

redelivery_duplicate_example :
    (ack_of wire false ≡ ack_of wire false) × (twice.db.messages ≡ once.db.messages)
redelivery_duplicate_example =
    redelivery_duplicate peer peer wire w0 once once twice (ack_of wire true) (ack_of wire false)
      delivered refl again

receive_messages-UniqueCopies_example : Keeps UniqueCopies (receive_messages peer wire)
receive_messages-UniqueCopies_example = receive_messages-UniqueCopies peer wire

-- the direct chat of Alice and Carol
abbrev chatting : World
chatting = (get_or_create_direct_chat 1 2 w0).1

abbrev chatting_again : World
chatting_again = (get_or_create_direct_chat 2 1 chatting).1

created : get_or_create_direct_chat 1 2 w0 ≡ (ok 1001, chatting)
unfolding get_or_create_direct_chat ordered_chat find_chat_statement insert_chat_statement query
    ◌>>=◌
created = refl

found : get_or_create_direct_chat 2 1 chatting ≡ (ok 1001, chatting_again)
unfolding get_or_create_direct_chat ordered_chat find_chat_statement insert_chat_statement query
    ◌>>=◌
found = refl

direct_chat_stable_example : (◌≡◌ {A = ℕ} 1001 1001) × (chatting_again.db ≡ chatting.db)
direct_chat_stable_example =
    direct_chat_stable 1 2 w0 chatting chatting_again 1001 1001 created found

-- a message of Alice to Bob
abbrev to_bob : OutgoingMessage
to_bob = record {
  chat_id = 50;
  logical_msg_id = "m-2";
  to_user_id = 33;
  to_user_address = some "bob@b.example";
  payloads = record { to_device_id = 21; header = null; ciphertext = "abc" } ∷ [];
}

to_bob-Forwardable : Forwardable state phone to_bob "bob" "b.example" alice peer (string "m-2") w0
unfolding remote_target parse_federated_address
to_bob-Forwardable = record {
  no_fault = λ i. refl;
  remote = refl;
  sender_known = refl;
  cached = refl;
  not_blocked = refl;
  serialises = refl;
  fresh_id = refl;
}

send_message_queues_example : send_message state phone to_bob w0 ≡ (
  ok (respond 202 (status "queued")),
  queued_in state phone to_bob "bob" "b.example" alice peer (string "m-2") w0,
)
send_message_queues_example =
    send_message_queues state phone to_bob "bob" "b.example" alice peer (string "m-2") w0
      to_bob-Forwardable

-- Alice's phone writes to Carol's laptop, in their chat
abbrev to_carol : OutgoingMessage
to_carol = record {
  chat_id = 50;
  logical_msg_id = "m-4";
  to_user_id = 2;
  to_user_address = none;
  payloads = record { to_device_id = 12; header = null; ciphertext = "abc" } ∷ [];
}

abbrev with_chat : World
with_chat = record w0 {
  db = record db { chats = direct_chat 1 2 (record { now = 300; new_id = 50 }) ∷ [] };
}

abbrev sent_to_carol : World
sent_to_carol = (send_message state phone to_carol with_chat).1

stays : remote_target state none ≡ none
unfolding remote_target
stays = refl

sends : send_message state phone to_carol with_chat ≡ (ok (respond 200 success), sent_to_carol)
unfolding send_message remote_target insert_message insert_payloads insert_statement query ◌>>=◌
sends = refl

send_message_local_example :
    (respond 200 success ≡ respond 200 success)
    × (map letter_of sent_to_carol.db.messages
        ≡ map letter_of with_chat.db.messages ++ map (letter_for phone to_carol) to_carol.payloads)
    × (sent_to_carol.db.federation_outbox ≡ with_chat.db.federation_outbox)
send_message_local_example =
    send_message_local state phone to_carol with_chat sent_to_carol (respond 200 success) stays
      sends
