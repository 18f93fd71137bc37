-- ===== src/Tests/Mailbox.antt =====
-- The theorems on the mailbox that the table of messages is, at the small nodes.
use hush_net_backend.Prelude.{
  ◌≡◌, refl, true, false, List, [], ◌∷◌, ◌==◌, if◌then◌else◌, exists_where, arith,
}
use hush_net_backend.Models.{null}
use hush_net_backend.Store.{World, ok, err, connection, fine, lost, query, ◌>>=◌}
use hush_net_backend.Repository.Shadow.{direct_chat}
use hush_net_backend.Repository.Messages.{
  NewMessage, federated_statement, insert_federated_message, select_statement, mark_statement,
  fetch_pending_messages,
}
use hush_net_backend.Repository.Messages.Redelivered.{HasCopy}
use hush_net_backend.Repository.Messages.Waiting.{views_of}
use hush_net_backend.Repository.Messages.Lost.{
  shows_message, lost_answer_loses, arrival_between_loses,
}
use hush_net_backend.Repository.Messages.Mailbox.{
  Op, puts, collects, Answer, Allows, box_of, perform,
}
use hush_net_backend.Repository.Messages.Mailbox.Refines.{perform-Allows}
use hush_net_backend.Repository.Messages.Mailbox.Trace.{
  ClockRises, OrderedAt, Happens, nothing, operates, Explains, Happens-Explains,
}
use hush_net_backend.Tests.Fixtures.{env, phone, db, w0}

-- Carol's laptop writes to Alice's phone
abbrev note : NewMessage
note = record {
  logical_msg_id = "m-5";
  chat_id = 50;
  from_user_id = 2;
  from_device_id = 12;
  to_user_id = 1;
  to_device_id = 11;
  header = null;
  ciphertext = "note";
}

abbrev start : World
start = record w0 {
  db = record db { chats = direct_chat 1 2 (record { now = 300; new_id = 50 }) ∷ [] };
}

abbrev with_note : World
with_note = (perform (puts note) start).1

abbrev emptied : World
emptied = (perform (collects phone) with_note).1

clock : ClockRises env
clock i j h = omega arith

start-OrderedAt : OrderedAt start
start-OrderedAt = record { in_order = refl; none_later = refl }

abbrev log : List (Op × Answer)
log =
    (puts note, (perform (puts note) start).0)
    ∷ (collects phone, (perform (collects phone) with_note).0)
    ∷ []

history : Happens start emptied log
history = operates (puts note) (operates (collects phone) nothing)

Happens-Explains_example : Explains (box_of start) (box_of emptied) log
Happens-Explains_example = Happens-Explains clock start-OrderedAt history

perform-Allows_example : Allows (puts note) [] (perform (puts note) start).0 (box_of with_note)
perform-Allows_example = perform-Allows (puts note) start refl

abbrev faulty : World
faulty = record start { env = record env { fault = λ i. if i == 1 then lost else fine } }

lost_answer_loses_example :
    ((fetch_pending_messages phone faulty).0 ≡ err connection)
    × (views_of 11 (fetch_pending_messages phone faulty).1.db.messages ≡ [])
lost_answer_loses_example = lost_answer_loses phone faulty refl refl

-- the fetch of the phone, with the note in between
abbrev asked : World
asked = (query (select_statement 11) start).1

abbrev arrived : World
arrived = (insert_federated_message note asked).1

abbrev marked : World
marked = (query (mark_statement 11) arrived).1

asks : query (select_statement 11) start ≡ (ok [], asked)
unfolding query select_statement
asks = refl

arrives : insert_federated_message note asked ≡ (ok true, arrived)
unfolding insert_federated_message federated_statement select_statement query ◌>>=◌
arrives = refl

marks : query (mark_statement 11) arrived ≡ (ok tt, marked)
unfolding query mark_statement insert_federated_message federated_statement select_statement ◌>>=◌
marks = refl

arrival_between_loses_example :
    (exists_where (shows_message "m-5") [] ≡ false)
    × HasCopy "m-5" 11 marked.db
    × (views_of 11 marked.db.messages ≡ [])
arrival_between_loses_example =
    arrival_between_loses phone note start asked arrived marked [] refl asks arrives marks
