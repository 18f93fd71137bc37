-- ===== src/Repository/Messages/Mailbox.antt =====
-- What the table `messages` promises to the devices, apart from ids, timestamps and statements: a
-- mailbox of letters in their order of arrival. The operations of
-- src/repository/message_repository.rs that put a peer's message in and hand messages out, and what
-- may be answered to them.
pub mod Order
pub mod Slots
pub mod Refines
pub mod Trace
use hush_net_backend.Prelude.{
  String, Bool, true, false, ◌&&◌, ◌≡◌, Option, some, List, [], ◌∷◌, ◌++◌, map, str_eq, ◌==◌,
  exists_where, select_where, update_where, if◌then◌else◌,
}
use hush_net_backend.Models.{Uuid, Value, Devices, Message, MessageView}
use hush_net_backend.Store.{World, Result, ok, err, SqlError, Exec}
use hush_net_backend.Repository.Messages.{
  NewMessage, is_undelivered, insert_federated_message, fetch_pending_messages,
}

-- what a device is handed, without the id and the time that the database chose
pub record Letter : Type 0 where
  pub logical_msg_id : String
  pub chat_id : Option Uuid
  pub from_user_id : Option Uuid
  pub from_device_id : Option Uuid
  pub header : Value
  pub ciphertext : String

pub record Slot : Type 0 where
  pub to_device_id : Uuid
  pub letter : Letter
  pub waiting : Bool

abbrev pub Box : Type 0
Box = List Slot

abbrev pub holds : String → Uuid → Slot → Bool
holds l d s = str_eq s.letter.logical_msg_id l && s.to_device_id == d

abbrev pub waits_for : Uuid → Slot → Bool
waits_for d s = s.to_device_id == d && s.waiting

abbrev pub letter_of : NewMessage → Letter
letter_of n = record {
  logical_msg_id = n.logical_msg_id;
  chat_id = some n.chat_id;
  from_user_id = some n.from_user_id;
  from_device_id = some n.from_device_id;
  header = n.header;
  ciphertext = n.ciphertext;
}

abbrev pub slot_of_new : NewMessage → Slot
slot_of_new n = record { to_device_id = n.to_device_id; letter = letter_of n; waiting = true }

-- A letter that the device has had already is not put in again.
abbrev pub put : NewMessage → Box → Bool × Box
put n box =
    if exists_where (holds n.logical_msg_id n.to_device_id) box
    then (false, box)
    else (true, box ++ slot_of_new n ∷ [])

-- A device gets each letter that waits for it, in the order of arrival.
abbrev pub collect : Uuid → Box → List Letter × Box
collect d box = (
  map (λ (s : Slot). s.letter) (select_where (waits_for d) box),
  update_where (waits_for d) (λ s. record s { waiting = false }) box,
)

pub data Op : Type 0 where
  puts : NewMessage → Op
  collects : Devices → Op

pub data Answer : Type 0 where
  put_in : Bool → Answer
  handed : List Letter → Answer
  failed : Answer

-- the answer that the mailbox gives, and what it holds then
abbrev pub respond_to : Op → Box → Answer × Box
respond_to (puts n) box = let (new, box') = put n box in (put_in new, box')
respond_to (collects device) box = let (ls, box') = collect device.id box in (handed ls, box')

-- What a mailbox may do: answer, or fail; and then the operation has been carried out, or not.
pub data Allows (op : Op) (box : Box) : Answer → Box → Type 0 where
  answers : Allows op box (respond_to op box).0 (respond_to op box).1
  fails_before : Allows op box failed box
  fails_after : Allows op box failed (respond_to op box).1

-- the mailbox that the table stands for
abbrev pub letter_of_view : MessageView → Letter
letter_of_view v = record {
  logical_msg_id = v.logical_msg_id;
  chat_id = v.chat_id;
  from_user_id = v.from_user_id;
  from_device_id = v.from_device_id;
  header = v.header;
  ciphertext = v.ciphertext;
}

abbrev pub slot_of : Message → Slot
slot_of m = record {
  to_device_id = m.to_device_id;
  letter = record {
    logical_msg_id = m.logical_msg_id;
    chat_id = some m.chat_id;
    from_user_id = some m.from_user_id;
    from_device_id = some m.from_device_id;
    header = m.header;
    ciphertext = m.ciphertext;
  };
  waiting = is_undelivered m.delivered_at;
}

abbrev pub box_of : World → Box
box_of w = map slot_of w.db.messages

-- an operation on the database, and its answer
abbrev pub put_answer : Result SqlError Bool → Answer
put_answer (ok new) = put_in new
put_answer (err e) = failed

abbrev pub collect_answer : Result SqlError (List MessageView) → Answer
collect_answer (ok views) = handed (map letter_of_view views)
collect_answer (err e) = failed

abbrev pub perform : Op → World → Answer × World
perform (puts n) w = let (r, v) = insert_federated_message n w in (put_answer r, v)
perform (collects device) w = let (r, v) = fetch_pending_messages device w in (collect_answer r, v)
