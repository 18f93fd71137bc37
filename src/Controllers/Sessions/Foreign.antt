-- ===== src/Controllers/Sessions/Foreign.antt =====
-- confirm_session of src/controllers/session_controller.rs, run forward.
use hush_net_backend.Prelude.{
  ℕ, suc, true, false, ◌≡◌, refl, ap, ◌∙◌, Option, none, some, ◌==◌, exists_where, find_where,
  exists_of_find_where, arith,
}
use hush_net_backend.Models.{Uuid, Devices, PendingSession}
use hush_net_backend.Store.{Db, World, Result, ok, SqlError, Call, fine, call_of}
use hush_net_backend.Store.Inversion.{after, query_fine}
use hush_net_backend.Store.Forward.{bind_step, ok_or_step, map_err_step, pure_run}
use hush_net_backend.Web.{Response, respond, status}
use hush_net_backend.Repository.Shadow.{device_exists}
use hush_net_backend.Repository.Sessions.{
  has_device_id, user_of_device, is_owned, get_pending_session_by_id, is_session, session_statement,
  insert_or_update_session, delete_statement, delete_pending_session,
}
use hush_net_backend.Repository.Sessions.Chosen.{Owned, ChatReady, get_or_create_chat_id_run}
use hush_net_backend.Controllers.Sessions.{ConfirmSessionBody, confirm_session}
use hush_net_backend.Controllers.Sessions.Confirmed.{confirm_session-Confirmed}
use mathlib.Core.Option

-- What a confirmation needs: a pending session for the caller, and nothing of the two devices that
-- the request names but that they belong to two users.
pub record Confirmable (device : Devices) (payload : ConfirmSessionBody) (w : World) : Type 0 where
  pub no_fault : (i : ℕ) → w.env.fault i ≡ fine
  pub pending : PendingSession
  pub found :
      find_where (is_owned payload.pending_session_id device.id) w.db.pending_sessions
      ≡ some pending
  pub owned : Owned payload.sender_device_id payload.receiver_device_id w.db
  pub fresh_chat :
      exists_where (λ chat. chat.id == w.env.new_id (suc (suc w.calls))) w.db.chats ≡ false
  pub fresh_session : (i : ℕ) → exists_where (λ s. s.id == w.env.new_id i) w.db.sessions ≡ false

owner-device_exists :
    (id : Uuid) (db : Db) {a : Uuid} → user_of_device id db ≡ some a → device_exists id db ≡ true
owner-device_exists id db {a} h = go (find_where (has_device_id id) db.devices) refl h
  where
    go :
        (o : Option Devices)
        → find_where (has_device_id id) db.devices ≡ o
        → Option.map (λ (d : Devices). d.user_id) o ≡ some a
        → device_exists id db ≡ true
    go none e k = ground arith
    go (some d) e k = exists_of_find_where (has_device_id id) db.devices e

session_run :
    (chat s r : Uuid) (c : Call) (db : Db)
    → exists_where (λ x. x.id == c.new_id) db.sessions ≡ false
    → exists_where (λ x. x.id == chat) db.chats ≡ true
    → device_exists s db ≡ true
    → device_exists r db ≡ true
    → (session_statement chat s r c db).0 ≡ ok tt
unfolding session_statement
session_run chat s r c db h1 h2 h3 h4 = ground (arith, h1, h2, h3, h4)

module _ (device : Devices) (payload : ConfirmSessionBody) where
  -- the session is stored once the chat is there
  stored_run :
      (w v : World) (chat : Uuid)
      → Confirmable device payload w
      → ChatReady chat w v
      → (session_statement chat payload.sender_device_id payload.receiver_device_id
          (call_of v)
          v.db).0
        ≡ ok tt
  stored_run w v chat c ready =
      session_run chat payload.sender_device_id payload.receiver_device_id (call_of v) v.db
        (rw (ready.same_env, ready.same_sessions) (c.fresh_session v.calls)) ready.stored
        (rw ready.same_devices
          (owner-device_exists payload.sender_device_id w.db c.owned.sender_owner))
        (rw ready.same_devices
          (owner-device_exists payload.receiver_device_id w.db c.owned.receiver_owner))

  confirm_session_run :
      (w : World)
      → Confirmable device payload w
      → (confirm_session device payload w).0 ≡ ok (respond 201 (status "session confirmed"))
  unfolding confirm_session get_pending_session_by_id insert_or_update_session
      delete_pending_session delete_statement
  confirm_session_run w c =
      let s = payload.sender_device_id in
      let r = payload.receiver_device_id in
      let w1 : World = record w { calls = suc w.calls } in
      let (chat, v, runs, ready) =
        get_or_create_chat_id_run s r w1 c.owned c.fresh_chat c.no_fault in
      let fine_at : (i : ℕ) → v.env.fault i ≡ fine = λ i. rw ready.same_env (c.no_fault i) in
      let v1 : World = after (session_statement chat s r) v in
      ap (λ (x : Result Response Response × World). x.0)
        (bind_step _ _ (map_err_step _ _ (query_fine _ w (c.no_fault w.calls)))
          ∙ ok_or_step _ _ w1 c.found
          ∙ bind_step _ _ (map_err_step _ _ runs)
          ∙ bind_step _ _ (
              map_err_step _ _ (
                query_fine (session_statement chat s r) v (fine_at v.calls)
                ∙ ap (λ (x : Result SqlError (Unit {0})). (x, v1))
                    (stored_run w v chat c (record {
                      stored = ready.stored;
                      same_devices = ready.same_devices;
                      same_sessions = ready.same_sessions;
                      same_env = ready.same_env;
                    }))))
          ∙ bind_step _ _ (
              map_err_step _ _
                (query_fine (delete_statement payload.pending_session_id) v1 (fine_at v1.calls)))
          ∙ pure_run (respond 201 (status "session confirmed"))
              (after (delete_statement payload.pending_session_id) v1))

-- Whoever has a pending session can store a session between any two devices of different users,
-- none of which need be the caller's or the pending session's: such a confirmation is answered
-- with 201, and the session is there, if the database answers, the users exist and the ids are new.
pub any_two_devices :
    (device : Devices) (payload : ConfirmSessionBody) (w : World)
    → Confirmable device payload w
    → ((confirm_session device payload w).0 ≡ ok (respond 201 (status "session confirmed")))
      × (exists_where
            (is_session payload.sender_device_id payload.receiver_device_id)
            (confirm_session device payload w).1.db.sessions
          ≡ true)
any_two_devices device payload w c =
    let answer = confirm_session_run device payload w c in
    let v = (confirm_session device payload w).1 in
    (
      answer,
      (confirm_session-Confirmed device payload w v (respond 201 (status "session confirmed"))
          (ap (λ (r : Result Response Response). (r, v)) answer)).stored,
    )
