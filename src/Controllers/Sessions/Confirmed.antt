-- ===== src/Controllers/Sessions/Confirmed.antt =====
-- confirm_session of src/controllers/session_controller.rs.
use hush_net_backend.Prelude.{
  ℕ, true, false, ◌≡◌, refl, sym, subst, ◌∙◌, some, List, [], ◌∷◌, ◌==◌, ==_refl, ==_iff,
  &&-eq-true, exists_where, exists_where-append, find_where, find_where_sound, exists_of_find_where,
  delete_where, update_where, arith,
}
use hush_net_backend.Models.{Uuid, Devices, PendingSession, Session}
use hush_net_backend.Store.{Db, World, ok, Call, call_of, map_err}
use hush_net_backend.Store.Inversion.{
  bind_elim, mapped_query_elim, ok_or_elim, pure-eq-ok, ok-injective, after,
}
use hush_net_backend.Web.{Response, respond, status}
use hush_net_backend.Repository.Sessions.{
  is_owned, get_pending_session_by_id, get_or_create_chat_id, is_session, new_session,
  session_statement, insert_or_update_session, delete_statement, delete_pending_session,
}
use hush_net_backend.Controllers.Sessions.{ConfirmSessionBody, confirm_session}

-- the pending session is gone
abbrev pub Gone : Uuid → Db → Type 0
Gone id db = exists_where (λ p. p.id == id) db.pending_sessions ≡ false

delete-gone :
    (id : Uuid) (ps : List PendingSession)
    → exists_where (λ p. p.id == id) (delete_where (λ p. p.id == id) ps) ≡ false
delete-gone id [] = refl
delete-gone id (p ∷ ps) = ground (arith, delete-gone id ps)

update-exists :
    (s r : Uuid) (t : ℕ) (ss : List Session)
    → exists_where (is_session s r) ss ≡ true
    → exists_where
        (is_session s r)
        (update_where (is_session s r) (λ x. record x { updated_at = t }) ss)
      ≡ true
update-exists s r t [] h = h
update-exists s r t (x ∷ ss) h = ground (arith, h, update-exists s r t ss)

session-stored :
    (chat s r : Uuid) (c : Call) (db : Db)
    → (session_statement chat s r c db).0 ≡ ok tt
    → exists_where (is_session s r) (session_statement chat s r c db).1.sessions ≡ true
unfolding session_statement
session-stored chat s r c db h = ground (
  arith,
  h,
  update-exists s r c.now db.sessions,
  exists_where-append (is_session s r) db.sessions (new_session chat s r c ∷ []),
  ==_refl s,
  ==_refl r,
)

-- What a confirmation that was answered without an error has found and done.
pub record Confirmed (device : Devices) (payload : ConfirmSessionBody) (w v : World) (r : Response)
    : Type 0 where
  pub found : PendingSession
  pub was_pending :
      exists_where (is_owned payload.pending_session_id device.id) w.db.pending_sessions ≡ true
  pub its_id : found.id ≡ payload.pending_session_id
  pub its_recipient : found.recipient_device_id ≡ device.id
  pub stored :
      exists_where (is_session payload.sender_device_id payload.receiver_device_id) v.db.sessions
      ≡ true
  pub gone : Gone payload.pending_session_id v.db
  pub answer : r ≡ respond 201 (status "session confirmed")

-- A confirmation that is answered without an error was made by the recipient of a pending session;
-- it leaves a session between the two devices that the request names, and no pending session of
-- that id.
pub confirm_session-Confirmed :
    (device : Devices) (payload : ConfirmSessionBody) (w v : World) (r : Response)
    → confirm_session device payload w ≡ (ok r, v)
    → Confirmed device payload w v r
unfolding confirm_session get_pending_session_by_id insert_or_update_session delete_pending_session
    delete_statement
confirm_session-Confirmed device payload w v r e =
    let s = payload.sender_device_id in
    let d = payload.receiver_device_id in
    mapped_query_elim _ _ _ e (λ o said1 e1. ok_or_elim o _ _ e1 (λ found is_found e2.
      bind_elim (map_err _ (get_or_create_chat_id s d)) _ e2 (λ chat u run e3.
        mapped_query_elim _ (session_statement chat s d) _ e3 (λ done said4 e4.
          mapped_query_elim _ (delete_statement payload.pending_session_id) _ e4 (λ done' said5 e5.
            let (answer, next) = pure-eq-ok (respond 201 (status "session confirmed")) e5 in
            let looked : find_where (is_owned payload.pending_session_id device.id)
                  w.db.pending_sessions
                ≡ some found =
              ok-injective said1 ∙ is_found in
            let (same_id, owned) =
              &&-eq-true (found.id == payload.pending_session_id)
                (found.recipient_device_id == device.id)
                (find_where_sound (is_owned payload.pending_session_id device.id)
                  w.db.pending_sessions looked) in
            let x : World = after (session_statement chat s d) u in
            record {
              found = found;
              was_pending =
                  exists_of_find_where (is_owned payload.pending_session_id device.id)
                    w.db.pending_sessions looked;
              its_id = (==_iff found.id payload.pending_session_id).0 same_id;
              its_recipient = (==_iff found.recipient_device_id device.id).0 owned;
              stored =
                  subst (λ (y : World). exists_where (is_session s d) y.db.sessions ≡ true) next
                    (session-stored chat s d (call_of u) u.db said4);
              gone =
                  subst (λ (y : World). Gone payload.pending_session_id y.db) next
                    (delete-gone payload.pending_session_id x.db.pending_sessions);
              answer = sym answer;
            })))))

owned-pending :
    (id d : Uuid) (ps : List PendingSession)
    → exists_where (is_owned id d) ps ≡ true
    → exists_where (λ p. p.id == id) ps ≡ true
owned-pending id d [] h = h
owned-pending id d (p ∷ ps) h = ground (arith, h, owned-pending id d ps)

-- A pending session is confirmed at most once: after a confirmation that was answered without an
-- error, and as long as no new pending session has its id, none with that id succeeds.
pub confirm_once :
    (device device' : Devices) (payload payload' : ConfirmSessionBody) (w v w' v' : World)
    (r r' : Response)
    → confirm_session device payload w ≡ (ok r, v)
    → (Gone payload.pending_session_id v.db → Gone payload.pending_session_id w'.db)
    → payload'.pending_session_id ≡ payload.pending_session_id
    → ¬ (confirm_session device' payload' w' ≡ (ok r', v'))
confirm_once device device' payload payload' w v w' v' r r' first kept same second =
    let a = confirm_session-Confirmed device payload w v r first in
    let b = confirm_session-Confirmed device' payload' w' v' r' second in
    ground (
      arith,
      kept a.gone,
      subst (λ i. exists_where (λ (p : PendingSession). p.id == i) w'.db.pending_sessions ≡ true)
          same
          (owned-pending payload'.pending_session_id device'.id w'.db.pending_sessions
            b.was_pending),
    )
