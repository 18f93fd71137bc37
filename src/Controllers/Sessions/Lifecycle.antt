-- ===== src/Controllers/Sessions/Lifecycle.antt =====
-- From create_session to confirm_session of src/controllers/session_controller.rs.
use hush_net_backend.Prelude.{
  find_of_exists, ℕ, suc, true, false, ◌≡◌, refl, sym, subst, ap, ◌∙◌, none, some, List, [], ◌∷◌,
  ◌++◌, map, map-append, append_assoc, ◌==◌, ==_refl, exists_where, find_where, arith,
}
use mathlib.Core.List.{nil≢cons, head-eq_of_cons-eq, tail-eq_of_cons-eq}
use hush_net_backend.Models.{Uuid, Devices, PendingSession}
use hush_net_backend.Store.{Db, Env, World, Result, ok, fine}
use hush_net_backend.Web.{AppState, Response, respond, status}
use hush_net_backend.Repository.Shadow.{user_exists}
use hush_net_backend.Repository.Sessions.{user_of_device, is_owned, is_session}
use hush_net_backend.Repository.Sessions.Chosen.{Owned}
use hush_net_backend.Controllers.Messages.{remote_target}
use hush_net_backend.Controllers.Sessions.{
  SessionInit, CreateSessionBody, ConfirmSessionBody, create_local_session, create_or_forward,
  create_session, confirm_session,
}
use hush_net_backend.Controllers.Sessions.Created.{create_session-Created}
use hush_net_backend.Controllers.Sessions.Foreign.{Confirmable, any_two_devices}
use hush_net_backend.Controllers.Sessions.Others.{
  SameOthers, create_local-SameOthers, create_local-Runs,
}
use hush_net_backend.Controllers.Sessions.Loop.{Ready, handed, all_exist, before_unknown}

all_before :
    (inits : List SessionInit) (db : Db)
    → all_exist inits db ≡ true
    → before_unknown inits db ≡ inits
all_before [] db h = refl
all_before (i ∷ inits) db h = ground (arith, h, all_before inits db)

-- a pending session with the content that stands in the list
handed-exists :
    (sender : Uuid) (i : SessionInit) (ps : List PendingSession) (xs ys : List (Uuid × SessionInit))
    → map handed ps ≡ xs ++ (sender, i) ∷ ys
    → (p : PendingSession) × (handed p ≡ (sender, i))
      × (exists_where (is_owned p.id p.recipient_device_id) ps ≡ true)
handed-exists sender i [] [] ys h = absurd (nil≢cons h)
handed-exists sender i [] (x ∷ xs) ys h = absurd (nil≢cons h)
handed-exists sender i (p ∷ ps) [] ys h =
    (p, head-eq_of_cons-eq h, ground (arith, ==_refl p.id, ==_refl p.recipient_device_id))
handed-exists sender i (p ∷ ps) (x ∷ xs) ys h =
    let (q, same, there) = handed-exists sender i ps xs ys (tail-eq_of_cons-eq h) in
    (q, same, ground (arith, there))

-- What a confirmation of two devices needs of the tables, beside the pending session.
pub record TwoDevices (s r : Uuid) (w : World) : Type 0 where
  pub owned : Owned s r w.db
  pub fresh_chats : (n : ℕ) → exists_where (λ chat. chat.id == w.env.new_id n) w.db.chats ≡ false
  pub fresh_sessions : (n : ℕ) → exists_where (λ x. x.id == w.env.new_id n) w.db.sessions ≡ false

TwoDevices-moved :
    (s r : Uuid) (w v : World)
    → SameOthers w.db v.db
    → v.env ≡ w.env
    → TwoDevices s r w
    → TwoDevices s r v
TwoDevices-moved s r w v same env d =
    let o = d.owned in
    record {
      owned = record {
        a = o.a;
        b = o.b;
        sender_owner = subst (λ x. user_of_device s x ≡ some o.a) (sym same) o.sender_owner;
        receiver_owner = subst (λ x. user_of_device r x ≡ some o.b) (sym same) o.receiver_owner;
        different = o.different;
        a_exists = subst (λ x. user_exists o.a x ≡ true) (sym same) o.a_exists;
        b_exists = subst (λ x. user_exists o.b x ≡ true) (sym same) o.b_exists;
      };
      fresh_chats = λ n.
          subst (λ (e : Env). exists_where (λ c. c.id == e.new_id n) v.db.chats ≡ false) (sym env)
            (subst (λ (x : Db). exists_where (λ c. c.id == w.env.new_id n) x.chats ≡ false)
              (sym same) (d.fresh_chats n));
      fresh_sessions = λ n.
          subst (λ (e : Env). exists_where (λ x. x.id == e.new_id n) v.db.sessions ≡ false)
            (sym env)
            (subst (λ (x : Db). exists_where (λ y. y.id == w.env.new_id n) x.sessions ≡ false)
              (sym same) (d.fresh_sessions n));
    }

-- the confirmation of a pending session by its recipient
abbrev pub asks : PendingSession → ConfirmSessionBody
asks p = record {
  pending_session_id = p.id;
  sender_device_id = p.sender_device_id;
  receiver_device_id = p.recipient_device_id;
}

confirmable :
    (device : Devices) (p : PendingSession) (v : World)
    → ((n : ℕ) → v.env.fault n ≡ fine)
    → p.recipient_device_id ≡ device.id
    → TwoDevices p.sender_device_id p.recipient_device_id v
    → exists_where (is_owned p.id p.recipient_device_id) v.db.pending_sessions ≡ true
    → Confirmable device (asks p) v
confirmable device p v up mine d there =
    let (found, is) =
      find_of_exists (is_owned p.id p.recipient_device_id) v.db.pending_sessions there in
    record {
      no_fault = up;
      pending = found;
      found = subst (λ r. find_where (is_owned p.id r) v.db.pending_sessions ≡ some found) mine is;
      owned = d.owned;
      fresh_chat = d.fresh_chats (suc (suc v.calls));
      fresh_session = d.fresh_sessions;
    }

-- the entries of a body, around the one at `i`
listed :
    (sender : Uuid) (inits before after : List SessionInit) (i : SessionInit)
    (old : List (Uuid × SessionInit)) (db : Db)
    → all_exist inits db ≡ true
    → inits ≡ before ++ i ∷ after
    → old ++ map (λ x. (sender, x)) (before_unknown inits db)
      ≡ (old ++ map (λ x. (sender, x)) before) ++ (sender, i) ∷ map (λ x. (sender, x)) after
listed sender inits before after i old db known entries =
    ap (λ l. old ++ map (λ x. (sender, x)) l) (all_before inits db known ∙ entries)
    ∙ ap (λ l. old ++ l) (map-append (λ x. (sender, x)) before (i ∷ after))
    ∙ sym (
        append_assoc old (map (λ x. (sender, x)) before)
          ((sender, i) ∷ map (λ x. (sender, x)) after))

-- a pending session of the entry `i`, which its recipient confirms with success
abbrev pub Confirms : Devices → SessionInit → Devices → World → Type 0
Confirms sender i device v =
    (p : PendingSession) × (handed p ≡ (sender.id, i))
    × ((confirm_session device (asks p) v).0 ≡ ok (respond 201 (status "session confirmed")))
    × (exists_where (is_session p.sender_device_id p.recipient_device_id)
          (confirm_session device (asks p) v).1.db.sessions
        ≡ true)

-- Each entry of a session creation for users of this node becomes a pending session that its
-- recipient can confirm: the confirmation answers 201 and the session between the two devices is
-- there. The recipients of the creation are known, it is not for the sender's own user, the devices
-- belong to two users, the ids that are drawn are new and the database answers.
pub created_is_confirmed :
    (state : AppState) (sender device : Devices) (payload : CreateSessionBody)
    (before after : List SessionInit) (i : SessionInit) (w : World)
    → remote_target state payload.recipient_user_address ≡ none
    → (sender.user_id == payload.recipient_user_id) ≡ false
    → Ready sender.id (record w { calls = suc w.calls })
    → all_exist payload.sessions_init w.db ≡ true
    → payload.sessions_init ≡ before ++ i ∷ after
    → i.recipient_device_id ≡ device.id
    → TwoDevices sender.id i.recipient_device_id w
    → Confirms sender i device (create_session state sender payload w).1
unfolding create_session
created_is_confirmed state sender device payload before after i w here not_self r known entries mine
      d =
    let v : World = (create_session state sender payload w).1 in
    let local : create_session state sender payload w ≡ create_local_session sender payload w =
      ap (λ o. create_or_forward state sender payload o w) here in
    let same : SameOthers w.db v.db =
      subst (λ (x : Result Response Response × World). SameOthers w.db x.1.db) (sym local)
        ((create_local-SameOthers w.db sender payload).at w refl) in
    let env : v.env ≡ w.env =
      subst (λ (x : Result Response Response × World). x.1.env ≡ w.env) (sym local)
        ((create_local-Runs sender payload).at w).same_env in
    let made = create_session-Created state sender payload w here not_self r in
    let (p, says, there) =
      handed-exists sender.id i v.db.pending_sessions
        (map handed w.db.pending_sessions ++ map (λ x. (sender.id, x)) before)
        (map (λ x. (sender.id, x)) after)
        (made.1
          ∙ listed sender.id payload.sessions_init before after i (map handed w.db.pending_sessions)
              w.db known entries) in
    let two : TwoDevices p.sender_device_id p.recipient_device_id v =
      TwoDevices-moved p.sender_device_id p.recipient_device_id w v same env (
        subst (λ (x : Uuid × SessionInit). TwoDevices x.0 x.1.recipient_device_id w) (sym says)
          d) in
    let c =
      confirmable device p v (λ n. subst (λ (e : Env). e.fault n ≡ fine) (sym env) (r.no_fault n))
        (ap (λ (x : Uuid × SessionInit). x.1.recipient_device_id) says ∙ mine) two there in
    let (answer, stored) = any_two_devices device (asks p) v c in (p, says, answer, stored)
