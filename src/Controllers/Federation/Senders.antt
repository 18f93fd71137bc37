-- ===== src/Controllers/Federation/Senders.antt =====
-- receive_session and receive_messages of src/controllers/federation_controller.rs, and the node that
-- delivers.
use hush_net_backend.Prelude.{suc, String, ◌≡◌, refl, sym, subst, ap, some, find_where}
use hush_net_backend.Models.{Uuid, UserRow, FederationNode, S2sSessionPayload, S2sMessagePayload}
use hush_net_backend.Store.{Db, World, Result, SqlError, Call, query, answered, call_of}
use hush_net_backend.Store.Forward.{bind_cong, bind_first, map_err_first}
use hush_net_backend.Store.Keeps.{Keeps, Keeps-query, keeps_rules}
use hush_net_backend.Web.{Response, respond, error}
use hush_net_backend.Repository.Shadow.{
  has_address, shadow_user_statement, upsert_shadow_user, get_local_user_id_by_username,
}
use hush_net_backend.Controllers.Peers.{internal}
use hush_net_backend.Controllers.Federation.{
  local_user_or, shadow_sender, receive_session, receive_messages,
}

looked_up-Keeps :
    (old : Db) (name : String) → Keeps (λ db. db ≡ old) (get_local_user_id_by_username name)
unfolding get_local_user_id_by_username
looked_up-Keeps old name = Keeps-query _ (λ c db h. h)

local_user_or-Keeps :
    (old : Db) (missing : Response) (name : String)
    → Keeps (λ db. db ≡ old) (local_user_or missing name)
unfolding local_user_or
local_user_or-Keeps old missing name = search (keeps_rules, looked_up-Keeps)

-- the node that a known user is said to live at is not looked at
statement-same :
    (name address : String) (home home' : Uuid) (row : UserRow) (c : Call) (db : Db)
    → find_where (has_address address) db.users ≡ some row
    → shadow_user_statement name address home c db ≡ shadow_user_statement name address home' c db
unfolding shadow_user_statement
statement-same name address home home' row c db h = rw (h, shadow_user_statement) refl

upsert-same :
    (name address : String) (home home' : Uuid) (row : UserRow) (w : World)
    → find_where (has_address address) w.db.users ≡ some row
    → upsert_shadow_user name address home w ≡ upsert_shadow_user name address home' w
unfolding upsert_shadow_user query
upsert-same name address home home' row w h =
    ap
      (λ (x : Result SqlError Uuid × Db).
        let (r, db) = answered (w.env.fault w.calls) x w.db in
        (r, record w { db = db; calls = suc w.calls }))
      (statement-same name address home home' row (call_of w) w.db h)

module _ (peer peer' : FederationNode) (w : World) (row : UserRow) where
  sessions-same :
      (session : S2sSessionPayload)
      → find_where (has_address session.from_federated_address) w.db.users ≡ some row
      → receive_session peer session w ≡ receive_session peer' session w
  unfolding receive_session shadow_sender
  sessions-same session h = bind_first _ _ _ (
      bind_first _ _ _ (
        map_err_first _ _ internal
          (upsert-same _ session.from_federated_address peer.id peer'.id row w h)))

  messages-same :
      (payload : S2sMessagePayload)
      → find_where (has_address payload.from_federated_address) w.db.users ≡ some row
      → receive_messages peer payload w ≡ receive_messages peer' payload w
  unfolding receive_messages
  messages-same payload h = bind_cong (local_user_or not_here payload.to_user) _ _ w (λ id.
      bind_first _ _ _ (
        map_err_first _ _ internal (
          upsert-same _ payload.from_federated_address peer.id peer'.id row
            (local_user_or not_here payload.to_user w).1
            (subst
              (λ (db : Db).
                find_where (has_address payload.from_federated_address) db.users ≡ some row)
              (sym ((local_user_or-Keeps w.db not_here payload.to_user).at w refl)) h))))
    where
      not_here : Response
      not_here = respond 404 (error "recipient not found or not local to this node")

-- For a sender that the node has seen, it makes no difference which node delivers: a session and a
-- message in the sender's name do and answer the same for each two authenticated peers, whatever
-- faults the database has.
pub any_peer_speaks :
    (peer peer' : FederationNode) (w : World) (row : UserRow) (session : S2sSessionPayload)
    (payload : S2sMessagePayload)
    → session.from_federated_address ≡ payload.from_federated_address
    → find_where (has_address payload.from_federated_address) w.db.users ≡ some row
    → (receive_session peer session w ≡ receive_session peer' session w)
      × (receive_messages peer payload w ≡ receive_messages peer' payload w)
any_peer_speaks peer peer' w row session payload same h = (
  sessions-same peer peer' w row session
      (subst (λ a. find_where (has_address a) w.db.users ≡ some row) (sym same) h),
  messages-same peer peer' w row payload h,
)
