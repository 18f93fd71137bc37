-- ===== src/Controllers/Federation/Clash.antt =====
-- receive_session and receive_messages of src/controllers/federation_controller.rs, for a new sender
-- whose name is taken.
use hush_net_backend.Prelude.{
  suc, String, true, ◌≡◌, sym, subst, ap, ◌∙◌, none, some, str_eq, exists_where, find_where, arith,
}
use mathlib.Core.Option
use hush_net_backend.Models.{Uuid, UserRow, FederationNode, S2sSessionPayload, S2sMessagePayload}
use hush_net_backend.Store.{
  Db, World, Result, ok, err, Call, SqlError, unique_violation, fine, query, ok_or, call_of,
}
use hush_net_backend.Store.Inversion.{query_fine}
use hush_net_backend.Store.Forward.{bind_step, bind_stop, map_err_step, map_err_stop, ok_or_run}
use hush_net_backend.Web.{Response, respond, error}
use hush_net_backend.Repository.Shadow.{
  has_address, is_local_user, shadow_user_statement, upsert_shadow_user,
  get_local_user_id_by_username,
}
use hush_net_backend.Controllers.Peers.{internal}
use hush_net_backend.Controllers.Federation.{
  sender_username, local_user_or, shadow_sender, receive_session, receive_messages,
}

-- No user has the sender's address, and some user of this or of a third node has its name.
pub record Clash (address : String) (db : Db) : Type 0 where
  pub new_sender : find_where (has_address address) db.users ≡ none
  pub taken : exists_where (λ u. str_eq u.username (sender_username address)) db.users ≡ true

statement-refused :
    (address : String) (home : Uuid) (c : Call) (db : Db)
    → Clash address db
    → shadow_user_statement (sender_username address) address home c db ≡ (err unique_violation, db)
unfolding shadow_user_statement
statement-refused address home c db h = ground (arith, h.new_sender, h.taken)

upsert-refused :
    (address : String) (home : Uuid) (w : World)
    → w.env.fault w.calls ≡ fine
    → Clash address w.db
    → upsert_shadow_user (sender_username address) address home w
      ≡ (err unique_violation, record w { calls = suc w.calls })
unfolding upsert_shadow_user
upsert-refused address home w up h =
    query_fine (shadow_user_statement (sender_username address) address home) w up
    ∙ ap (λ (x : Result SqlError Uuid × Db). (x.0, record w { db = x.1; calls = suc w.calls }))
        (statement-refused address home (call_of w) w.db h)

found_local :
    (missing : Response) (name : String) (w : World) (u : UserRow)
    → w.env.fault w.calls ≡ fine
    → find_where (is_local_user name) w.db.users ≡ some u
    → local_user_or missing name w ≡ (ok u.id, record w { calls = suc w.calls })
unfolding local_user_or get_local_user_id_by_username
found_local missing name w u up h =
    bind_step _ (λ found. ok_or found missing) (map_err_step (query _) internal (query_fine _ w up))
    ∙ ok_or_run missing _ (ap (Option.map (λ (x : UserRow). x.id)) h)

-- A remote sender that this node has not seen, and whose name a user of this or of a third node
-- has, is shut out: sessions and messages of the sender are answered with 500 and store nothing,
-- whoever delivers them, where the database answers and the recipient of the message is local.
pub taken_name_shuts_out :
    (peer : FederationNode) (session : S2sSessionPayload) (payload : S2sMessagePayload) (w : World)
    (u : UserRow)
    → w.env.fault w.calls ≡ fine
    → w.env.fault (suc w.calls) ≡ fine
    → session.from_federated_address ≡ payload.from_federated_address
    → Clash payload.from_federated_address w.db
    → find_where (is_local_user payload.to_user) w.db.users ≡ some u
    → (receive_session peer session w
        ≡ (err (respond 500 (error "internal error")), record w { calls = suc w.calls }))
      × (receive_messages peer payload w
          ≡ (err (respond 500 (error "internal error")), record w { calls = suc (suc w.calls) }))
unfolding receive_session shadow_sender receive_messages
taken_name_shuts_out peer session payload w u up up' same clash known = (
  bind_stop _ _ (
      bind_stop _ _ (
        map_err_stop _ _ (
          upsert-refused session.from_federated_address peer.id w up
            (subst (λ a. Clash a w.db) (sym same) clash)))),
  bind_step _ _ (found_local _ payload.to_user w u up known)
      ∙ bind_stop _ _ (
          map_err_stop _ _ (
            upsert-refused payload.from_federated_address peer.id (record w { calls = suc w.calls })
              up' clash)),
)
