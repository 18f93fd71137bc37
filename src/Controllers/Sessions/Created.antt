-- ===== src/Controllers/Sessions/Created.antt =====
-- create_local_session of src/controllers/session_controller.rs, run forward.
use hush_net_backend.Prelude.{
  suc, false, ◌≡◌, refl, sym, subst, none, ◌∙◌, ◌++◌, map, ◌==◌, if◌then◌else◌, Bool-cases, inl,
  inr,
}
use hush_net_backend.Models.{Devices}
use hush_net_backend.Store.{World, Result, ok, err, foreign_key_violation}
use hush_net_backend.Store.Inversion.{query_fine}
use hush_net_backend.Store.Forward.{bind_step, bind_stop, throw_if_step, map_err_step, pure_run}
use hush_net_backend.Controllers.Messages.{remote_target}
use hush_net_backend.Web.{AppState, Response, respond, plain, status}
use hush_net_backend.Controllers.Sessions.{
  CreateSessionBody, failed_with, create_or_forward, create_session, transaction_statement,
  create_local_session,
}
use hush_net_backend.Controllers.Sessions.Loop.{
  handed, all_exist, before_unknown, Ready, create_all_run,
}

module _ (sender : Devices) (payload : CreateSessionBody) (w : World) where
  -- the answer, and the pending sessions in front of the first unknown recipient
  abbrev pub Created : Result Response Response × World → Type 0
  Created x =
      (x.0 ≡ (
        if all_exist payload.sessions_init w.db
        then ok (respond 201 (status "ok"))
        else err (respond 500 (plain "Failed to insert pending session"))))
      × (map handed x.1.db.pending_sessions
          ≡ map handed w.db.pending_sessions
            ++ map (λ i. (sender.id, i)) (before_unknown payload.sessions_init w.db))

  create_local_session-Created :
      (sender.user_id == payload.recipient_user_id) ≡ false
      → Ready sender.id (record w { calls = suc w.calls })
      → Created (create_local_session sender payload w)
  unfolding create_local_session transaction_statement
  create_local_session-Created other r =
      let w1 : World = record w { calls = suc w.calls } in
      let (u, ends) = create_all_run sender.id payload.sessions_init w1 r in
      let refused = failed_with "Failed to insert pending session" foreign_key_violation in
      let begins =
        throw_if_step (respond 400 (plain "Cannot create session with self")) _ w other
        ∙ bind_step _ _
            (map_err_step _ _ (query_fine transaction_statement w (r.no_fault w.calls))) in
      elim (Bool-cases (all_exist payload.sessions_init w.db)) [
        | inl known ↦
            subst Created
              (sym (
                begins
                ∙ bind_step _ _ (ends.runs ∙ rw known refl)
                ∙ bind_step _ _
                    (map_err_step _ _ (query_fine transaction_statement u (ends.no_fault u.calls)))
                ∙ pure_run (respond 201 (status "ok")) (record u { calls = suc u.calls })))
              (rw known refl, ends.contents)
        | inr unknown ↦
            subst Created
              (sym (begins ∙ bind_stop _ {u = u} {e = refused} _ (ends.runs ∙ rw unknown refl)))
              (rw unknown refl, ends.contents)
      ]

-- A session creation for users of this node, not for the sender's own, stores the entries of its
-- body in their order, up to the first one whose recipient is not known: it answers 201 where there
-- is none, and 500 otherwise, with the entries before it stored all the same; the database answers,
-- the sender's device is known and the ids are new.
pub create_session-Created :
    (state : AppState) (sender : Devices) (payload : CreateSessionBody) (w : World)
    → remote_target state payload.recipient_user_address ≡ none
    → (sender.user_id == payload.recipient_user_id) ≡ false
    → Ready sender.id (record w { calls = suc w.calls })
    → Created sender payload w (create_session state sender payload w)
unfolding create_session
create_session-Created state sender payload w here other r =
    subst (λ o. Created sender payload w (create_or_forward state sender payload o w)) (sym here)
      (create_local_session-Created sender payload w other r)
