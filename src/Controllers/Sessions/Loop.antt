-- ===== src/Controllers/Sessions/Loop.antt =====
-- The loop of create_session in src/controllers/session_controller.rs, run forward.
use hush_net_backend.Prelude.{
  ℕ, suc, Bool, ◌≤◌, ◌<◌, true, false, ◌&&◌, ◌≡◌, refl, sym, ap, ◌∙◌, List, [], ◌∷◌, ◌++◌, map,
  map-append, append-nil, append_assoc, ◌==◌, if◌then◌else◌, Bool-cases, inl, inr, exists_where,
  exists_where-append, arith,
}
use hush_net_backend.Models.{Uuid, PendingSession}
use hush_net_backend.Store.{
  Db, World, ok, err, Statement, Call, foreign_key_violation, fine, call_of, query,
}
use hush_net_backend.Store.Inversion.{query_fine}
use hush_net_backend.Store.Forward.{bind_step, bind_stop, map_err_step, map_err_stop, pure_run}
use hush_net_backend.Repository.Shadow.{device_exists}
use hush_net_backend.Repository.Sessions.{
  new_pending, notices, user_of_device, pending_statement, create_pending_session,
}
use hush_net_backend.Controllers.Sessions.{SessionInit, failed_with, create_all}

-- what a pending session says, without its id and its time
abbrev pub handed : PendingSession → Uuid × SessionInit
handed p = (
  p.sender_device_id,
  record {
    recipient_device_id = p.recipient_device_id;
    ephemeral_pubkey = p.ephemeral_pubkey;
    sender_prekey_pub = p.sender_prekey_pub;
    otpk_used = p.otpk_used;
    ciphertext = p.ciphertext;
  },
)

abbrev pub all_exist : List SessionInit → Db → Bool
all_exist [] db = true
all_exist (i ∷ inits) db =
    let rest = all_exist inits db in device_exists i.recipient_device_id db && rest

-- the entries before the first one whose recipient is not known
abbrev pub before_unknown : List SessionInit → Db → List SessionInit
before_unknown [] db = []
before_unknown (i ∷ inits) db =
    let rest = before_unknown inits db in
    if device_exists i.recipient_device_id db then i ∷ rest else []

-- The database answers, the sender's device is known, and the ids that are drawn are new.
pub record Ready (sender : Uuid) (w : World) : Type 0 where
  pub no_fault : (i : ℕ) → w.env.fault i ≡ fine
  pub known : device_exists sender w.db ≡ true
  pub fresh :
      (i : ℕ)
      → w.calls ≤ i
      → exists_where (λ p. p.id == w.env.new_id i) w.db.pending_sessions ≡ false
  pub distinct : (i j : ℕ) → i < j → (w.env.new_id i == w.env.new_id j) ≡ false

-- INSERT INTO pending_sessions for one entry of the body
abbrev insertion : Uuid → SessionInit → Statement (Unit {0})
insertion sender i =
    pending_statement sender i.recipient_device_id i.ephemeral_pubkey i.sender_prekey_pub
      i.otpk_used i.ciphertext

abbrev row_of : Uuid → SessionInit → Call → PendingSession
row_of sender i c =
    new_pending sender i.recipient_device_id i.ephemeral_pubkey i.sender_prekey_pub i.otpk_used
      i.ciphertext c

abbrev inserted : Uuid → SessionInit → World → World
inserted sender i w = record w {
  db = record w.db {
    pending_sessions = w.db.pending_sessions ++ row_of sender i (call_of w) ∷ [];
    notified =
        w.db.notified
        ++ notices "pending_sessions_channel" "pending_session"
            (user_of_device i.recipient_device_id w.db);
  };
  calls = suc w.calls;
}

module _ (sender : Uuid) (i : SessionInit) (w : World) where
  insert_run :
      Ready sender w
      → device_exists i.recipient_device_id w.db ≡ true
      → query (insertion sender i) w ≡ (ok tt, inserted sender i w)
  unfolding pending_statement
  insert_run r h =
      query_fine (insertion sender i) w (r.no_fault w.calls)
      ∙ rw (r.fresh w.calls (omega arith), r.known, h) refl

  insert_refused :
      Ready sender w
      → device_exists i.recipient_device_id w.db ≡ false
      → query (insertion sender i) w ≡ (err foreign_key_violation, record w { calls = suc w.calls })
  unfolding pending_statement
  insert_refused r h =
      query_fine (insertion sender i) w (r.no_fault w.calls)
      ∙ rw (r.fresh w.calls (omega arith), r.known, h) refl

  inserted-Ready : Ready sender w → Ready sender (inserted sender i w)
  inserted-Ready r = record {
    no_fault = r.no_fault;
    known = r.known;
    fresh = λ j le.
        exists_where-append (λ p. p.id == w.env.new_id j) w.db.pending_sessions
          (row_of sender i (call_of w) ∷ [])
        ∙ rw (r.fresh j (omega arith), r.distinct w.calls j (omega arith)) refl;
    distinct = r.distinct;
  }

-- What the loop over `inits` answers and leaves.
pub record LoopEnds (sender : Uuid) (inits : List SessionInit) (w u : World) : Type 0 where
  pub runs : create_all sender inits w ≡ (
    if all_exist inits w.db
        then ok tt
        else err (failed_with "Failed to insert pending session" foreign_key_violation),
    u,
  )
  pub contents :
      map handed u.db.pending_sessions
      ≡ map handed w.db.pending_sessions ++ map (λ i. (sender, i)) (before_unknown inits w.db)
  pub no_fault : (i : ℕ) → u.env.fault i ≡ fine

-- A new pending session changes no device.
all_exist-inserted :
    (sender : Uuid) (i : SessionInit) (w : World) (inits : List SessionInit)
    → all_exist inits (inserted sender i w).db ≡ all_exist inits w.db
all_exist-inserted sender i w [] = refl
all_exist-inserted sender i w (x ∷ inits) =
    ap (λ b. device_exists x.recipient_device_id w.db && b) (all_exist-inserted sender i w inits)

before_unknown-inserted :
    (sender : Uuid) (i : SessionInit) (w : World) (inits : List SessionInit)
    → before_unknown inits (inserted sender i w).db ≡ before_unknown inits w.db
before_unknown-inserted sender i w [] = refl
before_unknown-inserted sender i w (x ∷ inits) =
    ap (λ l. if device_exists x.recipient_device_id w.db then x ∷ l else [])
      (before_unknown-inserted sender i w inits)

pub create_all_run :
    (sender : Uuid) (inits : List SessionInit) (w : World)
    → Ready sender w
    → (u : World) × LoopEnds sender inits w u
unfolding create_all create_pending_session
create_all_run sender [] w r = (
  w,
  record {
    runs = pure_run tt w;
    contents = sym (append-nil (map handed w.db.pending_sessions));
    no_fault = r.no_fault;
  },
)
create_all_run sender (i ∷ inits) w r =
    elim (Bool-cases (device_exists i.recipient_device_id w.db)) [
      | inl known ↦
          let w1 = inserted sender i w in
          let (u, ends) = create_all_run sender inits w1 (inserted-Ready sender i w r) in
          (
            u,
            record {
              runs =
                  bind_step _ _ (map_err_step _ _ (insert_run sender i w r known))
                  ∙ ends.runs
                  ∙ rw (all_exist-inserted sender i w inits, known) refl;
              contents =
                  ends.contents
                  ∙ rw (before_unknown-inserted sender i w inits, known)
                      (ap (λ l. l ++ map (λ x. (sender, x)) (before_unknown inits w.db))
                          (map-append handed w.db.pending_sessions
                            (row_of sender i (call_of w) ∷ []))
                        ∙ append_assoc (map handed w.db.pending_sessions) ((sender, i) ∷ [])
                            (map (λ x. (sender, x)) (before_unknown inits w.db)));
              no_fault = ends.no_fault;
            },
          )
      | inr unknown ↦ (
        record w { calls = suc w.calls },
        record {
          runs =
              bind_stop _ _ (map_err_stop _ _ (insert_refused sender i w r unknown))
              ∙ rw unknown refl;
          contents = rw unknown (sym (append-nil (map handed w.db.pending_sessions)));
          no_fault = r.no_fault;
        },
      )
    ]
