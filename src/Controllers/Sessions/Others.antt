-- ===== src/Controllers/Sessions/Others.antt =====
-- What create_session of src/controllers/session_controller.rs leaves alone.
use hush_net_backend.Prelude.{String, ◌≡◌, List, [], ◌∷◌, arith}
use hush_net_backend.Models.{Uuid, Devices}
use hush_net_backend.Store.{Db, query}
use hush_net_backend.Store.Keeps.{Keeps, KeepsDb, Keeps-query, Keeps-bind, keeps_rules}
use hush_net_backend.Store.Runs.{Runs, Runs-bind, runs_rules}
use hush_net_backend.Repository.Sessions.{pending_statement, create_pending_session}
use hush_net_backend.Controllers.Sessions.{
  SessionInit, CreateSessionBody, transaction_statement, create_all, create_local_session,
}

-- the tables without the pending sessions and the notifications
abbrev others : Db → Db
others db = record db { pending_sessions = []; notified = [] }

abbrev pub SameOthers : Db → Db → Type 0
SameOthers old db = others db ≡ others old

module _ (old : Db) where
  pending-SameOthers :
      (a b : Uuid) (s t u v : String) → KeepsDb (SameOthers old) (pending_statement a b s t u v)
  unfolding pending_statement
  pending-SameOthers a b s t u v c db h = ground arith

  insert-SameOthers :
      (a b : Uuid) (s t u v : String) → Keeps (SameOthers old) (create_pending_session a b s t u v)
  unfolding create_pending_session
  insert-SameOthers a b s t u v = Keeps-query _ (pending-SameOthers a b s t u v)

  transaction-SameOthers : Keeps (SameOthers old) (query transaction_statement)
  unfolding transaction_statement
  transaction-SameOthers = Keeps-query _ (λ c db h. h)

  create_all-SameOthers :
      (sender : Uuid) (inits : List SessionInit) → Keeps (SameOthers old) (create_all sender inits)
  unfolding create_all
  create_all-SameOthers sender [] = search keeps_rules
  create_all-SameOthers sender (i ∷ inits) =
      Keeps-bind _ _ (search (keeps_rules, insert-SameOthers))
        (λ done. create_all-SameOthers sender inits)

  pub create_local-SameOthers :
      (sender : Devices) (payload : CreateSessionBody)
      → Keeps (SameOthers old) (create_local_session sender payload)
  unfolding create_local_session
  create_local-SameOthers sender payload =
      search (keeps_rules, transaction-SameOthers, create_all-SameOthers) depth 12

create_all-Runs : (sender : Uuid) (inits : List SessionInit) → Runs (create_all sender inits)
unfolding create_all create_pending_session
create_all-Runs sender [] = search runs_rules
create_all-Runs sender (i ∷ inits) =
    Runs-bind _ _ (search runs_rules) (λ done. create_all-Runs sender inits)

pub create_local-Runs :
    (sender : Devices) (payload : CreateSessionBody) → Runs (create_local_session sender payload)
unfolding create_local_session
create_local-Runs sender payload = search (runs_rules, create_all-Runs) depth 12
