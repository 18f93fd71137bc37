-- ===== src/Store/Sql.antt =====
-- One SQL statement, and what running it through the connection pool gives.
use hush_net_backend.Prelude.{suc, String, Option, none, some, List, [], ◌∷◌}
use hush_net_backend.Models.{Uuid, Timestamp}
use hush_net_backend.Store.Tables.{Db}
use hush_net_backend.Store.Outside.{World, Fault, fine, refused, lost}
use hush_net_backend.Store.Action.{Result, ok, err, Exec}

-- sqlx::Error: a violation that the server reports by its code, no row for `fetch_one`, a column
-- that does not decode, and a failure of the connection.
pub data SqlError : Type 0 where
  database : (code : String) → SqlError
  row_not_found : SqlError
  column_decode : SqlError
  connection : SqlError

abbrev pub unique_violation : SqlError
unique_violation = database "23505"

abbrev pub foreign_key_violation : SqlError
foreign_key_violation = database "23503"

abbrev pub check_violation : SqlError
check_violation = database "23514"

abbrev pub not_null_violation : SqlError
not_null_violation = database "23502"

-- What the server supplies to a statement: NOW() and one gen_random_uuid().
pub record Call : Type 0 where
  pub now : Timestamp
  pub new_id : Uuid

abbrev pub Statement : Type 0 → Type 0
Statement A = Call → Db → Result SqlError A × Db

-- A statement that fails changes nothing.
abbrev pub fail : {A : Type 0} → SqlError → Statement A
fail e c db = (err e, db)

abbrev pub answered : {A : Type 0} → Fault → Result SqlError A × Db → Db → Result SqlError A × Db
answered fine (r, db') db = (r, db')
answered refused (r, db') db = (err connection, db)
answered lost (r, db') db = (err connection, db')

abbrev pub call_of : World → Call
call_of w = record { now = w.env.db_now w.calls; new_id = w.env.new_id w.calls }

-- `.execute(pool).await`, `.fetch_one(pool).await`, …
unfoldable pub query : {A : Type 0} → Statement A → Exec SqlError A
query s w =
    let (r, db') = answered (w.env.fault w.calls) (s (call_of w) w.db) w.db in
    (r, record w { db = db'; calls = suc w.calls })

-- fetch_one of a query that finds at most one row
abbrev pub fetch_one : {A : Type 0} → Option A → Result SqlError A
fetch_one none = err row_not_found
fetch_one (some a) = ok a

abbrev pub head? : {A : Type 0} → List A → Option A
head? [] = none
head? (x ∷ xs) = some x
