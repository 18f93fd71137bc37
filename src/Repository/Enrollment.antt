-- ===== src/Repository/Enrollment.antt =====
-- src/repository/enrollment_token_repository.rs
use hush_net_backend.Prelude.{String, Bool, [], ◌∷◌, ◌++◌, str_eq, if◌then◌else◌, exists_where}
use hush_net_backend.Store.{UsedToken, ok, Exec, Statement, SqlError, query}

abbrev pub is_token : String → UsedToken → Bool
is_token token t = str_eq t.token token

unfoldable pub enrollment_token_exists : String → Exec SqlError Bool
enrollment_token_exists token =
    query (λ c db. (ok (exists_where (is_token token) db.used_tokens), db))

-- INSERT … ON CONFLICT (token) DO NOTHING
unfoldable pub add_token_statement : String → Statement (Unit {0})
add_token_statement token c db =
    if exists_where (is_token token) db.used_tokens then (ok tt, db) else (
      ok tt,
      record db { used_tokens = db.used_tokens ++ record { token = token; used_at = c.now } ∷ [] },
    )

unfoldable pub add_used_token : String → Exec SqlError (Unit {0})
add_used_token token = query (add_token_statement token)
