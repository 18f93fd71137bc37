-- ===== src/Federation/Outbox/Retries.antt =====
-- What becomes of the one row of an outbox while no peer takes it: the rounds of the worker of
-- src/federation/outbox.rs.
use hush_net_backend.Prelude.{
  ℕ, zero, suc, ◌+◌, ◌<◌, ◌⊎◌, true, ◌≡◌, some, List, [], ◌∷◌, leb, if◌then◌else◌,
}
use hush_net_backend.Models.{FederationOutboxEntry, S2sMessagePayload, failed}
use hush_net_backend.Store.{World, SqlError}
use hush_net_backend.Store.Runs.{Later}
use hush_net_backend.Store.Inversion.{after}
use hush_net_backend.Web.{AppState}
use hush_net_backend.Repository.Federation.{is_due, purge_statement, set_failed, set_retry}
use hush_net_backend.Federation.Outbox.{round}
use hush_net_backend.Federation.Outbox.Failed.{Isolated, Failed}

-- the row after its `n`-th failure
abbrev outcome : ℕ → ℕ → FederationOutboxEntry → FederationOutboxEntry
outcome n t = if leb 10 n then set_failed n t else set_retry n t

-- The row is due when a round that begins now looks for due rows, which is its second statement.
abbrev pub Due : World → FederationOutboxEntry → Type 0
Due w e = is_due (w.env.db_now (suc w.calls)) e ≡ true

-- the outbox has the one row `e`
abbrev pub OnlyRow : World → FederationOutboxEntry → Type 0
OnlyRow w e = w.db.federation_outbox ≡ e ∷ []

-- the world in which a round has fetched what is due
abbrev fetched : World → World
fetched w = let u = after purge_statement w in record u { calls = suc u.calls }

-- `k` rounds of the worker that find the row due, with whatever the node does in between that leaves
-- the outbox alone.
pub data Rounds (state : AppState) : ℕ → World → World → Type 0 where
  ends : {w : World} → Rounds state zero w w
  meanwhile :
      {k : ℕ} {w u v : World}
      → Later w u
      → u.db.federation_outbox ≡ w.db.federation_outbox
      → Rounds state k u v
      → Rounds state k w v
  works :
      {k : ℕ} {w v : World} (e : FederationOutboxEntry)
      → OnlyRow w e
      → Due w e
      → Rounds state k (round {E = SqlError} state w).1 v
      → Rounds state (suc k) w v

-- The row was given up after ten attempts.
abbrev pub GivenUp : World → Type 0
GivenUp w = (e : FederationOutboxEntry) × OnlyRow w e × (e.status ≡ failed) × (e.attempt_count ≡ 10)

-- the row of the outbox, with `k` attempts left
record Left (k : ℕ) (payload : S2sMessagePayload) (w : World) : Type 0 where
  entry : FederationOutboxEntry
  only : OnlyRow w entry
  alone : Isolated w.env
  decodes : w.env.message_of_value entry.payload ≡ some payload
  count : entry.attempt_count + k ≡ 10
  over : (entry.status ≡ failed) ⊎ (0 < k)
