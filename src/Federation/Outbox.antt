-- ===== src/Federation/Outbox.antt =====
-- src/federation/outbox.rs: the worker that retries the queued messages.
pub mod Budget
pub mod Failed
pub mod Retries
pub mod Tasks
use hush_net_backend.Prelude.{ℕ, ◌+◌, Option, none, some, List, [], ◌∷◌}
use hush_net_backend.Models.{FederationOutboxEntry, FederationNode, S2sMessagePayload, S2sAck}
use hush_net_backend.Store.{
  ◌>>=◌, ◌>>◌, Exec, Result, ok, err, SqlError, pure, gets, attempt, ignore,
}
use hush_net_backend.Web.{AppState, ClientError}
use hush_net_backend.Repository.Federation.{
  get_federation_node, purge_expired_nonces, fetch_due_outbox_entries, mark_outbox_delivered,
  record_outbox_failure,
}
use hush_net_backend.Federation.Client.{FederationClient, forward_messages}

abbrev pub max_attempts : ℕ
max_attempts = 10

abbrev pub client_of : AppState → FederationClient
client_of state = record { node_keys = state.node_keys; this_node_id = state.this_node_id }

module _ {E : Type 0} where
  abbrev pub after_forward : FederationOutboxEntry → Result ClientError S2sAck → Exec E (Unit {0})
  after_forward entry (ok ack) = ignore (mark_outbox_delivered entry.id)
  after_forward entry (err e) =
      ignore (record_outbox_failure entry.id (entry.attempt_count + 1) max_attempts)

  abbrev pub deliver_to :
      AppState
      → FederationOutboxEntry
      → S2sMessagePayload
      → Result SqlError (Option FederationNode)
      → Exec E (Unit {0})
  deliver_to state entry payload (err e) = pure tt
  deliver_to state entry payload (ok none) =
      ignore (record_outbox_failure entry.id (entry.attempt_count + 1) max_attempts)
  deliver_to state entry payload (ok (some node)) = do
    result ← attempt (forward_messages (client_of state) node.api_url payload)
    after_forward entry result

  unfoldable pub deliver :
      AppState → FederationOutboxEntry → Option S2sMessagePayload → Exec E (Unit {0})
  deliver state entry none = ignore (record_outbox_failure entry.id max_attempts max_attempts)
  deliver state entry (some payload) = do
    node ← attempt (get_federation_node entry.target_node_id)
    deliver_to state entry payload node

  -- the task that the worker spawns for one due entry
  unfoldable pub deliver_entry : AppState → FederationOutboxEntry → Exec E (Unit {0})
  unfolding deliver
  deliver_entry state entry = do
    env ← gets (λ w. w.env)
    deliver state entry (env.message_of_value entry.payload)

  -- the tasks of one round, here one after the other
  unfoldable pub deliver_all : AppState → List FederationOutboxEntry → Exec E (Unit {0})
  deliver_all state [] = pure tt
  deliver_all state (entry ∷ entries) = do deliver_entry state entry; deliver_all state entries

  abbrev pub spawn_all : AppState → Result SqlError (List FederationOutboxEntry) → Exec E (Unit {0})
  spawn_all state (err e) = pure tt
  spawn_all state (ok entries) = deliver_all state entries

  -- one round of the loop in `run`
  unfoldable pub round : AppState → Exec E (Unit {0})
  round state = do
    ignore purge_expired_nonces
    entries ← attempt fetch_due_outbox_entries
    spawn_all state entries
