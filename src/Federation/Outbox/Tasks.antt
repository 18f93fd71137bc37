-- ===== src/Federation/Outbox/Tasks.antt =====
-- The tasks that the worker of src/federation/outbox.rs spawns, one awaited call at a time, and how
-- they interleave with each other, with later rounds and with the handlers.
pub mod Interleaved
pub mod Late
use hush_net_backend.Prelude.{
  ◌+◌, ◌≡◌, String, Option, none, some, List, [], ◌∷◌, ◌++◌, map, zero, suc, ℕ,
}
use hush_net_backend.Models.{
  Uuid, Value, FederationOutboxEntry, FederationNode, S2sMessagePayload, S2sAck,
}
use hush_net_backend.Store.{
  World, Exec, Result, ok, err, SqlError, pure, gets, attempt, ignore, ◌>>=◌, ◌>>◌,
}
use hush_net_backend.Web.{AppState, ClientError}
use hush_net_backend.Repository.Federation.{
  get_federation_node, fetch_due_outbox_entries, enqueue_outbox, mark_outbox_delivered,
  mark_outbox_delivered_by_logical_id, record_outbox_failure,
}
use hush_net_backend.Federation.Client.{forward_messages}
use hush_net_backend.Federation.Outbox.{max_attempts, client_of}

-- Where a task stands: it holds the row as it was fetched, knows the peer, is about to record that
-- the peer took the message, or is about to record a failure, with the attempts counted so far.
pub data Task : Type 0 where
  fetched : FederationOutboxEntry → Task
  located : FederationOutboxEntry → S2sMessagePayload → FederationNode → Task
  marking : FederationOutboxEntry → Task
  failing : FederationOutboxEntry → ℕ → Task

abbrev after_answer : FederationOutboxEntry → Result ClientError S2sAck → Option Task
after_answer entry (ok ack) = some (marking entry)
after_answer entry (err e) = some (failing entry (entry.attempt_count + 1))

module _ {E : Type 0} where
  abbrev after_lookup :
      FederationOutboxEntry
      → S2sMessagePayload
      → Result SqlError (Option FederationNode)
      → Exec E (Option Task)
  after_lookup entry payload (err e) = pure none
  after_lookup entry payload (ok none) = pure (some (failing entry (entry.attempt_count + 1)))
  after_lookup entry payload (ok (some node)) = pure (some (located entry payload node))

  abbrev look_up : FederationOutboxEntry → Option S2sMessagePayload → Exec E (Option Task)
  look_up entry none = pure (some (failing entry max_attempts))
  look_up entry (some payload) = do
    node ← attempt (get_federation_node entry.target_node_id)
    after_lookup entry payload node

  -- what a task does next, and where it stands then, unless it has ended
  unfoldable pub advance : AppState → Task → Exec E (Option Task)
  advance state (fetched entry) = do
    env ← gets (λ w. w.env)
    look_up entry (env.message_of_value entry.payload)
  advance state (located entry payload node) = do
    result ← attempt (forward_messages (client_of state) node.api_url payload)
    pure (after_answer entry result)
  advance state (marking entry) = ignore (mark_outbox_delivered entry.id) >>= λ _. pure none
  advance state (failing entry attempts) =
      ignore (record_outbox_failure entry.id attempts max_attempts) >>= λ _. pure none

abbrev pub list_of : Option Task → List Task
list_of none = []
list_of (some task) = task ∷ []

-- What the handlers do to the outbox between two steps of the worker: a message is queued, a peer
-- acknowledges by the logical id, the task of a handler marks its row, or the outbox is left alone.
pub data Handler : World → World → Type 0 where
  queues : (node l : String) (json : Value) (w : World) → Handler w (enqueue_outbox node l json w).1
  acknowledges : (l : String) (w : World) → Handler w (mark_outbox_delivered_by_logical_id l w).1
  marks : (id : Uuid) (w : World) → Handler w (mark_outbox_delivered id w).1
  leaves : {w v : World} → v.db.federation_outbox ≡ w.db.federation_outbox → Handler w v

pub record Node : Type 0 where
  pub world : World
  pub tasks : List Task

abbrev pub at : World → List Task → Node
at w tasks = record { world = w; tasks = tasks }

-- One step: a round fetches the due rows and spawns their tasks, a task makes its next call, or a
-- handler runs.
pub data Step (state : AppState) : Node → Node → Type 0 where
  polls :
      (w v : World) (es : List FederationOutboxEntry) (tasks : List Task)
      → fetch_due_outbox_entries w ≡ (ok es, v)
      → Step state (at w tasks) (at v (tasks ++ map fetched es))
  runs :
      (w v : World) (before : List Task) (task : Task) (later : List Task) (next : Option Task)
      → advance {E = SqlError} state task w ≡ (ok next, v)
      → Step state (at w (before ++ task ∷ later)) (at v (before ++ (list_of next ++ later)))
  handles : {w v : World} (tasks : List Task) → Handler w v → Step state (at w tasks) (at v tasks)

-- any number of steps
pub data Steps (state : AppState) : Node → Node → Type 0 where
  done : {n : Node} → Steps state n n
  more : {m n o : Node} → Steps state m n → Step state n o → Steps state m o
