-- ===== src/Tests/Outbox.antt =====
-- The theorems on the outbox and on the backoff, at the small nodes.
use hush_net_backend.Prelude.{◌≡◌, refl, some, [], ◌∷◌}
use hush_net_backend.Store.{World, SqlError, ok, query, ◌>>=◌}
use hush_net_backend.Repository.Federation.{
  backoff_secs, fetch_due_outbox_entries, get_federation_node,
}
use hush_net_backend.Repository.Federation.Backoff.{schedule, backoff-schedule}
use hush_net_backend.Repository.Federation.Outbox.{WithinBudget}
use hush_net_backend.Federation.Outbox.Tasks.{
  fetched, located, marking, failing, advance, Node, at, Step, Steps, done, more, polls, runs,
}
use hush_net_backend.Federation.Outbox.Tasks.Interleaved.{steps-WithinBudget}
use hush_net_backend.Federation.Outbox.Tasks.Late.{Undone, late_failure}
use hush_net_backend.Models.{FederationOutboxEntry}
use hush_net_backend.Prelude.{◌+◌, ◌*◌, none}
use hush_net_backend.Store.{response}
use hush_net_backend.Federation.Outbox.{round}
use hush_net_backend.Tests.Fixtures.{wire, state, peer, queued, env, db, w0}

backoff-schedule_example : backoff_secs 5 ≡ schedule 5
backoff-schedule_example = backoff-schedule 5

-- a round fetches the row, and its task looks up the peer
abbrev polled : World
polled = record w0 { calls = 1 }

abbrev looked_up : World
looked_up = record w0 { calls = 2 }

polling : fetch_due_outbox_entries w0 ≡ (ok (queued ∷ []), polled)
unfolding fetch_due_outbox_entries query
polling = refl

looking_up :
    advance {E = SqlError} state (fetched queued) polled
    ≡ (ok (some (located queued wire peer)), looked_up)
unfolding advance get_federation_node query ◌>>=◌
looking_up = refl

steps-WithinBudget_example : WithinBudget looked_up.db
steps-WithinBudget_example =
    steps-WithinBudget state w0 (at looked_up (located queued wire peer ∷ []))
      (record { none_over = refl })
      (more (more done (polls w0 polled (queued ∷ []) [] polling))
        (runs polled looked_up [] (fetched queued) [] (some (located queued wire peer)) looking_up))

late_failure_example :
    (m : Node) × (n : Node) × Steps state (at w0 (marking queued ∷ failing queued 10 ∷ [])) m
    × Step state m n
    × Undone 70 m n
late_failure_example = late_failure state queued queued w0 refl refl refl

-- a row that was tried eight times, at a node whose peers answer with 503, and whose clock moves on
-- by an hour from call to call
abbrev eighth : FederationOutboxEntry
eighth = record queued { attempt_count = 8 }

abbrev refusing : World
refusing = record w0 {
  env = record env { http = λ i req. response 503 none; db_now = λ i. 5000 + 3600 * i };
  db = record db { federation_outbox = eighth ∷ [] };
}

abbrev ninth : World
ninth = (round {E = SqlError} state refusing).1

abbrev tenth : World
tenth = (round {E = SqlError} state ninth).1

abbrev tried_again : FederationOutboxEntry
tried_again = record eighth { attempt_count = 9; last_attempt = some 19400; next_attempt = 23000 }
