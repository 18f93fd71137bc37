-- ===== src/Lib.antt =====
-- HushNet-Backend: a messaging server whose nodes federate.
--
-- The program is an axum server over PostgreSQL (src/controllers, src/middlewares, src/repository)
-- that stores end-to-end encrypted messages for devices, and forwards messages, sessions and key
-- requests to peer nodes over signed HTTP (src/federation). The parts of the model follow it:
--
--   Models      src/models: rows, wire types, JSON values
--   Store       the world that the handlers act on: the tables of sql_models (Tables), the outside
--               (Outside), actions with errors (Action), one SQL statement (Sql); and the rules for
--               reasoning on actions: invariants (Keeps), what no action changes (Runs), running
--               forward (Forward), reading a successful run back (Inversion), and what the
--               errors have in common (Fails)
--   Repository  src/repository: each statement is a function on the tables, with the constraints
--               that it can violate and the notifications that its triggers send
--   Web         requests and responses, src/app_state.rs
--   Utils       src/utils, src/services/auth.rs: signatures, the node's keys and their file,
--               enrollment tokens
--   Federation  src/federation: addresses, the signing client, the outbox worker
--   Auth        src/middlewares: the two extractors that authenticate devices and nodes
--   Realtime    src/realtime: the listener of notifications and the task of a socket
--   Routes      src/routes: the table of routes, the handlers behind their extractors, and a delivery
--               from node to node
--   Registry    src/registry: the registration with the central registry
--   Startup     src/main.rs: up to the shared state, and the router that is built then
--   Controllers src/controllers: the handlers; Peers is resolve_node and its twin in federated_keys
--   Prelude     lists as tables, text, and numbers in decimal
--   Tests       two small nodes, and the results at them
--
-- A handler is an action, World → Result E A × World: `?` and early returns end it, and what was
-- written before stays written, as there is no transaction. The world counts its statements and
-- requests, and the environment is a script that says for each of them what the clocks show, which
-- UUID is drawn, what a peer answers, and whether the statement is run, refused, or run with the
-- answer lost. base64, ed25519-dalek, jsonwebtoken, serde, uuid and reqwest are functions of that
-- environment; theorems that need something of them name it as a hypothesis (KnownPeer).
--
-- A UUID is its 128-bit number, which is how both the code and the database order UUIDs. Times are
-- whole seconds. An i64 is its bit pattern below 2 ^ 64, and the subtraction and `abs` of the
-- timestamp tests wrap, as in the release build that the Dockerfile makes. attempt_count is an i32 in
-- the code and a number here. Recursion is on lists and texts, and one round of the worker is one pass
-- over at most a hundred rows; the printing of a u64 alone runs on fuel, twenty digits, which is what
-- 64 bits can need.
--
-- The outside of the routes is axum with the proxy before it and serde, a record of functions (Axum);
-- a theorem that needs something of them names it (ReadsBack, Sees). A delivery between two nodes is
-- two worlds: the HTTP peer in the one is the handler of POST /s2s/messages in the other. The worker is
-- modelled twice: a round with its tasks one after the other (Federation/Outbox), and the tasks one
-- awaited call at a time, interleaved with later rounds and with the handlers (Federation/Outbox/Tasks).
-- The mailbox (Repository/Messages/Mailbox) is what the table of messages promises to peers and devices,
-- without ids and times.
--
-- Where SQL leaves an order open (rows of the same second under ORDER BY, or a query without one, as
-- in find_user_by_pubkey), the model takes the order of the table. NOW() stands for the times of the
-- columns, their conversion to UTC included. fetch_pending_messages is two statements; the mailbox of
-- Repository/Messages/Mailbox is about fetches that nothing interrupts, and Lost about the others.
--
-- Cargo.lock pins axum 0.8.9, which refuses paths such as `/users/:id`: Startup/Serves has what that does
-- to the start. The theorems on handlers are about what a handler does with a request that reaches it.
--
-- Not modelled: the end of src/main.rs (the tasks that it spawns and the socket that it binds), src/db,
-- src/controllers/keys_controller.rs and logging.
pub mod Auth
pub mod Controllers
pub mod Federation
pub mod Models
pub mod Prelude
pub mod Realtime
pub mod Registry
pub mod Repository
pub mod Routes
pub mod Startup
pub mod Store
pub mod Tests
pub mod Utils
pub mod Web
