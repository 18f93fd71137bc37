-- ===== src/Repository/Federation.antt =====
-- src/repository/federation_repository.rs: peer nodes, nonces and the outbox.
pub mod Nonces
pub mod Outbox
pub mod Backoff
use hush_net_backend.Prelude.{
  ℕ, ◌+◌, ◌*◌, ◌^◌, String, Bool, true, false, ◌&&◌, Option, none, some, List, [], ◌∷◌, ◌++◌, take,
  min, str_eq, ◌==◌, leb, ltb, if◌then◌else◌, exists_where, find_where, select_where, delete_where,
  update_where, count_where, order_by,
}
use hush_net_backend.Models.{
  Uuid, Value, FederationNode, UsedNonce, FederationOutboxEntry, OutboxStatus, pending, delivered,
  failed,
}
use hush_net_backend.Store.{
  ◌>>=◌, ok, err, Exec, Statement, Call, SqlError, unique_violation, query, pure,
}

abbrev pub has_node_id : String → FederationNode → Bool
has_node_id node_id n = str_eq n.node_id node_id

abbrev new_node : String → String → String → Call → FederationNode
new_node node_id api_url public_key_b64 c = record {
  id = c.new_id;
  node_id = node_id;
  api_url = api_url;
  public_key_b64 = public_key_b64;
  last_seen = none;
  is_blocked = false;
  created_at = c.now;
}

-- the SET of the ON CONFLICT clause
abbrev refresh_node : String → String → Call → FederationNode → FederationNode
refresh_node api_url public_key_b64 c n = record n {
  api_url = api_url;
  public_key_b64 = public_key_b64;
  last_seen = some c.now;
}

unfoldable pub upsert_node_statement : String → String → String → Statement FederationNode
upsert_node_statement node_id api_url public_key_b64 c db =
    elim (find_where (has_node_id node_id) db.federation_nodes) [
      | some n ↦ (
        ok (refresh_node api_url public_key_b64 c n),
        record db {
          federation_nodes =
              update_where (has_node_id node_id) (refresh_node api_url public_key_b64 c)
                db.federation_nodes;
        },
      )
      | none ↦
          if exists_where (λ n. n.id == c.new_id) db.federation_nodes
          then (err unique_violation, db)
          else (
            ok (new_node node_id api_url public_key_b64 c),
            record db {
              federation_nodes =
                  db.federation_nodes ++ new_node node_id api_url public_key_b64 c ∷ [];
            },
          )
    ]

unfoldable pub upsert_federation_node : String → String → String → Exec SqlError FederationNode
upsert_federation_node node_id api_url public_key_b64 =
    query (upsert_node_statement node_id api_url public_key_b64)

unfoldable pub get_federation_node : String → Exec SqlError (Option FederationNode)
get_federation_node node_id =
    query (λ c db. (ok (find_where (has_node_id node_id) db.federation_nodes), db))

abbrev pub is_nonce : String → String → UsedNonce → Bool
is_nonce node_id nonce row = str_eq row.nonce nonce && str_eq row.node_id node_id

-- INSERT … ON CONFLICT DO NOTHING, with the number of rows inserted
unfoldable pub claim_statement : String → String → Statement ℕ
claim_statement node_id nonce c db =
    if exists_where (is_nonce node_id nonce) db.used_node_nonces then (ok 0, db) else (
      ok 1,
      record db {
        used_node_nonces =
            db.used_node_nonces
            ++ record { nonce = nonce; node_id = node_id; used_at = c.now } ∷ [];
      },
    )

unfoldable pub claim_nonce : String → String → Exec SqlError Bool
claim_nonce node_id nonce = do rows ← query (claim_statement node_id nonce); pure (rows == 1)

-- used_at < NOW() - INTERVAL '5 minutes'
abbrev pub is_expired : ℕ → UsedNonce → Bool
is_expired now row = ltb (row.used_at + 300) now

unfoldable pub purge_statement : Statement ℕ
purge_statement c db = (
  ok (count_where (is_expired c.now) db.used_node_nonces),
  record db { used_node_nonces = delete_where (is_expired c.now) db.used_node_nonces },
)

unfoldable pub purge_expired_nonces : Exec SqlError ℕ
purge_expired_nonces = query purge_statement

abbrev pub new_entry : String → String → Value → Call → FederationOutboxEntry
new_entry target_node_id logical_msg_id payload c = record {
  id = c.new_id;
  target_node_id = target_node_id;
  logical_msg_id = logical_msg_id;
  payload = payload;
  attempt_count = 0;
  last_attempt = none;
  next_attempt = c.now;
  status = pending;
  created_at = c.now;
}

unfoldable pub enqueue_statement : String → String → Value → Statement Uuid
enqueue_statement target_node_id logical_msg_id payload c db =
    if exists_where (λ e. e.id == c.new_id) db.federation_outbox
    then (err unique_violation, db)
    else (
      ok c.new_id,
      record db {
        federation_outbox =
            db.federation_outbox ++ new_entry target_node_id logical_msg_id payload c ∷ [];
      },
    )

unfoldable pub enqueue_outbox : String → String → Value → Exec SqlError Uuid
enqueue_outbox target_node_id logical_msg_id payload =
    query (enqueue_statement target_node_id logical_msg_id payload)

abbrev pub is_pending : OutboxStatus → Bool
is_pending pending = true
is_pending delivered = false
is_pending failed = false

-- status = 'pending' AND next_attempt <= NOW()
abbrev pub is_due : ℕ → FederationOutboxEntry → Bool
is_due now e = is_pending e.status && leb e.next_attempt now

unfoldable pub fetch_due_outbox_entries : Exec SqlError (List FederationOutboxEntry)
fetch_due_outbox_entries = query (λ c db. (
  ok (take 100 (order_by (λ e. e.next_attempt) (select_where (is_due c.now) db.federation_outbox))),
  db,
))

abbrev pub set_delivered : ℕ → FederationOutboxEntry → FederationOutboxEntry
set_delivered now e = record e { status = delivered; last_attempt = some now }

unfoldable pub delivered_statement : Uuid → Statement (Unit {0})
delivered_statement id c db = (
  ok tt,
  record db {
    federation_outbox = update_where (λ e. e.id == id) (set_delivered c.now) db.federation_outbox;
  },
)

unfoldable pub mark_outbox_delivered : Uuid → Exec SqlError (Unit {0})
mark_outbox_delivered id = query (delivered_statement id)

unfoldable pub logical_id_statement : String → Statement (Unit {0})
logical_id_statement logical_msg_id c db = (
  ok tt,
  record db {
    federation_outbox =
        update_where (λ e. str_eq e.logical_msg_id logical_msg_id && is_pending e.status)
          (set_delivered c.now) db.federation_outbox;
  },
)

unfoldable pub mark_outbox_delivered_by_logical_id : String → Exec SqlError (Unit {0})
mark_outbox_delivered_by_logical_id logical_msg_id = query (logical_id_statement logical_msg_id)

-- (10_i64 * (1_i64 << attempt_count.min(12))).min(3600)
unfoldable pub backoff_secs : ℕ → ℕ
backoff_secs attempt_count = min (10 * 2 ^ min attempt_count 12) 3600

abbrev pub set_failed : ℕ → ℕ → FederationOutboxEntry → FederationOutboxEntry
set_failed attempt_count now e = record e {
  status = failed;
  last_attempt = some now;
  attempt_count = attempt_count;
}

abbrev pub set_retry : ℕ → ℕ → FederationOutboxEntry → FederationOutboxEntry
set_retry attempt_count now e = record e {
  attempt_count = attempt_count;
  last_attempt = some now;
  next_attempt = now + backoff_secs attempt_count;
}

unfoldable pub failure_statement : Uuid → ℕ → ℕ → Statement (Unit {0})
failure_statement id attempt_count max_attempts c db = (
  ok tt,
  record db {
    federation_outbox =
        update_where (λ e. e.id == id)
          (if leb max_attempts attempt_count
            then set_failed attempt_count c.now
            else set_retry attempt_count c.now)
          db.federation_outbox;
  },
)

unfoldable pub record_outbox_failure : Uuid → ℕ → ℕ → Exec SqlError (Unit {0})
record_outbox_failure id attempt_count max_attempts =
    query (failure_statement id attempt_count max_attempts)
