-- ===== src/Store/Outside.antt =====
-- What the program does not implement, as one script of the outside: the clocks, the random UUIDs,
-- the faults of the database connection, HTTP peers, base64, Ed25519, serde and JWT.
use hush_net_backend.Prelude.{ℕ, String, Bool, Option, List}
use hush_net_backend.Models.{
  Uuid, Timestamp, Value, S2sMessagePayload, S2sSessionPayload, S2sAck, DeviceBundle,
}
use hush_net_backend.Store.Tables.{Db}

abbrev pub Bytes : Type 0
Bytes = List ℕ

-- What becomes of one statement: it is run, it never reaches the server, or it is run and the
-- connection is lost before the answer is read.
pub data Fault : Type 0 where
  fine refused lost : Fault

pub data Body : Type 0 where
  empty : Body
  messages : S2sMessagePayload → Body
  sessions : S2sSessionPayload → Body
  json : Value → Body

pub record HttpRequest : Type 0 where
  pub method : String
  pub url : String
  pub headers : List (String × String)
  pub body : Body

-- `send().await`: an error, or a response, with its body where that is JSON.
pub data HttpReply : Type 0 where
  unreachable : HttpReply
  response : (status : ℕ) → (json : Option Value) → HttpReply

-- Each function of an ℕ is asked at the number of the call (statement, HTTP request or file operation)
-- that it belongs to, so that no two calls need agree.
pub record Env : Type 0 where
  pub fault : ℕ → Fault
  -- gen_random_uuid(), NOW() on the database server, and the clock of this process
  pub new_id : ℕ → Uuid
  pub db_now : ℕ → Timestamp
  pub utc_now : ℕ → Timestamp
  pub http : ℕ → HttpRequest → HttpReply
  -- OsRng.fill_bytes
  pub random : ℕ → Bytes
  -- the crate base64
  pub encode_b64 : Bytes → String
  pub decode_b64 : String → Option Bytes
  -- the crate ed25519-dalek: a 32-byte public key is valid, a signature is right, and signing
  pub valid_key : Bytes → Bool
  pub verify : Bytes → Bytes → Bytes → Bool
  pub sign : Bytes → Bytes → Bytes
  -- the derived Serialize and Deserialize of the wire types
  pub message_to_value : S2sMessagePayload → Option Value
  pub message_of_value : Value → Option S2sMessagePayload
  pub ack_of_value : Value → Option S2sAck
  pub bundles_of_value : Value → Option (List DeviceBundle)
  -- the crate jsonwebtoken, at the clock given: a token for a subject and an expiry, and its subject
  pub encode_jwt : String → ℕ → String → String
  pub decode_jwt : Timestamp → String → String → Option String
  -- std::env::var
  pub var : String → Option String
  -- std::fs: what becomes of a file operation, and ed25519's public half of a secret key
  pub disk : ℕ → Fault
  pub public_key : Bytes → Bytes
  -- serde_json: to_string, to_string_pretty and from_str
  pub compact_text : Value → String
  pub pretty_text : Value → String
  pub parse_json : String → Option Value
  -- the crate uuid
  pub uuid_text : Uuid → String
  pub parse_uuid : String → Option Uuid

-- A task that a handler has spawned: one delivery attempt of an outbox entry.
pub record Delivery : Type 0 where
  pub outbox_id : Uuid
  pub api_url : String
  pub payload : S2sMessagePayload

-- `calls` numbers the statements, HTTP requests and file operations made so far; `sent` holds the
-- requests, and `spawned` the tasks handed to the runtime. `.hushnet` is a directory or not there,
-- and so is the file `node_keys` in it.
pub record World : Type 0 where
  pub env : Env
  pub db : Db
  pub calls : ℕ
  pub sent : List HttpRequest
  pub spawned : List Delivery
  pub key_dir : Bool
  pub key_file : Option String
