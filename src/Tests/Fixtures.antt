-- ===== src/Tests/Fixtures.antt =====
-- A node, its peer, and a concrete outside: constant clocks, a codec, a toy signature scheme.
use hush_net_backend.Prelude.{
  ℕ, zero, suc, ◌+◌, ◌≡◌, refl, ap, ◌∙◌, String, Bool, true, false, Option, none, some, [], ◌∷◌,
  ◌==◌, str_eq, if◌then◌else◌, arith,
}
use Prim.Native.Char.{code}
use mathlib.Core.Option
use hush_net_backend.Models.{
  null, string, json_strings, UserRow, Devices, FederationNode, FederationOutboxEntry, pending,
  S2sMessagePayload, PendingSession,
}
use hush_net_backend.Store.{Env, Db, World, Bytes, fine, unreachable}
use hush_net_backend.Web.{AppState, NodeKeys}

-- each byte in unary, with a zero behind it
abbrev unary : ℕ → String → String
unary zero s = String.◌∷◌ "0" s
unary (suc n) s = String.◌∷◌ "1" (unary n s)

abbrev pub encode : Bytes → String
encode [] = String.[]
encode (n ∷ ns) = unary n (encode ns)

abbrev decode_from : ℕ → String → Option Bytes
decode_from n String.[] = if n == 0 then some [] else none
decode_from n (String.◌∷◌ c s) =
    let ended = Option.map (λ (bs : Bytes). n ∷ bs) (decode_from 0 s) in
    let longer = decode_from (suc n) s in if code c == b'1' then longer else ended

abbrev pub decode : String → Option Bytes
decode s = decode_from 0 s

decode-unary :
    (k n : ℕ) (s : String)
    → decode_from k (unary n s) ≡ Option.map (λ (bs : Bytes). (n + k) ∷ bs) (decode_from 0 s)
decode-unary k zero s =
    ap (λ (m : ℕ). Option.map (λ (bs : Bytes). m ∷ bs) (decode_from 0 s)) (omega arith)
decode-unary k (suc n) s =
    decode-unary (suc k) n s
    ∙ ap (λ (m : ℕ). Option.map (λ (bs : Bytes). m ∷ bs) (decode_from 0 s)) (omega arith)

pub decode-encode : (bs : Bytes) → decode (encode bs) ≡ some bs
decode-encode [] = refl
decode-encode (n ∷ ns) =
    decode-unary 0 n (encode ns)
    ∙ ap (Option.map (λ (bs : Bytes). (n + 0) ∷ bs)) (decode-encode ns)
    ∙ ap (λ (m : ℕ). some (m ∷ ns)) (omega arith)

-- `n` zero bytes
abbrev pub zeros : ℕ → Bytes
zeros zero = []
zeros (suc n) = 0 ∷ zeros n

abbrev sum : Bytes → ℕ
sum [] = 0
sum (n ∷ ns) = n + sum ns

abbrev first_is : ℕ → Bytes → Bool
first_is n [] = false
first_is n (b ∷ bs) = b == n

-- a checksum in 64 bytes stands for a signature
abbrev checksum : Bytes → Bytes
checksum m = sum m ∷ zeros 63

abbrev pub wire : S2sMessagePayload
wire = record {
  logical_msg_id = "m-1";
  from_federated_address = "bob@b.example";
  from_device_id = 21;
  from_identity_pubkey = "key-of-bob";
  to_user = "alice";
  payloads = record { to_device_id = 11; header = null; ciphertext = "xyz" } ∷ [];
}

abbrev pub env : Env
env = record {
  fault = λ i. fine;
  new_id = λ i. 1000 + i;
  db_now = λ i. 5000;
  utc_now = λ i. 5000;
  http = λ i req. unreachable;
  random = λ i. 7 ∷ [];
  encode_b64 = encode;
  decode_b64 = decode;
  valid_key = λ k. true;
  verify = λ k m s. first_is (sum m) s;
  sign = λ k m. checksum m;
  message_to_value = λ m. some (string m.logical_msg_id);
  message_of_value = λ v. some wire;
  ack_of_value = λ v. none;
  bundles_of_value = λ v. none;
  encode_jwt = λ sub exp secret. sub;
  decode_jwt = λ now token secret. if str_eq token "expired" then none else some token;
  var = λ name.
      if str_eq name "DATABASE_URL"
      then some "postgres://db"
      else if str_eq name "JWT_SECRET"
      then some "secret"
      else if str_eq name "REGISTER_TO_REGISTRY"
      then some "True"
      else none;
  disk = λ i. fine;
  public_key = λ k. k;
  compact_text = λ v. "{}";
  pretty_text = λ v. "{}";
  parse_json = λ s. none;
  uuid_text = λ id. "alice-id";
  parse_uuid = λ s. if str_eq s "alice-id" then some 1 else none;
}

abbrev pub keys : NodeKeys
keys = record { public_b64 = encode (zeros 32); private_b64 = encode (zeros 32) }

abbrev pub state : AppState
state = record {
  jwt_secret = "secret";
  node_keys = keys;
  this_node_id = "a.example";
  this_api_url = "https://a.example/api";
  registry_url = "https://registry.example";
}

abbrev pub peer : FederationNode
peer = record {
  id = 90;
  node_id = "b.example";
  api_url = "https://b.example/api";
  public_key_b64 = encode (zeros 32);
  last_seen = none;
  is_blocked = false;
  created_at = 100;
}

abbrev pub alice : UserRow
alice = record {
  id = 1;
  username = "alice";
  created_at = 100;
  home_node_id = none;
  federated_address = none;
}

abbrev pub phone : Devices
phone = record {
  id = 11;
  user_id = 1;
  identity_pubkey = "key-of-alice";
  prekey_pubkey = "prekey";
  signed_prekey_pub = "spk";
  signed_prekey_sig = "sig";
  one_time_prekeys = json_strings ("otpk" ∷ []);
  device_label = some "phone";
  push_token = none;
  last_seen = none;
  created_at = some 100;
}

abbrev pub queued : FederationOutboxEntry
queued = record {
  id = 70;
  target_node_id = "b.example";
  logical_msg_id = "m-0";
  payload = string "m-0";
  attempt_count = 0;
  last_attempt = none;
  next_attempt = 200;
  status = pending;
  created_at = 200;
}

abbrev pub session : PendingSession
session = record {
  id = 60;
  sender_device_id = 12;
  recipient_device_id = 11;
  ephemeral_pubkey = "eph";
  sender_prekey_pub = "spp";
  otpk_used = "otpk";
  ciphertext = "c";
  created_at = some 300;
}

abbrev pub bob : UserRow
bob = record {
  id = 2;
  username = "bob";
  created_at = 100;
  home_node_id = none;
  federated_address = none;
}

abbrev pub laptop : Devices
laptop = record phone { id = 12; user_id = 2; identity_pubkey = "key-of-laptop" }

abbrev pub db : Db
db = record {
  users = alice ∷ record bob { username = "carol" } ∷ [];
  devices = phone ∷ laptop ∷ [];
  chats = [];
  chat_members = [];
  messages = [];
  sessions = [];
  used_tokens = [];
  pending_sessions = session ∷ [];
  federation_nodes = peer ∷ [];
  used_node_nonces = [];
  federation_outbox = queued ∷ [];
  notified = [];
}

abbrev pub w0 : World
w0 = record {
  env = env;
  db = db;
  calls = 0;
  sent = [];
  spawned = [];
  key_dir = false;
  key_file = none;
}
