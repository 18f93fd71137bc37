-- ===== src/Utils/KeyFile.antt =====
-- src/utils/node_keys.rs: the file that keeps the node's key pair.
pub mod Steps
pub mod Kept
use hush_net_backend.Prelude.{ℕ, suc, String, Bool, true, false, Option, none, some, if◌then◌else◌}
use hush_net_backend.Models.{Value, object, field, end, string, get_str}
use hush_net_backend.Store.{
  Env, Bytes, World, Fault, fine, refused, lost, Result, ok, err, Exec, pure, throw, gets, ok_or,
  ◌>>=◌, ◌>>◌,
}
use hush_net_backend.Web.{NodeKeys, ClientError}

-- How start-up ends: `expect` and `unwrap` panic; `?` hands on the error of a file operation, of
-- serde, of a key, of an HTTP request, of its status or body, or of the database.
pub data StartError : Type 0 where
  panicked : String → StartError
  io_error : StartError
  json_error : StartError
  key_error : ClientError → StartError
  request_error : StartError
  status_error : StartError
  body_error : StartError
  connect_error : StartError

-- A file operation: it is done, it is not, or it stops half-way.
abbrev disk_result : StartError → Fault → Result StartError (Unit {0})
disk_result e fine = ok tt
disk_result e refused = err e
disk_result e lost = err e

abbrev disk_effect : Fault → World → World → World → World
disk_effect fine whole half none_ = whole
disk_effect refused whole half none_ = none_
disk_effect lost whole half none_ = half

-- create_dir_all(".hushnet")
unfoldable pub make_dir : StartError → Exec StartError (Unit {0})
make_dir e w =
    let next : World = record w { calls = suc w.calls } in
    let made : World = record next { key_dir = true } in
    (disk_result e (w.env.disk w.calls), disk_effect (w.env.disk w.calls) made next next)

-- fs::write(".hushnet/node_keys", text): half-way, the file is there and empty
unfoldable pub write_file : String → Exec StartError (Unit {0})
write_file text w =
    let next : World = record w { calls = suc w.calls } in
    (
      disk_result io_error (w.env.disk w.calls),
      disk_effect (w.env.disk w.calls) (record next { key_file = some text })
          (record next { key_file = some "" }) next,
    )

-- fs::read_to_string(".hushnet/node_keys")
unfoldable pub read_file : Exec StartError String
read_file w =
    let next : World = record w { calls = suc w.calls } in
    (
      elim (disk_result io_error (w.env.disk w.calls)) [
        | ok _ ↦ elim w.key_file [ none ↦ err io_error | some text ↦ ok text ]
        | err e ↦ err e
      ],
      next,
    )

unfoldable pub get_node_keys_path : Exec StartError (Unit {0})
get_node_keys_path = do
  there ← gets (λ w. w.key_dir)
  if there then pure tt else make_dir (panicked "Could not create home directory")

-- the derived Serialize and Deserialize of NodeKeys
abbrev pub keys_to_value : NodeKeys → Value
keys_to_value keys = object (
    field "public_b64" (string keys.public_b64) (field "private_b64" (string keys.private_b64) end))

abbrev keys_from : Option String → Option String → Option NodeKeys
keys_from none _ = none
keys_from (some _) none = none
keys_from (some public) (some private) =
    some (record { public_b64 = public; private_b64 = private })

abbrev pub keys_of_value : Value → Option NodeKeys
keys_of_value v = keys_from (get_str v "public_b64") (get_str v "private_b64")

abbrev pub new_keys : Env → Bytes → NodeKeys
new_keys env secret = record {
  public_b64 = env.encode_b64 (env.public_key secret);
  private_b64 = env.encode_b64 secret;
}

unfoldable pub generate_and_save : Exec StartError NodeKeys
generate_and_save = do
  env ← gets (λ w. w.env)
  secret ← gets (λ w. w.env.random w.calls)
  let keys = new_keys env secret
  get_node_keys_path
  make_dir io_error
  write_file (env.pretty_text (keys_to_value keys))
  pure keys

abbrev read_keys : Exec StartError NodeKeys
read_keys = do
  data_ ← read_file
  env ← gets (λ w. w.env)
  value ← ok_or (env.parse_json data_) json_error
  ok_or (keys_of_value value) json_error

abbrev read_or_generate : Option String → Exec StartError NodeKeys
read_or_generate none = generate_and_save
read_or_generate (some _) = read_keys

unfoldable pub load_or_generate : Exec StartError NodeKeys
load_or_generate = do get_node_keys_path; there ← gets (λ w. w.key_file); read_or_generate there
