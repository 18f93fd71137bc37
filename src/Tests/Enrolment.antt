-- ===== src/Tests/Enrolment.antt =====
-- The theorem on enrolment, at a small node.
use hush_net_backend.Prelude.{◌≡◌, refl, some, none, [], ◌∷◌, ◌++◌, str_eq, if◌then◌else◌, arith}
use hush_net_backend.Models.{User}
use hush_net_backend.Store.{Env, World, ok, query, call_of, ◌>>=◌}
use hush_net_backend.Web.{respond, enrolled}
use hush_net_backend.Repository.Accounts.{
  user_of, local_user, create_user_statement, create_user as insert_user,
}
use hush_net_backend.Utils.Tokens.{generate_enrollment_tokens}
use hush_net_backend.Utils.Tokens.ReadBack.{TokensOf}
use hush_net_backend.Controllers.Accounts.{CreateDeviceBody, create_user}
use hush_net_backend.Controllers.Accounts.Creates.{Creatable}
use hush_net_backend.Controllers.Accounts.Enrolment.{Decides, token_enrols_owner}
use hush_net_backend.Tests.Fixtures.{env, encode, zeros, state, db, w0}

-- Dora registers and enrols her phone
abbrev dora_env : Env
dora_env = record env {
  uuid_text = λ id. "dora-id";
  parse_uuid = λ s. if str_eq s "dora-id" then some 1000 else none;
}

abbrev before_dora : World
before_dora = record w0 { env = dora_env }

abbrev dora : User
dora = user_of (local_user "dora" (call_of before_dora))

abbrev with_dora : World
with_dora = record before_dora {
  db = record db { users = db.users ++ local_user "dora" (call_of before_dora) ∷ [] };
  calls = 1;
}

registers :
    create_user state (record { username = "dora" }) before_dora
    ≡ (ok (respond 201 (enrolled dora "dora-id")), with_dora)
unfolding create_user insert_user create_user_statement generate_enrollment_tokens query ◌>>=◌
registers = refl

abbrev dora_phone : CreateDeviceBody
dora_phone = record {
  user_id = 1000;
  identity_pubkey = encode (zeros 32);
  prekey_pubkey = "prekey";
  signed_prekey = record { key = encode (3 ∷ []); signature = encode (3 ∷ zeros 63) };
  one_time_prekeys = [];
  device_label = "tablet";
  push_token = "push";
  enrollment_token = "dora-id";
}

dora-Creatable : Creatable state dora_phone with_dora
dora-Creatable = record {
  no_fault = λ i. refl;
  unused = refl;
  signed = record {
    identity_bytes = zeros 32;
    spk_bytes = 3 ∷ [];
    sig_bytes = 3 ∷ zeros 63;
    identity_decodes = refl;
    spk_decodes = refl;
    sig_decodes = refl;
    valid_identity = refl;
    valid_length = refl;
    verified = refl;
  };
  fresh_id = refl;
  fresh_key = refl;
  user = refl;
}

dora_tokens : TokensOf dora_env 1000 "secret"
dora_tokens = record { decodes = λ exp now h. refl; parses = refl }

token_enrols_owner_example : Decides state dora_phone with_dora dora.id
token_enrols_owner_example =
    token_enrols_owner state (record { username = "dora" }) dora_phone before_dora with_dora
      with_dora dora "dora-id" registers dora_tokens refl (omega arith) refl dora-Creatable
