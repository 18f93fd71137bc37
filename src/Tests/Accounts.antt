-- ===== src/Tests/Accounts.antt =====
-- The theorems on devices, keys and sessions, at the small nodes.
use hush_net_backend.Prelude.{◌≡◌, refl, none, [], ◌∷◌}
use hush_net_backend.Store.{World, ok, query, call_of, ◌>>=◌}
use hush_net_backend.Web.{Response, respond, device, status}
use hush_net_backend.Repository.Shadow.{insert_chat_statement}
use hush_net_backend.Repository.Accounts.{
  registered, create_device_statement, create_device as insert_device,
}
use hush_net_backend.Repository.Enrollment.{
  enrollment_token_exists, add_token_statement, add_used_token,
}
use hush_net_backend.Repository.Sessions.{
  get_pending_session_by_id, find_statement, chat_statement, get_or_create_chat_id,
  session_statement, insert_or_update_session, delete_statement, delete_pending_session,
}
use hush_net_backend.Utils.Crypto.{verify_signed_prekey_signature}
use hush_net_backend.Utils.Tokens.{verify_enrollment_token}
use hush_net_backend.Controllers.Accounts.{CreateDeviceBody, new_device, create_device}
use hush_net_backend.Controllers.Accounts.Enrolled.{
  DeviceCreated, create_device-DeviceCreated, token_once,
}
use hush_net_backend.Controllers.Accounts.Unverified.{unverified_token_enrols}
use hush_net_backend.Controllers.Accounts.Creates.{Creatable, Gives}
use hush_net_backend.Controllers.Sessions.{ConfirmSessionBody, confirm_session}
use hush_net_backend.Controllers.Sessions.Confirmed.{
  Confirmed, confirm_session-Confirmed, confirm_once,
}
use hush_net_backend.Controllers.Sessions.Foreign.{Confirmable, any_two_devices}
use hush_net_backend.Repository.Sessions.{is_session}
use hush_net_backend.Prelude.{true, exists_where}
use hush_net_backend.Models.{Devices}
use hush_net_backend.Tests.Fixtures.{db, session}
use hush_net_backend.Utils.Crypto.Prekeys.{SignedBy}
use hush_net_backend.Web.{user}
use hush_net_backend.Controllers.Accounts.{LoginUserBody}
use hush_net_backend.Models.{DeviceBundle}
use hush_net_backend.Prelude.{inl, inr}
use hush_net_backend.Repository.Accounts.{get_device_bundle, bundles_of}
use hush_net_backend.Controllers.Accounts.Login.{AnsweredAs, bundle_logs_in}
use hush_net_backend.Tests.Fixtures.{env}
use hush_net_backend.Tests.Fixtures.{encode, zeros, state, phone, w0}

-- a tablet of Alice; its prekey is signed as the toy scheme has it
abbrev tablet : CreateDeviceBody
tablet = record {
  user_id = 1;
  identity_pubkey = encode (zeros 32);
  prekey_pubkey = "prekey";
  signed_prekey = record { key = encode (3 ∷ []); signature = encode (3 ∷ zeros 63) };
  one_time_prekeys = [];
  device_label = "tablet";
  push_token = "push";
  enrollment_token = "token-of-alice";
}

abbrev created : Response
created = respond 201 (device (registered (new_device tablet) (call_of (record w0 { calls = 1 }))))

abbrev enrolled : World
enrolled = (create_device state tablet w0).1

enrols : create_device state tablet w0 ≡ (ok created, enrolled)
unfolding create_device enrollment_token_exists verify_signed_prekey_signature
    verify_enrollment_token insert_device create_device_statement add_used_token add_token_statement
    query ◌>>=◌
enrols = refl

create_device-DeviceCreated_example : DeviceCreated state tablet w0 enrolled created
create_device-DeviceCreated_example =
    create_device-DeviceCreated state tablet w0 enrolled created enrols

token_once_example : ¬ (create_device state tablet enrolled ≡ (ok created, enrolled))
token_once_example =
    token_once state state tablet tablet w0 enrolled enrolled enrolled created created enrols
      (λ used. used) refl

-- the same with a token that has expired
abbrev late : CreateDeviceBody
late = record tablet { enrollment_token = "expired" }

late-Creatable : Creatable state late w0
late-Creatable = record {
  no_fault = λ i. refl;
  unused = refl;
  signed = record {
    identity_bytes = zeros 32;
    spk_bytes = 3 ∷ [];
    sig_bytes = 3 ∷ zeros 63;
    identity_decodes = refl;
    spk_decodes = refl;
    sig_decodes = refl;
    valid_identity = refl;
    valid_length = refl;
    verified = refl;
  };
  fresh_id = refl;
  fresh_key = refl;
  user = refl;
}

late_token : verify_enrollment_token "expired" "secret" (record w0 { calls = 1 }) ≡ none
unfolding verify_enrollment_token
late_token = refl

unverified_token_enrols_example : Gives state late w0
unverified_token_enrols_example = unverified_token_enrols state late w0 late-Creatable late_token

-- Alice's phone confirms the session of the laptop
abbrev body : ConfirmSessionBody
body = record { pending_session_id = 60; sender_device_id = 12; receiver_device_id = 11 }

abbrev confirmed : World
confirmed = (confirm_session phone body w0).1

confirms :
    confirm_session phone body w0 ≡ (ok (respond 201 (status "session confirmed")), confirmed)
unfolding confirm_session get_pending_session_by_id get_or_create_chat_id find_statement
    chat_statement insert_chat_statement insert_or_update_session session_statement
    delete_pending_session delete_statement query ◌>>=◌
confirms = refl

confirm_session-Confirmed_example :
    Confirmed phone body w0 confirmed (respond 201 (status "session confirmed"))
confirm_session-Confirmed_example =
    confirm_session-Confirmed phone body w0 confirmed (respond 201 (status "session confirmed"))
      confirms

confirm_once_example : ¬ (
    confirm_session phone body confirmed
    ≡ (ok (respond 201 (status "session confirmed")), confirmed))
confirm_once_example =
    confirm_once phone phone body body w0 confirmed confirmed confirmed
      (respond 201 (status "session confirmed")) (respond 201 (status "session confirmed")) confirms
      (λ gone. gone) refl

-- A tablet of someone else has a pending session, and names the phone and the laptop.
abbrev stranger : Devices
stranger = record phone { id = 13; user_id = 3; identity_pubkey = "key-of-stranger" }

abbrev foreign : ConfirmSessionBody
foreign = record { pending_session_id = 61; sender_device_id = 12; receiver_device_id = 11 }

abbrev pending_elsewhere : World
pending_elsewhere = record w0 {
  db = record db { pending_sessions = record session { id = 61; recipient_device_id = 13 } ∷ [] };
}

stranger-Confirmable : Confirmable stranger foreign pending_elsewhere
stranger-Confirmable = record {
  no_fault = λ i. refl;
  pending = record session { id = 61; recipient_device_id = 13 };
  found = refl;
  owned = record {
    a = 2;
    b = 1;
    sender_owner = refl;
    receiver_owner = refl;
    different = refl;
    a_exists = refl;
    b_exists = refl;
  };
  fresh_chat = refl;
  fresh_session = λ i. refl;
}

any_two_devices_example :
    ((confirm_session stranger foreign pending_elsewhere).0
      ≡ ok (respond 201 (status "session confirmed")))
    × (exists_where
          (is_session 12 11)
          (confirm_session stranger foreign pending_elsewhere).1.db.sessions
        ≡ true)
any_two_devices_example = any_two_devices stranger foreign pending_elsewhere stranger-Confirmable

-- the owner of the tablet logs in
abbrev greeting : LoginUserBody
greeting = record {
  identity_pubkey = encode (zeros 32);
  message = encode (5 ∷ []);
  signature = encode (5 ∷ zeros 63);
}

-- the bundle of the tablet, among those of Alice
abbrev tablet_bundle : DeviceBundle
tablet_bundle = record {
  device_id = 1001;
  identity_pubkey = encode (zeros 32);
  prekey_pubkey = "prekey";
  signed_prekey_pub = encode (3 ∷ []);
  signed_prekey_sig = encode (3 ∷ zeros 63);
  one_time_prekeys = [];
}

abbrev phone_bundle : DeviceBundle
phone_bundle = record {
  device_id = 11;
  identity_pubkey = "key-of-alice";
  prekey_pubkey = "prekey";
  signed_prekey_pub = "spk";
  signed_prekey_sig = "sig";
  one_time_prekeys = "otpk" ∷ [];
}

abbrev asked : World
asked = (get_device_bundle 1 enrolled).1

hands_out : get_device_bundle 1 enrolled ≡ (ok (phone_bundle ∷ tablet_bundle ∷ []), asked)
unfolding get_device_bundle bundles_of create_device enrollment_token_exists
    verify_signed_prekey_signature verify_enrollment_token insert_device create_device_statement
    add_used_token add_token_statement query ◌>>=◌
hands_out = refl

tablet-SignedBy :
    SignedBy env tablet_bundle.identity_pubkey tablet_bundle.signed_prekey_pub
      tablet_bundle.signed_prekey_sig
tablet-SignedBy = record {
  identity_bytes = zeros 32;
  spk_bytes = 3 ∷ [];
  sig_bytes = 3 ∷ zeros 63;
  identity_decodes = refl;
  spk_decodes = refl;
  sig_decodes = refl;
  valid_identity = refl;
  valid_length = refl;
  verified = refl;
}

bundle_logs_in_example : AnsweredAs tablet_bundle asked
unfolding create_device enrollment_token_exists verify_signed_prekey_signature
    verify_enrollment_token insert_device create_device_statement add_used_token add_token_statement
    query ◌>>=◌
bundle_logs_in_example =
    bundle_logs_in 1 (phone_bundle ∷ tablet_bundle ∷ []) tablet_bundle enrolled asked hands_out
      (inr (inl refl)) tablet-SignedBy refl refl
