-- ===== src/Tests/Sessions.antt =====
-- The theorems on the creation of sessions, at the small node.
use hush_net_backend.Prelude.{◌≡◌, refl, none, [], ◌∷◌, arith}
use hush_net_backend.Controllers.Messages.{remote_target}
use hush_net_backend.Controllers.Sessions.{SessionInit, CreateSessionBody, create_session}
use hush_net_backend.Controllers.Sessions.Loop.{Ready}
use hush_net_backend.Controllers.Sessions.Created.{Created, create_session-Created}
use hush_net_backend.Controllers.Sessions.Lifecycle.{TwoDevices, Confirms, created_is_confirmed}
use hush_net_backend.Tests.Fixtures.{state, phone, laptop, w0}

abbrev for_laptop : SessionInit
for_laptop = record {
  recipient_device_id = 12;
  ephemeral_pubkey = "eph";
  sender_prekey_pub = "spp";
  otpk_used = "otpk";
  ciphertext = "c";
}

-- Alice's phone starts sessions with Bob's laptop, with a device that nobody has, and again with
-- the laptop: only the first one is stored
abbrev body : CreateSessionBody
body = record {
  recipient_user_id = 2;
  recipient_user_address = none;
  sessions_init = for_laptop ∷ record for_laptop { recipient_device_id = 99 } ∷ for_laptop ∷ [];
}

phone-Ready : Ready 11 (record w0 { calls = 1 })
phone-Ready = record {
  no_fault = λ i. refl;
  known = refl;
  fresh = λ i le. ground arith;
  distinct = λ i j lt. ground arith;
}

local_body : remote_target state none ≡ none
unfolding remote_target
local_body = refl

create_session-Created_example : Created phone body w0 (create_session state phone body w0)
create_session-Created_example =
    create_session-Created state phone body w0 local_body refl phone-Ready

abbrev to_laptop : CreateSessionBody
to_laptop = record body { sessions_init = for_laptop ∷ [] }

phone_and_laptop : TwoDevices 11 12 w0
phone_and_laptop = record {
  owned = record {
    a = 1;
    b = 2;
    sender_owner = refl;
    receiver_owner = refl;
    different = refl;
    a_exists = refl;
    b_exists = refl;
  };
  fresh_chats = λ n. refl;
  fresh_sessions = λ n. refl;
}

created_is_confirmed_example :
    Confirms phone for_laptop laptop (create_session state phone to_laptop w0).1
created_is_confirmed_example =
    created_is_confirmed state phone laptop to_laptop [] [] for_laptop w0 local_body refl
      phone-Ready refl refl refl phone_and_laptop
