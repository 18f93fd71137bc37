-- ===== src/Tests/Senders.antt =====
-- The theorem on the names of remote senders, at the small node.
use hush_net_backend.Prelude.{◌≡◌, refl, []}
use hush_net_backend.Models.{S2sSessionPayload, S2sMessagePayload}
use hush_net_backend.Store.{err}
use hush_net_backend.Web.{respond, error}
use hush_net_backend.Controllers.Federation.{sender_username, receive_session, receive_messages}
use hush_net_backend.Controllers.Federation.Clash.{Clash, taken_name_shuts_out}
use hush_net_backend.Models.{FederationNode, UserRow}
use hush_net_backend.Prelude.{◌∷◌, some}
use hush_net_backend.Store.{World}
use hush_net_backend.Controllers.Federation.Senders.{any_peer_speaks}
use hush_net_backend.Tests.Fixtures.{bob, peer, wire, alice, db, w0}

-- an Alice of the other node
abbrev message : S2sMessagePayload
message = record wire { from_federated_address = "alice@b.example" }

abbrev session : S2sSessionPayload
session = record {
  from_federated_address = "alice@b.example";
  from_device_id = 21;
  from_identity_pubkey = "key";
  to_user = "alice";
  sessions_init = [];
}

alice-Clash : Clash "alice@b.example" db
unfolding sender_username
alice-Clash = record { new_sender = refl; taken = refl }

taken_name_shuts_out_example :
    (receive_session peer session w0
      ≡ (err (respond 500 (error "internal error")), record w0 { calls = 1 }))
    × (receive_messages peer message w0
        ≡ (err (respond 500 (error "internal error")), record w0 { calls = 2 }))
taken_name_shuts_out_example =
    taken_name_shuts_out peer session message w0 alice refl refl refl alice-Clash refl

-- the other node's Bob, whom this node has seen, and a third node
abbrev shadow_bob : UserRow
shadow_bob = record bob { home_node_id = some 90; federated_address = some "bob@b.example" }

abbrev third : FederationNode
third = record peer { id = 91; node_id = "c.example"; api_url = "https://c.example" }

abbrev seen : World
seen = record w0 { db = record db { users = alice ∷ shadow_bob ∷ [] } }

abbrev from_bob : S2sSessionPayload
from_bob = record session { from_federated_address = "bob@b.example" }

any_peer_speaks_example :
    (receive_session peer from_bob seen ≡ receive_session third from_bob seen)
    × (receive_messages peer wire seen ≡ receive_messages third wire seen)
any_peer_speaks_example = any_peer_speaks peer third seen shadow_bob from_bob wire refl refl
