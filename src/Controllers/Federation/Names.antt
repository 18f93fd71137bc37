-- ===== src/Controllers/Federation/Names.antt =====
-- The name of a remote sender: what src/controllers/messages_controller.rs writes into an address
-- and federation_controller.rs reads from it.
use hush_net_backend.Prelude.{String, ◌≡◌, refl, ap, ◌∙◌, false, some, arith}
use hush_net_backend.Prelude.Text.{has, find}
use hush_net_backend.Web.{AppState}
use hush_net_backend.Federation.Address.{parse_federated_address}
use hush_net_backend.Federation.Address.RoundTrip.{size, at_cons, slice_to-append, parse-address}
use hush_net_backend.Controllers.Messages.{address_of}
use hush_net_backend.Controllers.Federation.{sender_username}
use Prim.Native.String.{◌++◌}
use text.Mathlib.TextLemmas.{nil-append, cons-append, append_assoc}

find-at :
    (user rest : String)
    → has b'@' user ≡ false
    → find b'@' (user ++ String.◌∷◌ "@" rest) ≡ some (size user)
find-at String.[] rest h = rw nil-append refl
find-at (String.◌∷◌ x user) rest h = rw cons-append (ground (arith, h, find-at user rest))

first_name :
    (user rest : String) → has b'@' user ≡ false → sender_username (user ++ ("@" ++ rest)) ≡ user
unfolding sender_username
first_name user rest h =
    rw (at_cons rest)
      (ground (arith, find-at user rest h, slice_to-append user (String.◌∷◌ "@" rest)))

-- The receiver reads from the address that a node makes for its user the user's name, and the
-- parser both the name and the node, where neither has an `@`.
pub address_names :
    (state : AppState) (user : String)
    → has b'@' user ≡ false
    → has b'@' state.this_node_id ≡ false
    → (sender_username (address_of state user) ≡ user)
      × (parse_federated_address (address_of state user) ≡ some (user, state.this_node_id))
address_names state user h k =
    (first_name user state.this_node_id h, parse-address user state.this_node_id k)

-- The receiver and the parser disagree on a user whose name has an `@`: the receiver keeps what
-- stands before the first one, the parser what stands before the last.
pub address_names_differ :
    (state : AppState) (user rest : String)
    → has b'@' user ≡ false
    → has b'@' state.this_node_id ≡ false
    → (parse_federated_address (address_of state (user ++ ("@" ++ rest)))
        ≡ some (user ++ ("@" ++ rest), state.this_node_id))
      × (sender_username (address_of state (user ++ ("@" ++ rest))) ≡ user)
address_names_differ state user rest h k = (
  parse-address (user ++ ("@" ++ rest)) state.this_node_id k,
  ap sender_username (
        append_assoc user ("@" ++ rest) ("@" ++ state.this_node_id)
        ∙ ap (λ s. user ++ s) (append_assoc "@" rest ("@" ++ state.this_node_id)))
      ∙ first_name user (rest ++ ("@" ++ state.this_node_id)) h,
)
