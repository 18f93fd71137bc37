-- ===== src/Federation/Address.antt =====
-- parse_federated_address of src/federation/mod.rs.
pub mod RoundTrip
use hush_net_backend.Prelude.{◌+◌, String, Option, none, some}
use hush_net_backend.Prelude.Text.{rfind, slice_to, slice_from}

unfoldable pub parse_federated_address : String → Option (String × String)
parse_federated_address addr = elim (rfind b'@' addr) [
  | none ↦ none
  | some at ↦ some (slice_to at addr, slice_from (at + 1) addr)
]
