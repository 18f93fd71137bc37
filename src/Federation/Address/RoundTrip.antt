-- ===== src/Federation/Address/RoundTrip.antt =====
-- parse_federated_address of src/federation/mod.rs against the address format `user@node`.
use hush_net_backend.Prelude.{ℕ, suc, String, ◌≡◌, refl, ap, ◌∙◌, false, none, some, arith}
use hush_net_backend.Prelude.Text.{has, rfind, slice_to, slice_from}
use hush_net_backend.Federation.Address.{parse_federated_address}
use Prim.Native.String.{◌++◌}
use text.Mathlib.TextLemmas.{nil-append, cons-append}

abbrev pub size : String → ℕ
size String.[] = 0
size (String.◌∷◌ c s) = suc (size s)

rfind_absent : (c : ℕ) (s : String) → has c s ≡ false → rfind c s ≡ none
rfind_absent c String.[] h = refl
rfind_absent c (String.◌∷◌ x s) h = ground (arith, rfind_absent c s)

pub at_cons : (node : String) → "@" ++ node ≡ String.◌∷◌ "@" node
at_cons node = cons-append "@" String.[] node ∙ ap (String.◌∷◌ "@") (nil-append node)

rfind_last :
    (user node : String)
    → has b'@' node ≡ false
    → rfind b'@' (user ++ String.◌∷◌ "@" node) ≡ some (size user)
rfind_last String.[] node h = rw nil-append (ground (arith, rfind_absent b'@' node h))
rfind_last (String.◌∷◌ x user) node h = rw cons-append (ground (arith, rfind_last user node h))

pub slice_to-append : (user rest : String) → slice_to (size user) (user ++ rest) ≡ user
slice_to-append String.[] rest = refl
slice_to-append (String.◌∷◌ x user) rest =
    rw cons-append (ap (String.◌∷◌ x) (slice_to-append user rest))

slice_from-append :
    (user node : String) → slice_from (suc (size user)) (user ++ String.◌∷◌ "@" node) ≡ node
slice_from-append String.[] node = rw nil-append refl
slice_from-append (String.◌∷◌ x user) node = rw cons-append (slice_from-append user node)

-- The address `user@node` is read back as its two parts, whatever the user's name holds, another
-- `@` included, where the node has no `@`.
pub parse-address :
    (user node : String)
    → has b'@' node ≡ false
    → parse_federated_address (user ++ ("@" ++ node)) ≡ some (user, node)
unfolding parse_federated_address
parse-address user node h = rw (at_cons node) (
    ground (
      arith,
      rfind_last user node h,
      slice_to-append user (String.◌∷◌ "@" node),
      slice_from-append user node,
    ))
