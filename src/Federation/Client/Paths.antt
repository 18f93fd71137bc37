-- ===== src/Federation/Client/Paths.antt =====
-- url_path of src/federation/client.rs: the path that a GET request signs.
use hush_net_backend.Prelude.{suc, String, ◌≡◌, refl, false, some, arith}
use hush_net_backend.Prelude.Text.{has, find, slice_from}
use hush_net_backend.Federation.Client.{find_scheme, url_path}
use hush_net_backend.Federation.Address.RoundTrip.{size}
use Prim.Native.String.{◌++◌}
use text.Mathlib.TextLemmas.{nil-append, cons-append}

-- `scheme://host/rest`
abbrev pub url_of : String → String → String → String
url_of scheme host rest =
    scheme ++ String.◌∷◌ ":" (String.◌∷◌ "/" (String.◌∷◌ "/" (host ++ String.◌∷◌ "/" rest)))

find_scheme-append :
    (scheme t : String)
    → has b':' scheme ≡ false
    → find_scheme (scheme ++ String.◌∷◌ ":" (String.◌∷◌ "/" (String.◌∷◌ "/" t)))
      ≡ some (size scheme)
find_scheme-append String.[] t h = rw nil-append refl
find_scheme-append (String.◌∷◌ x scheme) t h =
    rw cons-append (ground (arith, h, find_scheme-append scheme t))

slice_from-skip :
    (scheme t : String)
    → slice_from
        (suc (suc (suc (size scheme))))
        (scheme ++ String.◌∷◌ ":" (String.◌∷◌ "/" (String.◌∷◌ "/" t)))
      ≡ t
slice_from-skip String.[] t = rw nil-append refl
slice_from-skip (String.◌∷◌ x scheme) t = rw cons-append (slice_from-skip scheme t)

find-slash :
    (host rest : String)
    → has b'/' host ≡ false
    → find b'/' (host ++ String.◌∷◌ "/" rest) ≡ some (size host)
find-slash String.[] rest h = rw nil-append refl
find-slash (String.◌∷◌ x host) rest h = rw cons-append (ground (arith, h, find-slash host rest))

slice_from-host : (host t : String) → slice_from (size host) (host ++ t) ≡ t
slice_from-host String.[] t = rw nil-append refl
slice_from-host (String.◌∷◌ x host) t = rw cons-append (slice_from-host host t)

-- The path of `scheme://host/rest` is `/rest`: all that follows the host, the path prefix of a
-- peer's API URL included, where the scheme has no `:` and the host no `/`.
pub url_path-url :
    (scheme host rest : String)
    → has b':' scheme ≡ false
    → has b'/' host ≡ false
    → url_path (url_of scheme host rest) ≡ "/" ++ rest
unfolding url_path
url_path-url scheme host rest h k =
    let t = host ++ String.◌∷◌ "/" rest in
    ground (
      arith,
      find_scheme-append scheme t h,
      slice_from-skip scheme t,
      find-slash host rest k,
      slice_from-host host (String.◌∷◌ "/" rest),
      cons-append "/" String.[] rest,
      nil-append rest,
    )
