-- ===== src/Repository/Accounts/Bundles.antt =====
-- get_device_bundle of src/repository/device_repository.rs, fetching twice.
use hush_net_backend.Prelude.{◌≡◌, sym, ap, ◌∙◌, List, ◌==◌, select_where}
use hush_net_backend.Models.{Uuid, Devices, DeviceBundle}
use hush_net_backend.Store.{Db, World, Result, ok, SqlError, lift, ◌>>=◌}
use hush_net_backend.Store.Inversion.{query_elim, ok-injective}
use hush_net_backend.Repository.Accounts.{bundles_of, get_device_bundle}

lift-eq-ok :
    {A : Type 0} (r : Result SqlError A) {w v : World} {a : A}
    → lift r w ≡ (ok a, v)
    → (r ≡ ok a) × (w ≡ v)
unfolding ◌>>=◌
lift-eq-ok r {w} {v} {a} h = (ap (λ x. x.0) h, ap (λ x. x.1) h)

abbrev pub devices_of : Uuid → Db → List Devices
devices_of user_id db = select_where (λ d. d.user_id == user_id) db.devices

bundle-run :
    (user_id : Uuid) (w v : World) (out : List DeviceBundle)
    → get_device_bundle user_id w ≡ (ok out, v)
    → (bundles_of (devices_of user_id w.db) ≡ ok out) × (v.db ≡ w.db)
unfolding get_device_bundle
bundle-run user_id w v out e = query_elim _ _ e (λ rows said rest.
    let (made, next) = lift-eq-ok (bundles_of rows) rest in
    (ap bundles_of (ok-injective said) ∙ made, ap (λ (x : World). x.db) (sym next)))

-- Fetching a user's key bundles writes nothing, so that a second fetch hands out the same bundles,
-- the one-time prekeys among them.
pub bundles_again :
    (user_id : Uuid) (w v u : World) (out out' : List DeviceBundle)
    → get_device_bundle user_id w ≡ (ok out, v)
    → get_device_bundle user_id v ≡ (ok out', u)
    → (v.db ≡ w.db) × (out' ≡ out)
bundles_again user_id w v u out out' first second =
    let (made, kept) = bundle-run user_id w v out first in
    let (made', _) = bundle-run user_id v u out' second in
    (
      kept,
      ok-injective (sym made' ∙ ap (λ (db : Db). bundles_of (devices_of user_id db)) kept ∙ made),
    )
