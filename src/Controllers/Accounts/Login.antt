-- ===== src/Controllers/Accounts/Login.antt =====
-- login_user of src/controllers/user_controller.rs.
use hush_net_backend.Prelude.{
  suc, String, not, true, ◌&&◌, ◌≡◌, refl, sym, subst, ap, ◌∙◌, Option, none, some, List, [], ◌∷◌,
  inl, inr, ◌==◌, ==_iff, str_eq, Bool-cases, exists_where, select_where, find_where_sound,
  find_of_exists, exists-select_where, AnyOf, arith,
}
use text.Mathlib.TextPositions.{eq_refl}
use mathlib.Core.Option
use hush_net_backend.Models.{Uuid, UserRow, Devices, DeviceBundle, to_strings}
use hush_net_backend.Store.{Db, World, Result, ok, err, SqlError, column_decode}
use hush_net_backend.Store.Inversion.{ok-injective, lift-eq-ok, query_elim}
use hush_net_backend.Store.{fine}
use hush_net_backend.Store.Inversion.{query_fine}
use hush_net_backend.Store.Forward.{
  bind_step, ok_or_step, gets_run, throw_if_step, throw_if_run, map_err_step, pure_run,
}
use hush_net_backend.Web.{Response, respond, user}
use hush_net_backend.Repository.Accounts.{
  user_of, owns_key, has_identity_key, bundle_of, bundles_of, get_device_bundle,
  find_user_by_pubkey,
}
use hush_net_backend.Repository.Shadow.{user_exists}
use hush_net_backend.Utils.Crypto.{verify_message_signature}
use hush_net_backend.Utils.Crypto.Prekeys.{SignedBy}
use hush_net_backend.Controllers.Accounts.{LoginUserBody, login_user}

message_run :
    (key message signature : String) (w : World)
    → SignedBy w.env key message signature
    → verify_message_signature w.env key message signature w ≡ (ok tt, w)
unfolding verify_message_signature
message_run key message signature w s =
    ok_or_step _ _ w s.identity_decodes
    ∙ ok_or_step _ _ w s.spk_decodes
    ∙ ok_or_step _ _ w s.sig_decodes
    ∙ throw_if_step _ _ w (ap not s.valid_length)
    ∙ throw_if_step _ _ w (ap not s.valid_identity)
    ∙ throw_if_run _ w (ap not s.verified)

-- a bundle that is handed out is made of one of the rows
bundles-key :
    (b : DeviceBundle) (rows : List Devices) (bs : List DeviceBundle)
    → bundles_of rows ≡ ok bs
    → AnyOf (λ x. x ≡ b) bs
    → exists_where (has_identity_key b.identity_pubkey) rows ≡ true
unfolding bundles_of
bundles-key b [] bs e h = absurd (subst (AnyOf (λ x. x ≡ b)) (sym (ok-injective e)) h)
bundles-key b (row ∷ rows) bs e h =
    go (bundles-key b rows) (to_strings row.one_time_prekeys) (bundles_of rows) refl e h
  where
    first_row :
        row.identity_pubkey ≡ b.identity_pubkey
        → exists_where (has_identity_key b.identity_pubkey) (row ∷ rows) ≡ true
    first_row same =
        ground (
          arith,
          subst (λ k. str_eq row.identity_pubkey k ≡ true) same (eq_refl row.identity_pubkey),
        )

    later_row :
        exists_where (has_identity_key b.identity_pubkey) rows ≡ true
        → exists_where (has_identity_key b.identity_pubkey) (row ∷ rows) ≡ true
    later_row there = ground (arith, there)

    go :
        (again : (bundles : List DeviceBundle)
          → bundles_of rows ≡ ok bundles
          → AnyOf (λ x. x ≡ b) bundles
          → exists_where (has_identity_key b.identity_pubkey) rows ≡ true)
        (o : Option (List String)) (r : Result SqlError (List DeviceBundle))
        → bundles_of rows ≡ r
        → elim o [
          | none ↦ err column_decode
          | some otpks ↦ elim r [ err f ↦ err f | ok bundles ↦ ok (bundle_of row otpks ∷ bundles) ]
        ]
          ≡ ok bs
        → AnyOf (λ x. x ≡ b) bs
        → exists_where (has_identity_key b.identity_pubkey) (row ∷ rows) ≡ true
    go again none r e' k in_bs = ground (arith, k)
    go again (some otpks) (err f) e' k in_bs = ground (arith, k)
    go again (some otpks) (ok bundles) e' k in_bs =
        elim (subst (AnyOf (λ x. x ≡ b)) (sym (ok-injective k)) in_bs) [
          | inl here ↦ first_row (ap (λ (x : DeviceBundle). x.identity_pubkey) here)
          | inr rest ↦ later_row (again bundles e' rest)
        ]

owner-exists :
    (key : String) (id : Uuid) (db : Db) (users : List UserRow)
    → exists_where (λ d. d.user_id == id && has_identity_key key d) db.devices ≡ true
    → exists_where (λ u. u.id == id) users ≡ true
    → exists_where (owns_key key db) users ≡ true
owner-exists key id db [] owns h = h
owner-exists key id db (u ∷ users) owns h = elim (Bool-cases (u.id == id)) [
  | inl same ↦ here (
      subst (λ i. exists_where (λ d. d.user_id == i && has_identity_key key d) db.devices ≡ true)
        (sym ((==_iff u.id id).0 same)) owns)
  | inr other ↦ later (owner-exists key id db users owns (ground (arith, h, other)))
]
  where
    here : owns_key key db u ≡ true → exists_where (owns_key key db) (u ∷ users) ≡ true
    here k = ground (arith, k)

    later :
        exists_where (owns_key key db) users ≡ true
        → exists_where (owns_key key db) (u ∷ users) ≡ true
    later k = ground (arith, k)

-- the login with the public parts of a key bundle
abbrev pub login_with : DeviceBundle → LoginUserBody
login_with b = record {
  identity_pubkey = b.identity_pubkey;
  message = b.signed_prekey_pub;
  signature = b.signed_prekey_sig;
}

-- A login as some user who has a device with the bundle's identity key.
abbrev pub AnsweredAs : DeviceBundle → World → Type 0
AnsweredAs b w =
    (u : UserRow) × ((login_user (login_with b) w).0 ≡ ok (respond 200 (user (some (user_of u)))))
    × (owns_key b.identity_pubkey w.db u ≡ true)

run-AnsweredAs :
    (b : DeviceBundle) (w : World)
    → SignedBy w.env b.identity_pubkey b.signed_prekey_pub b.signed_prekey_sig
    → w.env.fault w.calls ≡ fine
    → exists_where (owns_key b.identity_pubkey w.db) w.db.users ≡ true
    → AnsweredAs b w
unfolding login_user find_user_by_pubkey
run-AnsweredAs b w s up there =
    let (u, found) = find_of_exists (owns_key b.identity_pubkey w.db) w.db.users there in
    (
      u,
      ap (λ (x : Result Response Response × World). x.0)
            (gets_run _ _ w
              ∙ bind_step _ _ (
                  map_err_step _ _
                    (message_run b.identity_pubkey b.signed_prekey_pub b.signed_prekey_sig w s))
              ∙ bind_step _ _ (map_err_step _ _ (query_fine _ w up))
              ∙ pure_run _ _)
          ∙ ap (λ (o : Option UserRow). ok (respond 200 (user (Option.map user_of o)))) found,
      find_where_sound (owns_key b.identity_pubkey w.db) w.db.users found,
    )

-- The key bundles that a node hands out are enough to log in. Of a user's bundles take one with a
-- signed prekey, as every device has that create_device made: whoever sends its identity key, prekey
-- and signature to login_user is answered with 200 and a user who has a device with that key, as long
-- as the bundles' user exists and the database answers.
pub bundle_logs_in :
    (user_id : Uuid) (bs : List DeviceBundle) (b : DeviceBundle) (w v : World)
    → get_device_bundle user_id w ≡ (ok bs, v)
    → AnyOf (λ x. x ≡ b) bs
    → SignedBy w.env b.identity_pubkey b.signed_prekey_pub b.signed_prekey_sig
    → user_exists user_id w.db ≡ true
    → w.env.fault (suc w.calls) ≡ fine
    → AnsweredAs b v
unfolding get_device_bundle
bundle_logs_in user_id bs b w v e one signed known up = query_elim _ _ e (λ rows said rest.
    let w1 : World = record w { calls = suc w.calls } in
    let (made, next) = lift-eq-ok (bundles_of rows) rest in
    let keys =
      bundles-key b (select_where (λ d. d.user_id == user_id) w.db.devices) bs
        (ap bundles_of (ok-injective said) ∙ made) one in
    subst (AnsweredAs b) next (
      run-AnsweredAs b w1 signed up (
        owner-exists b.identity_pubkey user_id w.db w.db.users
          (exists-select_where (has_identity_key b.identity_pubkey) (λ d. d.user_id == user_id)
            w.db.devices keys)
          known)))
