-- ===== src/Auth/Device/Replayed.antt =====
-- src/middlewares/auth.rs: what an authenticated device has shown, and showing it again.
use hush_net_backend.Prelude.{
  suc, String, false, not, ◌≡◌, ap, ◌∙◌, Option, some, List, order_by_desc, select_where,
}
use hush_net_backend.Prelude.Text.{as_bytes}
use hush_net_backend.Prelude.Decimal.{parse_i64}
use hush_net_backend.Models.{Devices}
use hush_net_backend.Store.{Env, Db, World, Bytes, fine, Result, ok, SqlError, fetch_one, head?}
use hush_net_backend.Store.Inversion.{
  ok_or_elim, throw_if_elim, gets_step, map_err-eq-ok, query-eq-ok, query_fine,
}
use hush_net_backend.Store.Forward.{ok_or_step, gets_run, throw_if_step, map_err_step}
use hush_net_backend.Web.{Parts, HeaderValue, Response}
use hush_net_backend.Repository.Accounts.{has_identity_key, created, get_device_by_identity_key}
use hush_net_backend.Utils.Keys.{to_array}
use hush_net_backend.Auth.Window.{outside_window}
use hush_net_backend.Auth.Device.{text_of, or_zero, authenticate_device}

-- the row that the extractor finds
abbrev pub found_device : String → Db → Result SqlError Devices
found_device key db =
    fetch_one (head? (order_by_desc created (select_where (has_identity_key key) db.devices)))

-- What an accepted request has shown: a fresh timestamp, signed under the key that it names, and a
-- device with that key.
pub record Shown (parts : Parts) (w : World) (d : Devices) : Type 0 where
  pub key : String
  pub signature : String
  pub ts : String
  pub sig_bytes : Bytes
  pub sig_array : Bytes
  pub key_bytes : Bytes
  pub key_array : Bytes
  pub has_key : text_of (parts.header "X-Identity-Key") ≡ some key
  pub has_signature : text_of (parts.header "X-Signature") ≡ some signature
  pub has_ts : text_of (parts.header "X-Timestamp") ≡ some ts
  pub in_time : outside_window 30 (w.env.utc_now w.calls) (or_zero (parse_i64 ts)) ≡ false
  pub sig_decodes : w.env.decode_b64 signature ≡ some sig_bytes
  pub sig_length : to_array 64 sig_bytes ≡ some sig_array
  pub key_decodes : w.env.decode_b64 key ≡ some key_bytes
  pub key_length : to_array 32 key_bytes ≡ some key_array
  pub key_valid : not (w.env.valid_key key_array) ≡ false
  pub verified : not (w.env.verify key_array (as_bytes ts) sig_array) ≡ false
  pub found : found_device key w.db ≡ ok d

-- A device that is authenticated has shown a timestamp in time, signed under its identity key.
pub authenticate_device-Shown :
    (parts : Parts) (w v : World) (d : Devices)
    → authenticate_device parts w ≡ (ok d, v)
    → Shown parts w d
unfolding authenticate_device get_device_by_identity_key
authenticate_device-Shown parts w v d e =
    ok_or_elim (text_of (parts.header "X-Identity-Key")) _ _ e (λ key h1 e1.
      ok_or_elim (text_of (parts.header "X-Signature")) _ _ e1 (λ sig h2 e2.
        ok_or_elim (text_of (parts.header "X-Timestamp")) _ _ e2 (λ ts h3 e3.
          throw_if_elim (outside_window 30 (w.env.utc_now w.calls) (or_zero (parse_i64 ts))) _ _
            (gets_step _ _ e3)
            (λ h4 e4. ok_or_elim (w.env.decode_b64 sig) _ _ (gets_step _ _ e4) (λ sb h5 e5.
              ok_or_elim (to_array 64 sb) _ _ e5 (λ sa h6 e6.
                ok_or_elim (w.env.decode_b64 key) _ _ e6 (λ kb h7 e7.
                  ok_or_elim (to_array 32 kb) _ _ e7 (λ ka h8 e8.
                    throw_if_elim (not (w.env.valid_key ka)) _ _ e8 (λ h9 e9.
                      throw_if_elim (not (w.env.verify ka (as_bytes ts) sa)) _ _ e9 (λ h10 e10.
                        record {
                          key = key;
                          signature = sig;
                          ts = ts;
                          sig_bytes = sb;
                          sig_array = sa;
                          key_bytes = kb;
                          key_array = ka;
                          has_key = h1;
                          has_signature = h2;
                          has_ts = h3;
                          in_time = h4;
                          sig_decodes = h5;
                          sig_length = h6;
                          key_decodes = h7;
                          key_length = h8;
                          key_valid = h9;
                          verified = h10;
                          found = (query-eq-ok _ (map_err-eq-ok _ _ e10)).0;
                        }))))))))))

-- The headers of an accepted request are accepted again, for whatever request, as long as the
-- timestamp is in time, the devices are the same and the database answers: the signature covers
-- the timestamp alone, and nothing records its use.
pub device_headers_replay :
    (parts parts' : Parts) (w v u : World) (d : Devices)
    → authenticate_device parts w ≡ (ok d, v)
    → parts'.header ≡ parts.header
    → u.env ≡ w.env
    → u.db.devices ≡ w.db.devices
    → u.env.fault u.calls ≡ fine
    → ((ts : String)
        → text_of (parts.header "X-Timestamp") ≡ some ts
        → outside_window 30 (u.env.utc_now u.calls) (or_zero (parse_i64 ts)) ≡ false)
    → (authenticate_device parts' u).0 ≡ ok d
unfolding authenticate_device get_device_by_identity_key
device_headers_replay parts parts' w v u d e same env devices fault in_time =
    let s = authenticate_device-Shown parts w v d e in
    let at : (name : String) → text_of (parts'.header name) ≡ text_of (parts.header name) =
      λ name. ap (λ (h : String → Option HeaderValue). text_of (h name)) same in
    ap (λ (x : Result Response Devices × World). x.0)
      (ok_or_step _ _ u (at "X-Identity-Key" ∙ s.has_key)
        ∙ ok_or_step _ _ u (at "X-Signature" ∙ s.has_signature)
        ∙ ok_or_step _ _ u (at "X-Timestamp" ∙ s.has_ts)
        ∙ gets_run _ _ u
        ∙ throw_if_step _ _ u (in_time s.ts s.has_ts)
        ∙ gets_run _ _ u
        ∙ ok_or_step _ _ u (ap (λ (x : Env). x.decode_b64 s.signature) env ∙ s.sig_decodes)
        ∙ ok_or_step _ _ u s.sig_length
        ∙ ok_or_step _ _ u (ap (λ (x : Env). x.decode_b64 s.key) env ∙ s.key_decodes)
        ∙ ok_or_step _ _ u s.key_length
        ∙ throw_if_step _ _ u (ap (λ (x : Env). not (x.valid_key s.key_array)) env ∙ s.key_valid)
        ∙ throw_if_step _ _ u (
            ap (λ (x : Env). not (x.verify s.key_array (as_bytes s.ts) s.sig_array)) env
            ∙ s.verified)
        ∙ map_err_step _ _ (
            query_fine _ u fault
            ∙ ap (λ (r : Result SqlError Devices). (r, record u { calls = suc u.calls }))
                (ap
                    (λ (ds : List Devices).
                      fetch_one
                        (head? (order_by_desc created (select_where (has_identity_key s.key) ds))))
                    devices
                  ∙ s.found)))
