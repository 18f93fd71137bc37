-- ===== src/Startup/Agreement.antt =====
-- What a node that has started says of itself: to its registry, at start-up, and in src/app_state.rs.
use hush_net_backend.Prelude.{
  String, Bool, true, false, ◌≡◌, refl, sym, ap, ◌∙◌, subst, some, if◌then◌else◌, arith,
}
use hush_net_backend.Models.{Value, get_str}
use hush_net_backend.Store.{World, ok, Exec, pure}
use hush_net_backend.Store.Inversion.{bind_elim, ok_or_elim, gets_step, pure-eq-ok}
use hush_net_backend.Web.{AppState}
use hush_net_backend.Utils.KeyFile.{StartError, load_or_generate}
use hush_net_backend.Utils.KeyFile.Kept.{PrettyReadsBack, load-Loaded}
use hush_net_backend.Registry.{payload_of, register_with_registry}
use hush_net_backend.Registry.Registered.{Registered, Registered-from, register-Registered}
use hush_net_backend.Startup.{connect, wants_registration, registry_url_var, start}

-- the `host` and the `api_base_url` of a payload
abbrev pub Says : Value → String → String → Type 0
Says payload host api_url =
    (get_str payload "host" ≡ some host) × (get_str payload "api_base_url" ≡ some api_url)

-- The registry was told what the state says: the public half of the state's keys, and a payload with
-- the state's node id and URL, signed under the state's keys.
pub record Told (state : AppState) (w v : World) : Type 0 where
  pub registered : Registered state.registry_url state.node_keys w v
  pub payload_says : Says (payload_of w.env) state.this_node_id state.this_api_url

connect-same :
    (url : String) (w v : World)
    → connect url w ≡ (ok tt, v)
    → (v.env ≡ w.env) × (v.sent ≡ w.sent) × (v.key_file ≡ w.key_file)
unfolding connect
connect-same url w v e =
    let next = ap (λ x. x.1) e in
    (
      ap (λ (x : World). x.env) (sym next),
      ap (λ (x : World). x.sent) (sym next),
      ap (λ (x : World). x.key_file) (sym next),
    )

if-true :
    (b : Bool) (m : Exec StartError (Unit {0})) (w v : World)
    → b ≡ true
    → (if b then m else pure tt) w ≡ (ok tt, v)
    → m w ≡ (ok tt, v)
if-true true m w v h e = e
if-true false m w v h e = ground (arith, h)

-- A node that starts and is set to register has told the registry what its state says of it: host,
-- API URL and public key are those of the state, and the signature is made with the state's keys. The
-- key file may be there before or be written now; serde_json reads back what it wrote.
pub start-Told :
    (w v : World) (state : AppState)
    → PrettyReadsBack w.env
    → wants_registration w.env ≡ true
    → start w ≡ (ok state, v)
    → Told state w v
unfolding start
start-Told w v state codec wants e =
    ok_or_elim (w.env.var "DATABASE_URL") _ _ (gets_step _ _ e) (λ url _ e1.
      ok_or_elim (w.env.var "JWT_SECRET") _ _ e1 (λ secret _ e2.
        bind_elim (connect url) _ e2 (λ _ w1 reached e3.
          bind_elim load_or_generate _ e3 (λ keys w2 loaded e4.
            bind_elim
              (if wants_registration w.env
                then register_with_registry (registry_url_var w.env)
                else pure tt)
              _ e4
              (λ _ w3 registered e5.
                let (made, next) = pure-eq-ok _ e5 in
                let (env1, sent1, _) = connect-same url w w1 reached in
                let l = load-Loaded w1 w2 keys (subst PrettyReadsBack (sym env1) codec) loaded in
                let told =
                  register-Registered (registry_url_var w.env) keys w2 w3 l.holds
                    (if-true (wants_registration w.env) _ w2 w3 wants registered) in
                subst (Told state w) next (
                  subst (λ s. Told s w w3) made
                    (record {
                      registered =
                          Registered-from (registry_url_var w.env) keys w w2 w3 (l.env_kept ∙ env1)
                            (l.sent_kept ∙ sent1) told;
                      payload_says = (refl, refl);
                    })))))))
