-- ===== src/Registry/Registered.antt =====
-- What src/registry/register.rs sends, and what it makes of the answer.
use hush_net_backend.Prelude.{
  ℕ, suc, String, false, ◌≡◌, refl, sym, ap, ◌∙◌, subst, Option, some, List, [], ◌∷◌, ◌++◌, arith,
}
use hush_net_backend.Models.{Value, get_str}
use hush_net_backend.Store.{
  Env, World, Bytes, HttpRequest, HttpReply, unreachable, response, Result, ok, Exec, lift, ok_or,
  map_err, send, ◌>>=◌,
}
use hush_net_backend.Store.Inversion.{
  bind_elim, ok_or_elim, gets_step, pure-eq-ok, ok_or-eq-ok, if_throw-eq-ok, map_err-eq-ok,
}
use hush_net_backend.Store.Forward.{bind_step, gets_run, ok_or_step, map_err_step, pure_run}
use hush_net_backend.Web.{NodeKeys}
use hush_net_backend.Utils.Keys.{signing_key}
use hush_net_backend.Utils.KeyFile.{StartError, key_error, load_or_generate}
use hush_net_backend.Utils.KeyFile.Kept.{Holds, load-held}
use hush_net_backend.Federation.Client.{is_error_status}
use hush_net_backend.Registry.{
  challenge_request, register_request, challenge_body, register_body, register_with_registry,
}

abbrev asked : HttpRequest → World → World
asked req w = record w { calls = suc w.calls; sent = w.sent ++ req ∷ [] }

send_step :
    {E B : Type 0} (req : HttpRequest) (f : HttpReply → Exec E B) (w : World)
    → (send req >>= f) w ≡ f (w.env.http w.calls req) (asked req w)
unfolding send ◌>>=◌
send_step req f w = refl

-- The registration with the answers that it got: the registry gave a nonce, and then anything but no
-- answer.
pub record Registered (registry_url : String) (keys : NodeKeys) (w v : World) : Type 0 where
  pub nonce : String
  pub key : Bytes
  pub signs : signing_key w.env keys ≡ ok key
  pub sent_both :
      v.sent
      ≡ w.sent
        ++ challenge_request registry_url keys
          ∷ register_request registry_url w.env keys key nonce
          ∷ []

pub Registered-from :
    (registry_url : String) (keys : NodeKeys) (w u v : World)
    → u.env ≡ w.env
    → u.sent ≡ w.sent
    → Registered registry_url keys u v
    → Registered registry_url keys w v
Registered-from registry_url keys w u v env sent r = record {
  nonce = r.nonce;
  key = r.key;
  signs = subst (λ (e : Env). signing_key e keys ≡ ok r.key) env r.signs;
  sent_both =
      r.sent_both
      ∙ ap
          (λ (e : Env).
            u.sent
            ++ challenge_request registry_url keys
              ∷ register_request registry_url e keys r.key r.nonce
              ∷ [])
          env
      ∙ ap
          (λ sent.
            sent
            ++ challenge_request registry_url keys
              ∷ register_request registry_url w.env keys r.key r.nonce
              ∷ [])
          sent;
}

challenge_body-same :
    (r : HttpReply) (w v : World) (a : Value) → challenge_body r w ≡ (ok a, v) → w ≡ v
unfolding ◌>>=◌
challenge_body-same unreachable w v a h = ground arith
challenge_body-same (response status body) w v a h =
    let (_, rest) = if_throw-eq-ok (is_error_status status) _ (ok_or body _) w h in
    (ok_or-eq-ok body _ w rest).1

register_body-same :
    (r : HttpReply) (w v : World) (a : Unit {0}) → register_body r w ≡ (ok a, v) → w ≡ v
unfolding ◌>>=◌
register_body-same unreachable w v a h = ground arith
register_body-same (response status body) w v a h = (pure-eq-ok tt h).1

lift-eq-ok :
    {E A : Type 0} (r : Result E A) (w v : World) (a : A)
    → lift r w ≡ (ok a, v)
    → (r ≡ ok a) × (w ≡ v)
unfolding ◌>>=◌
lift-eq-ok r w v a h = (ap (λ x. x.0) h, ap (λ x. x.1) h)

append_two :
    (xs : List HttpRequest) (x y : HttpRequest) → (xs ++ x ∷ []) ++ y ∷ [] ≡ xs ++ x ∷ y ∷ []
append_two [] x y = refl
append_two (z ∷ xs) x y = ap (λ ys. z ∷ ys) (append_two xs x y)

-- A registration that returns has sent the challenge and the payload, under the pair in the key file.
pub register-Registered :
    (registry_url : String) (keys : NodeKeys) (w v : World)
    → Holds keys w
    → register_with_registry registry_url w ≡ (ok tt, v)
    → Registered registry_url keys w v
unfolding register_with_registry
register-Registered registry_url keys w v held e = bind_elim load_or_generate _ e (λ k u loaded e1.
    let (same_keys, l) = load-held w u keys k held loaded in
    let ask = challenge_request registry_url k in
    bind_elim (challenge_body (u.env.http u.calls ask)) _ (sym (send_step ask _ u) ∙ e1)
      (λ res u2 got e2.
        let at2 = challenge_body-same (u.env.http u.calls ask) (asked ask u) u2 res got in
        ok_or_elim (get_str res "nonce") _ _ e2 (λ nonce _ e3.
          bind_elim (map_err key_error (lift (signing_key u2.env k))) _ (gets_step _ _ e3)
            (λ key u3 made e4.
              let (signs, at3) = lift-eq-ok _ u2 u3 key (map_err-eq-ok key_error _ made) in
              let req = register_request registry_url u2.env k key nonce in
              let last = register_body-same _ (asked req u3) v tt (sym (send_step req _ u3) ∙ e4) in
              let env2 : u2.env ≡ w.env = ap (λ (x : World). x.env) (sym at2) ∙ l.env_kept in
              record {
                nonce = nonce;
                key = key;
                signs =
                    subst (λ j. signing_key w.env j ≡ ok key) same_keys
                      (subst (λ (env : Env). signing_key env k ≡ ok key) env2 signs);
                sent_both =
                    ap (λ (x : World). x.sent) (sym last)
                    ∙ ap (λ (x : World). x.sent ++ req ∷ []) (sym at3 ∙ sym at2)
                    ∙ append_two u.sent ask req
                    ∙ ap (λ reqs. reqs ++ ask ∷ req ∷ []) l.sent_kept
                    ∙ ap
                        (λ (env : Env).
                          w.sent ++ ask ∷ register_request registry_url env k key nonce ∷ [])
                        env2
                    ∙ ap
                        (λ j.
                          w.sent
                          ++ challenge_request registry_url j
                            ∷ register_request registry_url w.env j key nonce
                            ∷ [])
                        same_keys;
              }))))

lift_run : {E A : Type 0} {r : Result E A} {a : A} (w : World) → r ≡ ok a → lift r w ≡ (ok a, w)
unfolding ◌>>=◌
lift_run w h = ap (λ r. (r, w)) h

challenge_run :
    (status : ℕ) (res : Value) (w : World)
    → is_error_status status ≡ false
    → challenge_body (response status (some res)) w ≡ (ok res, w)
unfolding ◌>>=◌
challenge_run status res w h = rw h refl

-- Whatever the registry answers to the registration, a rejection included, the node takes itself for
-- registered: where it has its keys and the registry gave a nonce, any response will do.
pub rejection_unnoticed :
    (registry_url : String) (keys : NodeKeys) (w u : World) (key : Bytes) (res : Value)
    (nonce : String) (status status' : ℕ) (body : Option Value)
    → load_or_generate w ≡ (ok keys, u)
    → u.env.http u.calls (challenge_request registry_url keys) ≡ response status (some res)
    → is_error_status status ≡ false
    → get_str res "nonce" ≡ some nonce
    → signing_key u.env keys ≡ ok key
    → u.env.http (suc u.calls) (register_request registry_url u.env keys key nonce)
      ≡ response status' body
    → (register_with_registry registry_url w).0 ≡ ok tt
unfolding register_with_registry
rejection_unnoticed registry_url keys w u key res nonce status status' body loaded challenged good
      is signs answered =
    let ask = challenge_request registry_url keys in
    let req = register_request registry_url u.env keys key nonce in
    let u1 = asked ask u in
    ap (λ (x : Result StartError (Unit {0}) × World). x.0)
      (bind_step load_or_generate _ loaded
        ∙ send_step ask _ u
        ∙ bind_step (challenge_body (u.env.http u.calls ask)) _
            (ap (λ r. challenge_body r u1) challenged ∙ challenge_run status res u1 good)
        ∙ ok_or_step _ _ u1 is
        ∙ gets_run _ _ u1
        ∙ bind_step _ _ (map_err_step (lift _) key_error (lift_run u1 signs))
        ∙ send_step req _ u1
        ∙ ap (λ r. register_body r (asked req u1)) answered
        ∙ pure_run tt (asked req u1))
