-- ===== src/Auth/Node/Accepted.antt =====
-- What an accepted node request has passed.
use hush_net_backend.Prelude.{ℕ, String, ◌≡◌, refl, Bool, true, false, some, not}
use hush_net_backend.Prelude.Decimal.{parse_i64}
use hush_net_backend.Models.{FederationNode}
use hush_net_backend.Store.{World, ok, pure, ◌>>◌, map_err, ◌>>=◌, throw_if}
use hush_net_backend.Store.Runs.{Later, Later-trans, Runs-at}
use hush_net_backend.Store.Inversion.{
  bind_elim, gets_step, ok_or_elim, throw_if_elim, map_err-eq-ok, pure-eq-ok,
}
use hush_net_backend.Web.{AppState, Parts}
use hush_net_backend.Repository.Federation.{claim_nonce}
use hush_net_backend.Repository.Federation.Nonces.{IsClaimed}
use hush_net_backend.Store.Keeps.{Keeps-at}
use hush_net_backend.Auth.Node.Frames.{
  resolve_peer-Runs, check_signature-Runs, resolve_peer-Keeps, check_signature-Keeps,
}
use hush_net_backend.Auth.Window.{outside_window}
use hush_net_backend.Auth.Node.{header_text, header_str, authenticate_node, db_error}
use hush_net_backend.Web.{respond, plain}
use mathlib.Core.Path.{ap₂, ◌∙◌}

eq-true_of_not : (b : Bool) → not b ≡ false → b ≡ true
eq-true_of_not true h = refl
eq-true_of_not false h = cc

-- The checks that a request accepted at `w` with the final world `v` has passed: its headers, its
-- timestamp at the clock of `w`, and the claim of its nonce in a later world.
pub record Accepted (parts : Parts) (w v : World) : Type 0 where
  pub node_id : String
  pub ts_str : String
  pub nonce : String
  pub ts : ℕ
  pub claimed_in : World
  pub has_node_id : header_text (parts.header "X-Node-ID") ≡ some node_id
  pub has_ts : header_text (parts.header "X-Timestamp") ≡ some ts_str
  pub has_nonce : header_text (parts.header "X-Nonce") ≡ some nonce
  pub parsed : parse_i64 ts_str ≡ some ts
  pub in_time : outside_window 60 (w.env.utc_now w.calls) ts ≡ false
  pub later : Later w claimed_in
  pub kept : (id n : String) (t : ℕ) → IsClaimed id n t w.db → IsClaimed id n t claimed_in.db
  pub claimed : claim_nonce node_id nonce claimed_in ≡ (ok true, v)

module _ (state : AppState) (parts : Parts) {v : World} {node : FederationNode} where
  -- the end of the block: the nonce
  claim_elim :
      (n : FederationNode) (id nonce : String) (w : World)
      → (map_err db_error (claim_nonce id nonce) >>= λ fresh.
            throw_if (not fresh) (respond 401 (plain "replayed nonce")) >> pure n)
          w
        ≡ (ok node, v)
      → claim_nonce id nonce w ≡ (ok true, v)
  claim_elim n id nonce w h = bind_elim _ _ h λ fresh u e1 h1. throw_if_elim _ _ _ h1 λ granted h2.
      let (_, last) = pure-eq-ok n h2 in
      map_err-eq-ok db_error (claim_nonce id nonce) e1
      ∙ ap₂ (λ (b : Bool) (x : World). (ok b, x)) (eq-true_of_not fresh granted) last

  pub authenticate_node-Accepted :
      {w : World} → authenticate_node state parts w ≡ (ok node, v) → Accepted parts w v
  unfolding authenticate_node header_str
  authenticate_node-Accepted {w} h = ok_or_elim _ _ _ h λ node_id e1 h1.
      ok_or_elim _ _ _ h1 λ ts_str e2 h2. ok_or_elim _ _ _ h2 λ nonce e3 h3.
        ok_or_elim _ _ _ h3 λ sig e4 h4. ok_or_elim _ _ _ (gets_step _ _ h4) λ ts e5 h5.
          throw_if_elim _ _ _ h5 λ in_time h6. bind_elim _ _ h6 λ n u e7 h7.
            throw_if_elim _ _ _ h7 λ open_node h8. bind_elim _ _ h8 λ checked u' e9 h9. record {
              node_id = node_id;
              ts_str = ts_str;
              nonce = nonce;
              ts = ts;
              claimed_in = u';
              has_node_id = e1;
              has_ts = e2;
              has_nonce = e3;
              parsed = e5;
              in_time = in_time;
              later =
                  Later-trans (Runs-at (resolve_peer-Runs state node_id) e7)
                    (Runs-at (check_signature-Runs parts n ts_str nonce sig) e9);
              kept = λ id m t c.
                  Keeps-at (check_signature-Keeps id m t parts n ts_str nonce sig) e9
                    (Keeps-at (resolve_peer-Keeps id m t state node_id) e7 c);
              claimed = claim_elim n node_id nonce _ h9;
            }
