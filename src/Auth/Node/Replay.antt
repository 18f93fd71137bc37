-- ===== src/Auth/Node/Replay.antt =====
-- Replays of node requests, between whatever other steps of the node: src/middlewares/node_auth.rs.
use hush_net_backend.Prelude.{
  ℕ, ◌+◌, ◌^◌, ◌≤◌, ◌<◌, String, ◌≡◌, ◌≢◌, sym, ap, subst, ◌∙◌, ◌⊎◌, inl, inr, true, false, Option,
  some, arith,
}
use hush_net_backend.Prelude.Decimal.{parse_i64}
use hush_net_backend.Prelude.Decimal.Range.{parse_i64-lt}
use hush_net_backend.Models.{FederationNode}
use hush_net_backend.Store.{Env, World, Result, ok}
use hush_net_backend.Store.Runs.{Later, Later-refl, Later-trans, Runs-at}
use hush_net_backend.Web.{AppState, Parts, HeaderValue}
use native.Mathlib.Decide.{dec_le}
use mathlib.Core.Option.{some-injective}
use mathlib.Core.Path.{subst₂}
use hush_net_backend.Web.{Response}
use hush_net_backend.Repository.Federation.{claim_nonce, purge_expired_nonces}
use hush_net_backend.Repository.Federation.Nonces.{
  IsClaimed, purge-IsClaimed, claim_nonce_seen, claim_nonce_fresh,
}
use hush_net_backend.Auth.Window.{outside_window}
use hush_net_backend.Auth.Window.Bounds.{window_spread}
use hush_net_backend.Auth.Node.{header_text, authenticate_node}
use hush_net_backend.Auth.Node.Frames.{authenticate_node-Keeps, authenticate_node-Runs, purge-Runs}
use hush_net_backend.Auth.Node.Accepted.{Accepted, authenticate_node-Accepted}

-- One step of the node: a node request is authenticated, the worker purges old nonces, or anything
-- else happens that leaves the nonce table alone.
pub data Step : World → World → Type 0 where
  request :
      (state : AppState) (parts : Parts) (w : World) → Step w (authenticate_node state parts w).1
  purge : (w : World) → Step w (purge_expired_nonces w).1
  other : {w v : World} → Later w v → v.db.used_node_nonces ≡ w.db.used_node_nonces → Step w v

pub data Reach (w : World) : World → Type 0 where
  here : Reach w w
  next : {u v : World} → Reach w u → Step u v → Reach w v

-- The clocks: the database's never runs backwards, this process's is within a minute of it, and
-- both are far from the end of an i64.
pub record SaneClocks (env : Env) : Type 0 where
  pub monotone : (i j : ℕ) → i ≤ j → env.db_now i ≤ env.db_now j
  pub ahead : (i : ℕ) → env.utc_now i ≤ env.db_now i + 60
  pub behind : (i : ℕ) → env.db_now i ≤ env.utc_now i + 60
  pub bounded : (i : ℕ) → env.utc_now i < 2 ^ 62

Step-Later : {w v : World} → Step w v → Later w v
Step-Later (request state parts w) = (authenticate_node-Runs state parts).at w
Step-Later (purge w) = purge-Runs.at w
Step-Later (other l e) = l

Reach-Later : {w v : World} → Reach w v → Later w v
Reach-Later {w} here = Later-refl w
Reach-Later (next r s) = Later-trans (Reach-Later r) (Step-Later s)

-- The claim at time `t` is on record, or more than five minutes have passed.
abbrev Held : String → String → ℕ → World → Type 0
Held node_id nonce t w = IsClaimed node_id nonce t w.db ⊎ (t + 300 < w.env.db_now w.calls)

module _ (node_id nonce : String) (t : ℕ) where
  -- time passes
  late :
      {w v : World}
      → SaneClocks w.env
      → Later w v
      → t + 300 < w.env.db_now w.calls
      → t + 300 < v.env.db_now v.calls
  late {w} {v} clocks l h =
      rw l.same_env (omega (arith, clocks.monotone w.calls v.calls l.more_calls))

  Step-Held :
      {w v : World} → SaneClocks w.env → Step w v → Held node_id nonce t w → Held node_id nonce t v
  Step-Held clocks s (inr old) = inr (late clocks (Step-Later s) old)
  Step-Held clocks (request state parts w) (inl h) =
      inl ((authenticate_node-Keeps node_id nonce t state parts).at w h)
  Step-Held clocks (purge w) (inl h) = elim (dec_le (w.env.db_now w.calls) (t + 300)) [
    | yes young ↦ inl (purge-IsClaimed node_id nonce t w h young)
    | no old ↦ inr (late clocks (purge-Runs.at w) (omega arith))
  ]
  Step-Held clocks (other l e) (inl h) = inl (record { found = rw e h.found })

  Reach-Held :
      {w v : World} → SaneClocks w.env → Reach w v → Held node_id nonce t w → Held node_id nonce t v
  Reach-Held clocks here h = h
  Reach-Held {w} clocks (next {u} r s) h =
      Step-Held (subst SaneClocks (sym (Reach-Later r).same_env) clocks) s (Reach-Held clocks r h)

-- `header_text` of one header, under equal headers
same_text :
    (parts parts' : Parts) (name : String) {s s' : String}
    → parts'.header ≡ parts.header
    → header_text (parts.header name) ≡ some s
    → header_text (parts'.header name) ≡ some s'
    → s' ≡ s
same_text parts parts' name e h h' =
    some-injective _ _
      (sym h' ∙ ap (λ (f : String → Option HeaderValue). header_text (f name)) e ∙ h)

module _ (parts parts' : Parts) (same : parts'.header ≡ parts.header) {w v u x : World} where
  -- The second acceptance would come within 240 seconds of the first claim.
  too_late :
      SaneClocks w.env
      → (a : Accepted parts w v) → Accepted parts' u x
      → u.env ≡ w.env
      → ¬ (a.claimed_in.env.db_now a.claimed_in.calls + 300 < u.env.db_now u.calls)
  too_late clocks a b env old =
      let same_ts : b.ts ≡ a.ts = some-injective _ _ (
        sym b.parsed
        ∙ ap parse_i64 (same_text parts parts' "X-Timestamp" same a.has_ts b.has_ts)
        ∙ a.parsed) in
      let spread =
        window_spread 60 (w.env.utc_now w.calls) (w.env.utc_now u.calls) a.ts (omega arith)
          (clocks.bounded w.calls) (clocks.bounded u.calls) (parse_i64-lt a.ts_str a.parsed)
          a.in_time
          (subst (λ (e : Env). outside_window 60 (e.utc_now u.calls) a.ts ≡ false) env
            (rw (← same_ts) b.in_time)) in
      let old' : w.env.db_now a.claimed_in.calls + 300 < w.env.db_now u.calls =
        subst₂ (λ (e e' : Env). e.db_now a.claimed_in.calls + 300 < e'.db_now u.calls)
          a.later.same_env env old in
      omega (
        arith,
        spread,
        old',
        clocks.ahead w.calls,
        clocks.behind u.calls,
        clocks.monotone w.calls a.claimed_in.calls a.later.more_calls,
      )

  not_Held :
      SaneClocks w.env
      → (a : Accepted parts w v) → Accepted parts' u x
      → u.env ≡ w.env
      → ¬ Held a.node_id a.nonce (a.claimed_in.env.db_now a.claimed_in.calls) u
  not_Held clocks a b env (inr old) = too_late clocks a b env old
  not_Held clocks a b env (inl claimed) =
      claim_nonce_seen a.node_id a.nonce (a.claimed_in.env.db_now a.claimed_in.calls) b.claimed_in x
        (b.kept _ _ _ claimed)
        (subst₂ (λ (id n : String). claim_nonce id n b.claimed_in ≡ (ok true, x))
          (same_text parts parts' "X-Node-ID" same a.has_node_id b.has_node_id)
          (same_text parts parts' "X-Nonce" same a.has_nonce b.has_nonce) b.claimed)

pair_path :
    {A : Type 0} {m : Result Response A × World} {r : Result Response A} → m.0 ≡ r → m ≡ (r, m.1)
pair_path {m = m} e = ap (λ (r : Result Response _). (r, m.1)) e

-- A request that was accepted is not accepted again: whatever steps the node takes in between, with
-- whatever database faults, a request with the same headers is refused, if the clocks are sane.
pub accepted_once :
    (state state' : AppState) (parts parts' : Parts) (w v u : World) (node node' : FederationNode)
    → SaneClocks w.env
    → authenticate_node state parts w ≡ (ok node, v)
    → Reach v u
    → parts'.header ≡ parts.header
    → (authenticate_node state' parts' u).0 ≢ ok node'
accepted_once state state' parts parts' w v u node node' clocks e r same again =
    let a = authenticate_node-Accepted state parts e in
    let after_first : Later w v = Runs-at (authenticate_node-Runs state parts) e in
    let clocks' : SaneClocks v.env = subst SaneClocks (sym after_first.same_env) clocks in
    let b = authenticate_node-Accepted state' parts' (pair_path again) in
    not_Held parts parts' same clocks a b ((Reach-Later r).same_env ∙ after_first.same_env) (
      Reach-Held a.node_id a.nonce _ clocks' r
        (inl (claim_nonce_fresh a.node_id a.nonce a.claimed_in v a.claimed)))
