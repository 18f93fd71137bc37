-- ===== src/Startup/Serves.antt =====
-- src/main.rs behind the start: the router, which axum builds before the socket is bound.
use hush_net_backend.Prelude.{
  String, Bool, true, false, ◌&&◌, ◌||◌, ◌≡◌, not, ap, refl, sym, ◌∙◌, ◌==◌, arith,
}
use hush_net_backend.Store.{World, ok, Exec, pure, throw_if, ◌>>=◌, ◌>>◌}
use hush_net_backend.Store.Inversion.{bind_elim, throw_if_elim}
use hush_net_backend.Web.{AppState}
use hush_net_backend.Routes.{routes, all_accepted}
use hush_net_backend.Utils.KeyFile.{StartError, panicked}
use hush_net_backend.Startup.{start}
use Prim.Native.Char.{code}

-- the node that is about to listen
unfoldable pub run_node : (String → Bool) → Exec StartError AppState
run_node accepts = do
  state ← start
  throw_if (not (all_accepted accepts routes)) (panicked "Path segments must not start with `:`")
  pure state

abbrev starts_colon : String → Bool
starts_colon String.[] = false
starts_colon (String.◌∷◌ c s) = code c == b':'

-- some segment of the path starts with a colon
abbrev pub has_colon_segment : String → Bool
has_colon_segment String.[] = false
has_colon_segment (String.◌∷◌ c s) =
    let rest = has_colon_segment s in (code c == b'/' && starts_colon s) || rest

refused :
    (accepts : String → Bool) → accepts "/users/:id" ≡ false → all_accepted accepts routes ≡ false
unfolding routes all_accepted
refused accepts h = ground (arith, h)

-- The node never listens: with a router that refuses the paths with a segment that starts with a
-- colon, which axum 0.8 documents and Cargo.lock pins, no start of the node comes to its end, whatever
-- the environment, the key file and the registry are.
pub never_listens :
    (accepts : String → Bool) (w v : World) (state : AppState)
    → ((path : String) → has_colon_segment path ≡ true → accepts path ≡ false)
    → ¬ (run_node accepts w ≡ (ok state, v))
unfolding run_node
never_listens accepts w v state colons e = bind_elim start _ e (λ s u started rest.
    throw_if_elim (not (all_accepted accepts routes)) _ _ rest (λ passed end.
      absurd_bool (ap not (sym (refused accepts (colons "/users/:id" refl))) ∙ passed)))
  where
    absurd_bool : true ≡ false → ⊥
    absurd_bool h = ground (arith, h)
