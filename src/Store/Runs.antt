-- ===== src/Store/Runs.antt =====
-- Every action leaves the script of the outside alone and only makes further calls.
use hush_net_backend.Prelude.{
  ◌≤◌, ◌≡◌, refl, ◌∙◌, Bool, true, false, Option, none, some, subst, arith, if◌then◌else◌,
}
use hush_net_backend.Store.Outside.{World, HttpRequest, Delivery}
use hush_net_backend.Store.Action.{
  Result, ok, err, Exec, pure, throw, lift, gets, ok_or, ◌>>=◌, continue, throw_if, map_err,
  attempt, send, spawn,
}
use hush_net_backend.Store.Sql.{Statement, query}
use native.Mathlib.Nat.{le_refl, le_trans}

-- The world `v` comes after `w`.
pub record Later (w v : World) : Type 0 where
  pub same_env : v.env ≡ w.env
  pub more_calls : w.calls ≤ v.calls

pub Later-refl : (w : World) → Later w w
Later-refl w = record { same_env = refl; more_calls = le_refl w.calls }

pub Later-trans : {u v w : World} → Later u v → Later v w → Later u w
Later-trans h k = record {
  same_env = k.same_env ∙ h.same_env;
  more_calls = le_trans h.more_calls k.more_calls;
}

pub record Runs {E A : Type 0} (m : Exec E A) : Type 0 where
  pub at : (w : World) → Later w (m w).1

pub Runs-at :
    {E A : Type 0} {m : Exec E A} {w v : World} {r : Result E A} → Runs m → m w ≡ (r, v) → Later w v
Runs-at {w = w} h e = subst (λ x. Later w x.1) e (h.at w)

module _ {E A : Type 0} where
  pub Runs-pure : (a : A) → Runs (pure {E = E} a)
  unfolding ◌>>=◌
  Runs-pure a = record { at = Later-refl }

  pub Runs-throw : (e : E) → Runs (throw {A = A} e)
  unfolding ◌>>=◌
  Runs-throw e = record { at = Later-refl }

  pub Runs-lift : (r : Result E A) → Runs (lift r)
  unfolding ◌>>=◌
  Runs-lift r = record { at = Later-refl }

  pub Runs-gets : (f : World → A) → Runs (gets {E = E} f)
  unfolding ◌>>=◌
  Runs-gets f = record { at = Later-refl }

  pub Runs-ok_or : (o : Option A) (e : E) → Runs (ok_or o e)
  unfolding ◌>>=◌
  Runs-ok_or none e = record { at = Later-refl }
  Runs-ok_or (some a) e = record { at = Later-refl }

pub Runs-if :
    {E A : Type 0} (b : Bool) (m n : Exec E A) → Runs m → Runs n → Runs (if b then m else n)
Runs-if true m n rm rn = rm
Runs-if false m n rm rn = rn

pub Runs-throw_if : {E : Type 0} (b : Bool) (e : E) → Runs (throw_if b e)
unfolding ◌>>=◌
Runs-throw_if b e = record { at = Later-refl }

pub Runs-send : {E : Type 0} (req : HttpRequest) → Runs (send {E = E} req)
unfolding send
Runs-send req = record { at = λ w. record { same_env = refl; more_calls = omega arith } }

pub Runs-spawn : {E : Type 0} (d : Delivery) → Runs (spawn {E = E} d)
unfolding spawn
Runs-spawn d = record { at = λ w. record { same_env = refl; more_calls = omega arith } }

pub Runs-query : {A : Type 0} (s : Statement A) → Runs (query s)
unfolding query
Runs-query s = record { at = λ w. record { same_env = refl; more_calls = omega arith } }

module _ {E A B : Type 0} where
  Runs-continue :
      (r : Result E A) (f : A → Exec E B) (w : World)
      → ((a : A) → Runs (f a))
      → Later w (continue r f w).1
  Runs-continue (ok a) f w rf = (rf a).at w
  Runs-continue (err e) f w rf = Later-refl w

  pub Runs-bind :
      (m : Exec E A) (f : A → Exec E B) → Runs m → ((a : A) → Runs (f a)) → Runs (m >>= f)
  unfolding ◌>>=◌
  Runs-bind m f rm rf = record {
    at = λ w. Later-trans (rm.at w) (Runs-continue (m w).0 f (m w).1 rf);
  }

module _ {E F A : Type 0} where
  pub Runs-map_err : (g : E → F) (m : Exec E A) → Runs m → Runs (map_err g m)
  unfolding ◌>>=◌
  Runs-map_err g m rm = record { at = λ w. rm.at w }

  pub Runs-attempt : (m : Exec E A) → Runs m → Runs (attempt {F = F} m)
  unfolding ◌>>=◌
  Runs-attempt m rm = record { at = λ w. rm.at w }

pub ruleset runs_rules = (
  Runs-pure, Runs-throw, Runs-lift, Runs-gets, Runs-ok_or, Runs-if, Runs-throw_if, Runs-send,
  Runs-spawn, Runs-query, Runs-bind, Runs-map_err, Runs-attempt,
)
