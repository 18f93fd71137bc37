-- ===== src/Store/Fails.antt =====
-- What the errors of an action have in common: one rule for each way to build an action.
use hush_net_backend.Prelude.{◌≡◌, subst, Bool, true, false, Option, none, some, if◌then◌else◌}
use hush_net_backend.Store.Outside.{World, HttpRequest}
use hush_net_backend.Store.Action.{
  Result, ok, err, Exec, pure, throw, gets, ok_or, ◌>>=◌, continue, throw_if, map_err, send,
}

abbrev pub OnError : {E A : Type 0} → (E → Type 0) → Result E A → Type 0
OnError P (ok a) = Unit {0}
OnError P (err e) = P e

-- Every error of `m` has the property `P`.
pub record Fails {E A : Type 0} (P : E → Type 0) (m : Exec E A) : Type 0 where
  pub at : (w : World) → OnError P (m w).0

pub Fails-at :
    {E A : Type 0} {P : E → Type 0} {m : Exec E A} {w v : World} {e : E}
    → Fails P m
    → m w ≡ (err e, v)
    → P e
Fails-at {P = P} {w = w} h k = subst (λ x. OnError P x.0) k (h.at w)

module _ {E A : Type 0} {P : E → Type 0} where
  pub Fails-pure : (a : A) → Fails P (pure {E = E} a)
  unfolding ◌>>=◌
  Fails-pure a = record { at = λ w. tt }

  pub Fails-throw : (e : E) → P e → Fails P (throw {A = A} e)
  unfolding ◌>>=◌
  Fails-throw e p = record { at = λ w. p }

  pub Fails-gets : (f : World → A) → Fails P (gets {E = E} f)
  unfolding ◌>>=◌
  Fails-gets f = record { at = λ w. tt }

  pub Fails-ok_or : (o : Option A) (e : E) → P e → Fails P (ok_or o e)
  unfolding ◌>>=◌
  Fails-ok_or none e p = record { at = λ w. p }
  Fails-ok_or (some a) e p = record { at = λ w. tt }

pub Fails-if :
    {E A : Type 0} {P : E → Type 0} (b : Bool) (m n : Exec E A)
    → Fails P m
    → Fails P n
    → Fails P (if b then m else n)
Fails-if true m n fm fn = fm
Fails-if false m n fm fn = fn

OnError-if :
    {E : Type 0} (P : E → Type 0) (b : Bool) (e : E) → P e → OnError P (if b then err e else ok tt)
OnError-if P true e p = p
OnError-if P false e p = tt

module _ {E : Type 0} {P : E → Type 0} where
  pub Fails-throw_if : (b : Bool) (e : E) → P e → Fails P (throw_if b e)
  unfolding ◌>>=◌
  Fails-throw_if b e p = record { at = λ w. OnError-if P b e p }

  pub Fails-send : (req : HttpRequest) → Fails P (send {E = E} req)
  unfolding send
  Fails-send req = record { at = λ w. tt }

module _ {E A B : Type 0} {P : E → Type 0} where
  Fails-continue :
      (r : Result E A) (f : A → Exec E B) (w : World)
      → OnError P r
      → ((a : A) → Fails P (f a))
      → OnError P (continue r f w).0
  Fails-continue (ok a) f w p ff = (ff a).at w
  Fails-continue (err e) f w p ff = p

  pub Fails-bind :
      (m : Exec E A) (f : A → Exec E B) → Fails P m → ((a : A) → Fails P (f a)) → Fails P (m >>= f)
  unfolding ◌>>=◌
  Fails-bind m f fm ff = record { at = λ w. Fails-continue (m w).0 f (m w).1 (fm.at w) ff }

-- An error that is translated is whatever the translation makes of it.
module _ {E F A : Type 0} {P : F → Type 0} where
  pub Fails-map_err : (g : E → F) (m : Exec E A) → ((e : E) → P (g e)) → Fails P (map_err g m)
  unfolding ◌>>=◌
  Fails-map_err g m p = record { at = λ w. go (m w) }
    where
      go : (x : Result E A × World) → OnError P (map_err g (λ _. x) x.1).0
      go (ok a, u) = tt
      go (err e, u) = p e

pub ruleset fails_rules = (
  Fails-pure, Fails-throw, Fails-gets, Fails-ok_or, Fails-if, Fails-throw_if, Fails-send,
  Fails-bind, Fails-map_err,
)
