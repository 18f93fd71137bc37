-- ===== src/Store/Forward.antt =====
-- Running a block step by step, where each step is known to succeed; and the errors of a step.
use hush_net_backend.Prelude.{◌≡◌, refl, ap, Bool, true, false, Option, none, some, if◌then◌else◌}
use hush_net_backend.Store.Outside.{World}
use hush_net_backend.Store.Action.{
  Result, ok, err, Exec, pure, throw, gets, ok_or, ◌>>=◌, ◌>>◌, continue, throw_if, map_err,
  attempt,
}

module _ {E A B : Type 0} where
  pub bind_step :
      (m : Exec E A) {w u : World} {a : A} (f : A → Exec E B)
      → m w ≡ (ok a, u)
      → (m >>= f) w ≡ f a u
  unfolding ◌>>=◌
  bind_step m f e = ap (λ x. continue x.0 f x.1) e

  pub bind_stop :
      (m : Exec E A) {w u : World} {e : E} (f : A → Exec E B)
      → m w ≡ (err e, u)
      → (m >>= f) w ≡ (err e, u)
  unfolding ◌>>=◌
  bind_stop m f h = ap (λ x. continue x.0 f x.1) h

  pub ok_or_step :
      {o : Option A} {a : A} (e : E) (f : A → Exec E B) (w : World)
      → o ≡ some a
      → (ok_or o e >>= f) w ≡ f a w
  unfolding ◌>>=◌
  ok_or_step e f w h = rw h

  pub ok_or_stop :
      {o : Option A} (e : E) (f : A → Exec E B) (w : World)
      → o ≡ none
      → (ok_or o e >>= f) w ≡ (err e, w)
  unfolding ◌>>=◌
  ok_or_stop e f w h = rw h

  pub gets_run : (g : World → A) (f : A → Exec E B) (w : World) → (gets g >>= f) w ≡ f (g w) w
  unfolding ◌>>=◌
  gets_run g f w = refl

module _ {E B : Type 0} where
  pub throw_if_step :
      {t : Bool} (e : E) (m : Exec E B) (w : World) → t ≡ false → (throw_if t e >> m) w ≡ m w
  unfolding ◌>>=◌
  throw_if_step e m w h = rw h

  pub throw_if_stop :
      {t : Bool} (e : E) (m : Exec E B) (w : World) → t ≡ true → (throw_if t e >> m) w ≡ (err e, w)
  unfolding ◌>>=◌
  throw_if_stop e m w h = rw h

pub throw_if_run :
    {E : Type 0} {t : Bool} (e : E) (w : World) → t ≡ false → throw_if t e w ≡ (ok tt, w)
unfolding ◌>>=◌
throw_if_run e w h = rw h

module _ {E F A : Type 0} where
  pub map_err_step :
      (m : Exec E A) {w u : World} {a : A} (g : E → F) → m w ≡ (ok a, u) → map_err g m w ≡ (ok a, u)
  unfolding ◌>>=◌
  map_err_step m {u = u} g e = ap (λ x. map_err g (λ _. x) u) e

  pub map_err_stop :
      (m : Exec E A) {w u : World} {e : E} (g : E → F)
      → m w ≡ (err e, u)
      → map_err g m w ≡ (err (g e), u)
  unfolding ◌>>=◌
  map_err_stop m {u = u} g h = ap (λ x. map_err g (λ _. x) u) h

  pub attempt_step :
      (m : Exec E A) {w u : World} {r : Result E A} → m w ≡ (r, u) → attempt {F = F} m w ≡ (ok r, u)
  unfolding ◌>>=◌
  attempt_step m {u = u} h = ap (λ x. attempt {F = F} (λ _. x) u) h

pub pure_run : {E A : Type 0} (a : A) (w : World) → pure {E = E} a w ≡ (ok a, w)
unfolding ◌>>=◌
pure_run a w = refl

pub ok_or_run :
    {E A : Type 0} {o : Option A} {a : A} (e : E) (w : World) → o ≡ some a → ok_or o e w ≡ (ok a, w)
unfolding ◌>>=◌
ok_or_run e w h = rw h

-- an early return under a test that fails
pub if_run :
    {E A : Type 0} {t : Bool} (e : E) (a : A) (w : World)
    → t ≡ false
    → (if t then throw e else pure a) w ≡ (ok a, w)
unfolding ◌>>=◌
if_run e a w h = rw h

-- Two blocks that do the same at one world.
module _ {E A B : Type 0} where
  continue_cong :
      (r : Result E A) (f g : A → Exec E B) (u : World)
      → ((a : A) → f a u ≡ g a u)
      → continue r f u ≡ continue r g u
  continue_cong (ok a) f g u h = h a
  continue_cong (err e) f g u h = refl

  pub bind_cong :
      (m : Exec E A) (f g : A → Exec E B) (w : World)
      → ((a : A) → f a (m w).1 ≡ g a (m w).1)
      → (m >>= f) w ≡ (m >>= g) w
  unfolding ◌>>=◌
  bind_cong m f g w h = continue_cong (m w).0 f g (m w).1 h

  pub bind_first :
      (m m' : Exec E A) (f : A → Exec E B) {w : World} → m w ≡ m' w → (m >>= f) w ≡ (m' >>= f) w
  unfolding ◌>>=◌
  bind_first m m' f h = ap (λ x. continue x.0 f x.1) h

pub map_err_first :
    {E F A : Type 0} (m m' : Exec E A) (g : E → F) {w : World}
    → m w ≡ m' w
    → map_err g m w ≡ map_err g m' w
unfolding ◌>>=◌
map_err_first m m' g {w} h = ap (λ x. map_err g (λ _. x) w) h
