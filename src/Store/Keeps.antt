-- ===== src/Store/Keeps.antt =====
-- Invariants of actions: one rule for each way to build an action.
use hush_net_backend.Prelude.{◌≡◌, subst, Bool, true, false, Option, none, some, if◌then◌else◌}
use hush_net_backend.Store.Tables.{Db}
use hush_net_backend.Store.Outside.{World, Fault, fine, refused, lost, HttpRequest, Delivery}
use hush_net_backend.Store.Action.{
  Result, ok, err, Exec, pure, throw, lift, gets, ok_or, ◌>>=◌, continue, throw_if, map_err,
  attempt, send, spawn,
}
use hush_net_backend.Store.Sql.{Statement, SqlError, Call, query, answered, call_of}

-- `m` keeps the property `P` of the tables, whether it returns or fails.
pub record Keeps {E A : Type 0} (P : Db → Type 0) (m : Exec E A) : Type 0 where
  pub at : (w : World) → P w.db → P (m w).1.db

pub Keeps-at :
    {E A : Type 0} {P : Db → Type 0} {m : Exec E A} {w v : World} {r : Result E A}
    → Keeps P m
    → m w ≡ (r, v)
    → P w.db
    → P v.db
Keeps-at {P = P} {w = w} k e h = subst (λ x. P x.1.db) e (k.at w h)

-- A statement keeps `P`.
abbrev pub KeepsDb : {A : Type 0} → (Db → Type 0) → Statement A → Type 0
KeepsDb P s = (c : Call) (db : Db) → P db → P (s c db).1

module _ {E A : Type 0} {P : Db → Type 0} where
  pub Keeps-pure : (a : A) → Keeps P (pure {E = E} a)
  unfolding ◌>>=◌
  Keeps-pure a = record { at = λ w h. h }

  pub Keeps-throw : (e : E) → Keeps P (throw {A = A} e)
  unfolding ◌>>=◌
  Keeps-throw e = record { at = λ w h. h }

  pub Keeps-lift : (r : Result E A) → Keeps P (lift r)
  unfolding ◌>>=◌
  Keeps-lift r = record { at = λ w h. h }

  pub Keeps-gets : (f : World → A) → Keeps P (gets {E = E} f)
  unfolding ◌>>=◌
  Keeps-gets f = record { at = λ w h. h }

  pub Keeps-ok_or : (o : Option A) (e : E) → Keeps P (ok_or o e)
  unfolding ◌>>=◌
  Keeps-ok_or none e = record { at = λ w h. h }
  Keeps-ok_or (some a) e = record { at = λ w h. h }

pub Keeps-if :
    {E A : Type 0} {P : Db → Type 0} (b : Bool) (m n : Exec E A)
    → Keeps P m
    → Keeps P n
    → Keeps P (if b then m else n)
Keeps-if true m n km kn = km
Keeps-if false m n km kn = kn

module _ {E : Type 0} {P : Db → Type 0} where
  pub Keeps-throw_if : (b : Bool) (e : E) → Keeps P (throw_if b e)
  unfolding ◌>>=◌
  Keeps-throw_if b e = record { at = λ w h. h }

  pub Keeps-send : (req : HttpRequest) → Keeps P (send {E = E} req)
  unfolding send
  Keeps-send req = record { at = λ w h. h }

  pub Keeps-spawn : (d : Delivery) → Keeps P (spawn {E = E} d)
  unfolding spawn
  Keeps-spawn d = record { at = λ w h. h }

module _ {E A B : Type 0} {P : Db → Type 0} where
  Keeps-continue :
      (r : Result E A) (f : A → Exec E B) (w : World)
      → ((a : A) → Keeps P (f a))
      → P w.db
      → P (continue r f w).1.db
  Keeps-continue (ok a) f w kf h = (kf a).at w h
  Keeps-continue (err e) f w kf h = h

  pub Keeps-bind :
      (m : Exec E A) (f : A → Exec E B) → Keeps P m → ((a : A) → Keeps P (f a)) → Keeps P (m >>= f)
  unfolding ◌>>=◌
  Keeps-bind m f km kf = record { at = λ w h. Keeps-continue (m w).0 f (m w).1 kf (km.at w h) }

module _ {E F A : Type 0} {P : Db → Type 0} where
  pub Keeps-map_err : (g : E → F) (m : Exec E A) → Keeps P m → Keeps P (map_err g m)
  unfolding ◌>>=◌
  Keeps-map_err g m km = record { at = λ w h. km.at w h }

  pub Keeps-attempt : (m : Exec E A) → Keeps P m → Keeps P (attempt {F = F} m)
  unfolding ◌>>=◌
  Keeps-attempt m km = record { at = λ w h. km.at w h }

module _ {A : Type 0} (P : Db → Type 0) where
  answered-Keeps :
      (f : Fault) (x : Result SqlError A × Db) (db : Db) → P x.1 → P db → P (answered f x db).1
  answered-Keeps fine x db p q = p
  answered-Keeps refused x db p q = q
  answered-Keeps lost x db p q = p

-- What a statement keeps is kept whatever becomes of the connection.
pub Keeps-query : {A : Type 0} {P : Db → Type 0} (s : Statement A) → KeepsDb P s → Keeps P (query s)
unfolding query
Keeps-query {P = P} s ks = record {
  at = λ w h.
      answered-Keeps P (w.env.fault w.calls) (s (call_of w) w.db) w.db (ks (call_of w) w.db h) h;
}

-- The same at one world, for a statement that keeps `P` only there.
pub query-keeps_at :
    {A : Type 0} (P : Db → Type 0) (s : Statement A) (w : World)
    → P (s (call_of w) w.db).1
    → P w.db
    → P (query s w).1.db
unfolding query
query-keeps_at P s w p q = answered-Keeps P (w.env.fault w.calls) (s (call_of w) w.db) w.db p q

pub ruleset keeps_rules = (
  Keeps-pure, Keeps-throw, Keeps-lift, Keeps-gets, Keeps-ok_or, Keeps-if, Keeps-throw_if,
  Keeps-send, Keeps-spawn, Keeps-bind, Keeps-map_err, Keeps-attempt,
)
