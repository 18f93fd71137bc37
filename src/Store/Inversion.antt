-- ===== src/Store/Inversion.antt =====
-- What a successful run says of its parts.
use hush_net_backend.Prelude.{
  ◌≡◌, refl, ap, sym, subst, ◌∙◌, suc, Bool, true, false, Option, none, some, if◌then◌else◌, arith,
}
use hush_net_backend.Store.Tables.{Db}
use hush_net_backend.Store.Outside.{World, Fault, fine, refused, lost}
use hush_net_backend.Store.Sql.{SqlError, connection, Statement, answered, call_of, query}
use hush_net_backend.Store.Action.{
  Result, ok, err, Exec, pure, throw, lift, gets, ok_or, ◌>>=◌, ◌>>◌, continue, throw_if, map_err,
}

-- Inversion of a bind that succeeds.
pub bind-eq-ok :
    {E A B : Type 0} (m : Exec E A) (f : A → Exec E B) {w v : World} {b : B}
    → (m >>= f) w ≡ (ok b, v)
    → (a : A) × (u : World) × (m w ≡ (ok a, u)) × (f a u ≡ (ok b, v))
unfolding ◌>>=◌
bind-eq-ok {E} {A} {B} m f {w} {v} {b} h = go (m w) refl h
  where
    go :
        (x : Result E A × World)
        → m w ≡ x
        → continue x.0 f x.1 ≡ (ok b, v)
        → (a : A) × (u : World) × (m w ≡ (ok a, u)) × (f a u ≡ (ok b, v))
    go (ok a, u) e k = (a, u, e, k)
    go (err e', u) e k = ground arith

module _ {E A B : Type 0} where
  pub ok_or-bind-eq-ok :
      (o : Option A) (e : E) (f : A → Exec E B) {w v : World} {b : B}
      → (ok_or o e >>= f) w ≡ (ok b, v)
      → (a : A) × (o ≡ some a) × (f a w ≡ (ok b, v))
  unfolding ◌>>=◌
  ok_or-bind-eq-ok none e f h = ground arith
  ok_or-bind-eq-ok (some a) e f h = (a, refl, h)

module _ {E B : Type 0} where
  pub throw_if-bind-eq-ok :
      (b : Bool) (e : E) (m : Exec E B) {w v : World} {a : B}
      → (throw_if b e >> m) w ≡ (ok a, v)
      → (b ≡ false) × (m w ≡ (ok a, v))
  unfolding ◌>>=◌
  throw_if-bind-eq-ok true e m h = ground arith
  throw_if-bind-eq-ok false e m h = (refl, h)

module _ {E A : Type 0} where
  pub pure-eq-ok : (a : A) {w v : World} {b : A} → pure {E = E} a w ≡ (ok b, v) → (a ≡ b) × (w ≡ v)
  unfolding ◌>>=◌
  pure-eq-ok a {w} {v} {b} h = (ground arith, ap (λ x. x.1) h)

module _ {E F A : Type 0} where
  pub map_err-eq-ok :
      (g : E → F) (m : Exec E A) {w v : World} {a : A} → map_err g m w ≡ (ok a, v) → m w ≡ (ok a, v)
  unfolding ◌>>=◌
  map_err-eq-ok g m {w} {v} {a} h = go (m w) refl h
    where
      go : (x : Result E A × World) → m w ≡ x → map_err g (λ _. x) w ≡ (ok a, v) → m w ≡ (ok a, v)
      go (ok b, u) e k = ground arith
      go (err e', u) e k = ground arith

-- The world after a statement that was run.
abbrev pub after : {A : Type 0} → Statement A → World → World
after s w = record w { db = (s (call_of w) w.db).1; calls = suc w.calls }

module _ {A : Type 0} where
  answered-eq-ok :
      (f : Fault) (x : Result SqlError A × Db) (db : Db) {a : A}
      → (answered f x db).0 ≡ ok a
      → (x.0 ≡ ok a) × ((answered f x db).1 ≡ x.1)
  answered-eq-ok fine x db h = (h, refl)
  answered-eq-ok refused x db h = ground arith
  answered-eq-ok lost x db h = ground arith

  -- A statement whose answer was read has run.
  pub query-eq-ok :
      (s : Statement A) {w v : World} {a : A}
      → query s w ≡ (ok a, v)
      → ((s (call_of w) w.db).0 ≡ ok a) × (v ≡ after s w)
  unfolding query
  query-eq-ok s {w} {v} {a} h =
      let (p, q) =
        answered-eq-ok (w.env.fault w.calls) (s (call_of w) w.db) w.db (ap (λ x. x.0) h) in
      (p, sym (ap (λ x. x.1) h) ∙ ap (λ (d : Db). record w { db = d; calls = suc w.calls }) q)

  -- Where the connection holds, a statement is run and answers.
  pub query_fine :
      (s : Statement A) (w : World)
      → w.env.fault w.calls ≡ fine
      → query s w ≡ ((s (call_of w) w.db).0, after s w)
  unfolding query
  query_fine s w h = rw (h, answered)

-- The inversions with the rest of the proof as an argument, for long blocks.
module _ {E A B : Type 0} {w v : World} {b : B} {C : Type 0} where
  pub bind_elim :
      (m : Exec E A) (f : A → Exec E B)
      → (m >>= f) w ≡ (ok b, v)
      → ((a : A) (u : World) → m w ≡ (ok a, u) → f a u ≡ (ok b, v) → C)
      → C
  bind_elim m f h k = let (a, u, p, q) = bind-eq-ok m f h in k a u p q

  pub ok_or_elim :
      (o : Option A) (e : E) (f : A → Exec E B)
      → (ok_or o e >>= f) w ≡ (ok b, v)
      → ((a : A) → o ≡ some a → f a w ≡ (ok b, v) → C)
      → C
  ok_or_elim o e f h k = let (a, p, q) = ok_or-bind-eq-ok o e f h in k a p q

module _ {E B : Type 0} {w v : World} {b : B} {C : Type 0} where
  pub throw_if_elim :
      (t : Bool) (e : E) (m : Exec E B)
      → (throw_if t e >> m) w ≡ (ok b, v)
      → (t ≡ false → m w ≡ (ok b, v) → C)
      → C
  throw_if_elim t e m h k = let (p, q) = throw_if-bind-eq-ok t e m h in k p q

pub gets_step :
    {E A B : Type 0} (g : World → A) (f : A → Exec E B) {w : World} {x : Result E B × World}
    → (gets g >>= f) w ≡ x
    → f (g w) w ≡ x
unfolding ◌>>=◌
gets_step g f h = h

module _ {A B : Type 0} {w v : World} {b : B} {C : Type 0} where
  -- a statement, and what follows it, in a block that returns
  pub query_elim :
      (s : Statement A) (f : A → Exec SqlError B)
      → (query s >>= f) w ≡ (ok b, v)
      → ((a : A) → (s (call_of w) w.db).0 ≡ ok a → f a (after s w) ≡ (ok b, v) → C)
      → C
  query_elim s f h k =
      let (a, u, p, q) = bind-eq-ok (query s) f h in
      let (said, next) = query-eq-ok s p in k a said (subst (λ x. f a x ≡ (ok b, v)) next q)

pub throw_if-eq-ok :
    {E : Type 0} (t : Bool) (e : E) {w v : World} {a : Unit {0}}
    → throw_if t e w ≡ (ok a, v)
    → (t ≡ false) × (w ≡ v)
unfolding ◌>>=◌
throw_if-eq-ok true e h = ground arith
throw_if-eq-ok false e h = (refl, ap (λ x. x.1) h)

-- a statement whose error is translated, and what follows it, in a block that returns
module _ {E A B : Type 0} {w v : World} {b : B} {C : Type 0} where
  pub mapped_query_elim :
      (g : SqlError → E) (s : Statement A) (f : A → Exec E B)
      → (map_err g (query s) >>= f) w ≡ (ok b, v)
      → ((a : A) → (s (call_of w) w.db).0 ≡ ok a → f a (after s w) ≡ (ok b, v) → C)
      → C
  mapped_query_elim g s f h k = bind_elim (map_err g (query s)) f h (λ a u p q.
      let (said, next) = query-eq-ok s (map_err-eq-ok g (query s) p) in
      k a said (subst (λ x. f a x ≡ (ok b, v)) next q))

-- the value of a result
pub ok-injective : {E A : Type 0} {a b : A} → ◌≡◌ {A = Result E A} (ok a) (ok b) → a ≡ b
ok-injective h = ground arith

-- an early return under a test, in a block that returns
pub if_throw-eq-ok :
    {E A : Type 0} (t : Bool) (e : E) (m : Exec E A) (w : World) {v : World} {a : A}
    → (if t then throw e else m) w ≡ (ok a, v)
    → (t ≡ false) × (m w ≡ (ok a, v))
unfolding ◌>>=◌
if_throw-eq-ok true e m w h = ground arith
if_throw-eq-ok false e m w h = (refl, h)

-- The world after a statement that never reached the server.
abbrev pub skipped : World → World
skipped w = record w { calls = suc w.calls }

-- What can become of a statement: it is run and answers, it is not run, or the answer is lost.
pub data Outcome {A : Type 0} (s : Statement A) (w : World)
    : Result SqlError A × World → Type 0 where
  answers : Outcome s w ((s (call_of w) w.db).0, after s w)
  unsent : Outcome s w (err connection, skipped w)
  answer_lost : Outcome s w (err connection, after s w)

pub query-Outcome : {A : Type 0} (s : Statement A) (w : World) → Outcome s w (query s w)
unfolding query
query-Outcome s w = go (w.env.fault w.calls)
  where
    go :
        (f : Fault)
        → Outcome s w (
            let (r, db') = answered f (s (call_of w) w.db) w.db in
            (r, record w { db = db'; calls = suc w.calls }))
    go fine = answers
    go refused = unsent
    go lost = answer_lost

pub ok_or-eq-ok :
    {E A : Type 0} (o : Option A) (e : E) (w : World) {v : World} {a : A}
    → ok_or o e w ≡ (ok a, v)
    → (o ≡ some a) × (w ≡ v)
unfolding ◌>>=◌
ok_or-eq-ok none e w h = ground arith
ok_or-eq-ok (some a) e w h = let (same, next) = pure-eq-ok a h in (ap some same, next)

pub lift-eq-ok :
    {E A : Type 0} (r : Result E A) {w v : World} {a : A}
    → lift r w ≡ (ok a, v)
    → (r ≡ ok a) × (w ≡ v)
unfolding ◌>>=◌
lift-eq-ok r e = (ap (λ x. x.0) e, ap (λ x. x.1) e)
