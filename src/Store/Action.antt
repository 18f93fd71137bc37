-- ===== src/Store/Action.antt =====
-- Actions that change the world and may end early with an error: `?` and early `return`. What was
-- done before an error stays done, so the world comes back beside the error too.
use hush_net_backend.Prelude.{suc, Bool, Option, none, some, [], ◌∷◌, ◌++◌, if◌then◌else◌}
use hush_net_backend.Models.{Timestamp}
use hush_net_backend.Store.Outside.{World, HttpRequest, HttpReply, Delivery}

pub data Result (E A : Type 0) : Type 0 where
  ok : A → Result E A
  err : E → Result E A

abbrev pub Exec : Type 0 → Type 0 → Type 0
Exec E A = World → Result E A × World

module _ {E A : Type 0} where
  unfoldable pub pure : A → Exec E A
  pure a w = (ok a, w)

  unfoldable pub throw : E → Exec E A
  throw e w = (err e, w)

  unfoldable pub lift : Result E A → Exec E A
  lift r w = (r, w)

  -- .ok_or(e)
  unfoldable pub ok_or : Option A → E → Exec E A
  unfolding pure throw
  ok_or none e = throw e
  ok_or (some a) e = pure a

  unfoldable pub gets : (World → A) → Exec E A
  gets f w = (ok (f w), w)

unfoldable pub throw_if : {E : Type 0} → Bool → E → Exec E (Unit {0})
throw_if b e w = (if b then err e else ok tt, w)

module _ {E F A : Type 0} where
  abbrev map_result : (E → F) → Result E A → Result F A
  map_result f (ok a) = ok a
  map_result f (err e) = err (f e)

  -- .map_err(f)
  unfoldable pub map_err : (E → F) → Exec E A → Exec F A
  map_err f m w = let (r, w') = m w in (map_result f r, w')

  abbrev caught : Result E A → Result F (Result E A)
  caught r = ok r

  -- the result as a value, for `match` on both cases
  unfoldable pub attempt : Exec E A → Exec F (Result E A)
  attempt m w = let (r, w') = m w in (caught r, w')

module _ {E A B : Type 0} where
  abbrev pub continue : Result E A → (A → Exec E B) → Exec E B
  continue (ok a) f w = f a w
  continue (err e) f w = (err e, w)

  -- opening this opens the actions above too
  infixl 5 ◌>>=◌ ◌>>◌
  unfoldable pub ◌>>=◌ : Exec E A → (A → Exec E B) → Exec E B
  unfolding pure throw lift gets ok_or throw_if map_err attempt
  ◌>>=◌ m f w = let (r, w') = m w in continue r f w'

  abbrev pub ◌>>◌ : Exec E A → Exec E B → Exec E B
  m >> n = m >>= λ _. n

abbrev pub joined : {A : Type 0} → Result A A → A
joined (ok a) = a
joined (err a) = a

-- A handler answers with its result, or with the response that it returned early.
abbrev pub answer : {A : Type 0} → Exec A A → World → A × World
answer m w = let (r, w') = m w in (joined r, w')

-- `send().await`: the request is recorded, and the outside answers.
unfoldable pub send : {E : Type 0} → HttpRequest → Exec E HttpReply
send req w =
    (ok (w.env.http w.calls req), record w { calls = suc w.calls; sent = w.sent ++ req ∷ [] })

-- tokio::spawn
unfoldable pub spawn : {E : Type 0} → Delivery → Exec E (Unit {0})
spawn d w = (ok tt, record w { spawned = w.spawned ++ d ∷ [] })

-- `let _ = m.await;`
abbrev pub ignore : {E F A : Type 0} → Exec E A → Exec F (Unit {0})
ignore m = attempt m >>= λ _. pure tt

-- Utc::now().timestamp(), SystemTime::now()
abbrev pub utc_now : {E : Type 0} → Exec E Timestamp
utc_now = gets (λ w. w.env.utc_now w.calls)
