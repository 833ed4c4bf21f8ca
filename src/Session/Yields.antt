-- ===== src/Session/Yields.antt =====
-- Actions that check what they have changed before they return: a predicate of the database holds
-- of the stored rows however they end, and of those that the session sees where they return. What
-- an exception leaves in the session's view is rolled back.
use smart_http_requester.Common.{◌≡◌, refl, sym, subst, arith}
use smart_http_requester.Tables.{Db}
use smart_http_requester.Session.{
  Exc, Outcome, ok, err, Env, World, Action, ◌>>=◌, catch, get_db, rolling_back, opening,
  committing,
}
use smart_http_requester.Session.Keeps.{Stable, Keeps}

abbrev pub Yielded : (Db → Type 0) → {A : Type 0} → Outcome A × World → Type 0
Yielded P {A} (r, w) = P w.committed × ((a : A) → r ≡ ok a → P w.working)

pub record Yields (env : Env) (P : Db → Type 0) {A : Type 0} (m : Action A) : Type 0 where
  pub at : (w : World) → Stable P w → Yielded P (m env w)

-- The handler of an exception that raises again and leaves the stored rows.
abbrev pub Reraises : Env → {A : Type 0} → (Exc → Action A) → Type 0
Reraises env f =
    (e : Exc) (w : World)
    → (x : Exc) × ((f e env w).0 ≡ err x) × ((f e env w).1.committed ≡ w.committed)

raised :
    (env : Env) (P : Db → Type 0) {A : Type 0} (r : Outcome A × World) (f : Exc → Action A)
    → Yielded P r
    → Reraises env f
    → Yielded P (elim r.0 as (λ _. Outcome A × World) [ ok a ↦ (ok a, r.1) | err e ↦ f e env r.1 ])
raised env P (ok a, w) f h k = h
raised env P (err e, w) f h k =
    let (x, q, c) = k e w in (subst P (sym c) h.0, λ a p. absurd (ground (arith, p, q)))

module _ {env : Env} {P : Db → Type 0} {A : Type 0} where
  pub Keeps-Yields : {m : Action A} → Keeps env P m → Yields env P m
  Keeps-Yields h = record { at = λ w s. ((h.at w s).0, λ a e. (h.at w s).1) }

  -- A handler that raises again.
  pub reraise-Yields :
      {m : Action A} (f : Exc → Action A)
      → Yields env P m
      → Reraises env f
      → Yields env P (catch m f)
  reraise-Yields {m} f h k = record { at = λ w s. raised env P (m env w) f (h.at w s) k }

ended :
    (P : Db → Type 0) {A : Type 0} (r : Outcome A × World)
    → Yielded P r
    → P
        (elim r.0 as (λ _. Outcome A × World) [
          | ok a ↦ (ok a, rolling_back (committing r.1))
          | err e ↦ (err e, rolling_back (rolling_back r.1))
        ]).1.committed
ended P (ok a, w) h = h.1 a refl
ended P (err e, w) h = h.0

pub get_db-Yields :
    {env : Env} {P : Db → Type 0} {A : Type 0} {m : Action A} (w : World)
    → Yields env P m
    → P w.committed
    → P (get_db m env w).1.committed
get_db-Yields {env} {P} {m} w h s = ended P (m env (opening w)) (h.at (opening w) (s, s))

module _ {env : Env} {P : Db → Type 0} {A B : Type 0} where
  continued :
      (r : Outcome A × World) (f : A → Action B)
      → Yielded P r
      → ((a : A) → r.0 ≡ ok a → Yields env P (f a))
      → Yielded P
          (elim r.0 as (λ _. Outcome B × World) [ ok a ↦ f a env r.1 | err e ↦ (err e, r.1) ])
  continued (ok a, w) f h k = (k a refl).at w (h.0, h.1 a refl)
  continued (err e, w) f h k = (h.0, λ a p. absurd (ground (arith, p)))

  pub bind-Yields :
      {m : Action A} {f : A → Action B}
      → Yields env P m
      → ((w : World) (a : A) → (m env w).0 ≡ ok a → Yields env P (f a))
      → Yields env P (m >>= f)
  bind-Yields {m} {f} h k = record { at = λ w s. continued (m env w) f (h.at w s) (k w) }
