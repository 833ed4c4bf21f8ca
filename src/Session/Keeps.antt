-- ===== src/Session/Keeps.antt =====
-- Actions that keep a predicate of the database: if it holds of the stored rows and of those that
-- the session sees, it holds of both afterwards, whether the action returns or raises. A commit and
-- a rollback only copy one to the other.
use smart_http_requester.Common.{
  ◌≡◌, refl, Option, none, some, Bool, true, false, if◌then◌else◌, sym, subst,
}
use smart_http_requester.Tables.{Db}
use smart_http_requester.Session.{
  Exc, Outcome, ok, err, Env, World, Action, pure, raise, ◌>>=◌, catch, session_block, get_db,
  rolling_back, opening, committing, none_or, commit,
}

abbrev pub Stable : (Db → Type 0) → World → Type 0
Stable P w = P w.committed × P w.working

pub record Keeps (env : Env) (P : Db → Type 0) {A : Type 0} (m : Action A) : Type 0 where
  pub at : (w : World) → Stable P w → Stable P (m env w).1

ended :
    (P : Db → Type 0) {A : Type 0} (r : Outcome A × World)
    → Stable P r.1
    → Stable P
        (elim r.0 as (λ _. Outcome A × World) [
          | ok a ↦ (ok a, rolling_back (committing r.1))
          | err e ↦ (err e, rolling_back (rolling_back r.1))
        ]).1
ended P (ok a, w) h = (h.1, h.1)
ended P (err e, w) h = (h.0, h.0)

module _ {env : Env} {P : Db → Type 0} {A : Type 0} where
  pub pure-Keeps : (a : A) → Keeps env P (pure a)
  pure-Keeps a = record { at = λ w h. h }

  pub raise-Keeps : (e : Exc) → Keeps env P (raise {A = A} e)
  raise-Keeps e = record { at = λ w h. h }

  pub if-Keeps :
      (b : Bool) {m n : Action A} → Keeps env P m → Keeps env P n → Keeps env P (if b then m else n)
  if-Keeps true h k = h
  if-Keeps false h k = k

  pub session_block-Keeps : {m : Action A} → Keeps env P m → Keeps env P (session_block m)
  session_block-Keeps h = record { at = λ w s. let t = h.at w s in (t.0, t.0) }

  -- An action that changes nothing in the database.
  pub untouched :
      {m : Action A}
      → ((w : World) → ((m env w).1.committed ≡ w.committed) × ((m env w).1.working ≡ w.working))
      → Keeps env P m
  untouched e = record { at = λ w h. (subst P (sym (e w).0) h.0, subst P (sym (e w).1) h.1) }

  handled :
      (r : Outcome A × World) (f : Exc → Action A)
      → Stable P r.1
      → ((e : Exc) → Keeps env P (f e))
      → Stable P
          (elim r.0 as (λ _. Outcome A × World) [ ok a ↦ (ok a, r.1) | err e ↦ f e env r.1 ]).1
  handled (ok a, w) f h k = h
  handled (err e, w) f h k = (k e).at w h

  pub catch-Keeps :
      {m : Action A} {f : Exc → Action A}
      → Keeps env P m
      → ((e : Exc) → Keeps env P (f e))
      → Keeps env P (catch m f)
  catch-Keeps {m} {f} h k = record { at = λ w s. handled (m env w) f (h.at w s) k }

  pub get_db-Keeps : {m : Action A} → Keeps env P m → Keeps env P (get_db m)
  get_db-Keeps {m} h = record {
    at = λ w s. ended P (m env (opening w)) (h.at (opening w) (s.0, s.0));
  }

  -- A whole session starts from the stored rows alone.
  pub get_db-committed :
      {m : Action A} (w : World) → Keeps env P m → P w.committed → P (get_db m env w).1.committed
  get_db-committed {m} w h s = (ended P (m env (opening w)) (h.at (opening w) (s, s))).0

pub get_db-kept :
    (P : Db → Type 0) {A : Type 0} (m : Action A) (env : Env) (w : World)
    → Stable P (m env (opening w)).1
    → P (get_db m env w).1.committed
get_db-kept P m env w s = (ended P (m env (opening w)) s).0

pub commit-Keeps : {env : Env} {P : Db → Type 0} → Keeps env P commit
commit-Keeps = record { at = λ w h. (h.1, h.1) }

module _ {env : Env} {P : Db → Type 0} {A B : Type 0} where
  continued :
      (r : Outcome A × World) (f : A → Action B)
      → Stable P r.1
      → ((a : A) → Keeps env P (f a))
      → Stable P
          (elim r.0 as (λ _. Outcome B × World) [ ok a ↦ f a env r.1 | err e ↦ (err e, r.1) ]).1
  continued (ok a, w) f h k = (k a).at w h
  continued (err e, w) f h k = h

  pub bind-Keeps :
      {m : Action A} {f : A → Action B}
      → Keeps env P m
      → ((a : A) → Keeps env P (f a))
      → Keeps env P (m >>= f)
  bind-Keeps {m} {f} h k = record { at = λ w s. continued (m env w) f (h.at w s) k }

  known :
      (r : Outcome A × World) (f : A → Action B)
      → Stable P r.1
      → ((a : A) → r.0 ≡ ok a → Keeps env P (f a))
      → Stable P
          (elim r.0 as (λ _. Outcome B × World) [ ok a ↦ f a env r.1 | err e ↦ (err e, r.1) ]).1
  known (ok a, w) f h k = (k a refl).at w h
  known (err e, w) f h k = h

  -- The second action starts from what the first one is known to return.
  pub bind_known :
      {m : Action A} {f : A → Action B}
      → Keeps env P m
      → ((w : World) (a : A) → (m env w).0 ≡ ok a → Keeps env P (f a))
      → Keeps env P (m >>= f)
  bind_known {m} {f} h k = record { at = λ w s. known (m env w) f (h.at w s) (k w) }

  -- The same from one state.
  pub bind-kept :
      (m : Action A) (f : A → Action B) (w : World)
      → Stable P w
      → Keeps env P m
      → ((a : A) → (m env w).0 ≡ ok a → Keeps env P (f a))
      → Stable P ((m >>= f) env w).1
  bind-kept m f w s h k = known (m env w) f (h.at w s) k

  pub none_or-Keeps :
      (o : Option A) {m : Action B} {f : A → Action B}
      → Keeps env P m
      → ((a : A) → Keeps env P (f a))
      → Keeps env P (none_or o m f)
  none_or-Keeps none h k = h
  none_or-Keeps (some a) h k = k a

-- What comes after a test has it passed.
pub guarded :
    {env : Env} {P : Db → Type 0} {B : Type 0} (b : Bool) (e : Exc) (n : Action B)
    → (b ≡ true → Keeps env P n)
    → (w : World) → Stable P w
    → Stable P
        (elim (if b then ok tt else err e) as (λ (_ : Outcome (Unit {0})). Outcome B × World) [
          | ok a ↦ n env w
          | err e ↦ (err e, w)
        ]).1
guarded true e n k w h = (k refl).at w h
guarded false e n k w h = h

pub ruleset keeps_rules = (
  pure-Keeps, raise-Keeps, if-Keeps, session_block-Keeps, bind-Keeps, catch-Keeps, none_or-Keeps,
  commit-Keeps,
)
