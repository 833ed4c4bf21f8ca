-- ===== src/Session/Quiet.antt =====
-- Actions that leave the stored data, the delivered notifications and the sent messages alone:
-- their changes stand only in the session's view, until a commit.
use smart_http_requester.Common.{
  ◌≡◌, refl, ◌∙◌, Option, none, some, Bool, true, false, if◌then◌else◌,
}
use smart_http_requester.Session.{
  Exc, Outcome, ok, err, Env, World, Action, pure, raise, ◌>>=◌, catch, session_block, get_db,
  rolling_back, opening, committing, none_or,
}

pub record Kept (w w' : World) : Type 0 where
  pub committed : w'.committed ≡ w.committed
  pub notified : w'.notified ≡ w.notified
  pub sent : w'.sent ≡ w.sent

pub Kept-trans : {u v w : World} → Kept u v → Kept v w → Kept u w
Kept-trans h k = record {
  committed = k.committed ∙ h.committed;
  notified = k.notified ∙ h.notified;
  sent = k.sent ∙ h.sent;
}

pub record IsQuiet {A : Type 0} (m : Action A) : Type 0 where
  pub at : (env : Env) (w : World) → Kept w (m env w).1

module _ {A : Type 0} where
  pub pure-IsQuiet : (a : A) → IsQuiet (pure a)
  pure-IsQuiet a = record {
    at = λ env w. record { committed = refl; notified = refl; sent = refl };
  }

  pub raise-IsQuiet : (e : Exc) → IsQuiet (raise {A = A} e)
  raise-IsQuiet e = record {
    at = λ env w. record { committed = refl; notified = refl; sent = refl };
  }

  pub if-IsQuiet :
      (b : Bool) {m n : Action A} → IsQuiet m → IsQuiet n → IsQuiet (if b then m else n)
  if-IsQuiet true h k = h
  if-IsQuiet false h k = k

  pub session_block-IsQuiet : {m : Action A} → IsQuiet m → IsQuiet (session_block m)
  session_block-IsQuiet h = record {
    at = λ env w. record {
      committed = (h.at env w).committed;
      notified = (h.at env w).notified;
      sent = (h.at env w).sent;
    };
  }

  handled :
      (r : Outcome A × World) (f : Exc → Action A) (env : Env) (w : World)
      → Kept w r.1
      → ((e : Exc) → IsQuiet (f e))
      → Kept w (elim r.0 as (λ _. Outcome A × World) [ ok a ↦ (ok a, r.1) | err e ↦ f e env r.1 ]).1
  handled (ok a, w') f env w h k = h
  handled (err e, w') f env w h k = Kept-trans h ((k e).at env w')

  pub catch-IsQuiet :
      {m : Action A} {f : Exc → Action A}
      → IsQuiet m
      → ((e : Exc) → IsQuiet (f e))
      → IsQuiet (catch m f)
  catch-IsQuiet {m} {f} h k = record { at = λ env w. handled (m env w) f env w (h.at env w) k }

  dropped :
      (r : Outcome A × World) (w : World) (e : Exc)
      → Kept (opening w) r.1
      → (elim r.0 as (λ _. Outcome A × World) [
        | ok a ↦ (ok a, rolling_back (committing r.1))
        | err e ↦ (err e, rolling_back (rolling_back r.1))
      ]).0
        ≡ err e
      → Kept w
          (elim r.0 as (λ _. Outcome A × World) [
            | ok a ↦ (ok a, rolling_back (committing r.1))
            | err e ↦ (err e, rolling_back (rolling_back r.1))
          ]).1
  dropped (ok a, w') w e h k = cc
  dropped (err d, w') w e h k = record {
    committed = h.committed;
    notified = h.notified;
    sent = h.sent;
  }

  -- A quiet request that raises has changed nothing: its session is rolled back.
  pub get_db-Kept :
      {m : Action A} (env : Env) (w : World) (e : Exc)
      → IsQuiet m
      → (get_db m env w).0 ≡ err e
      → Kept w (get_db m env w).1
  get_db-Kept {m} env w e h k = dropped (m env (opening w)) w e (h.at env (opening w)) k

module _ {A B : Type 0} where
  after :
      (r : Outcome A × World) (f : A → Action B) (env : Env) (w : World)
      → Kept w r.1
      → ((a : A) → IsQuiet (f a))
      → Kept w
          (elim r.0 as (λ _. Outcome B × World) [ ok a ↦ f a env r.1 | err e ↦ (err e, r.1) ]).1
  after (ok a, w') f env w h k = Kept-trans h ((k a).at env w')
  after (err e, w') f env w h k = h

  pub bind-IsQuiet :
      {m : Action A} {f : A → Action B} → IsQuiet m → ((a : A) → IsQuiet (f a)) → IsQuiet (m >>= f)
  bind-IsQuiet {m} {f} h k = record { at = λ env w. after (m env w) f env w (h.at env w) k }

module _ {A B : Type 0} where
  pub none_or-IsQuiet :
      (o : Option A) {m : Action B} {f : A → Action B}
      → IsQuiet m
      → ((a : A) → IsQuiet (f a))
      → IsQuiet (none_or o m f)
  none_or-IsQuiet none h k = h
  none_or-IsQuiet (some a) h k = k a

pub ruleset quiet_rules = (
  pure-IsQuiet, raise-IsQuiet, if-IsQuiet, session_block-IsQuiet, bind-IsQuiet, catch-IsQuiet,
  none_or-IsQuiet,
)
