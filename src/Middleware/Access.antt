-- ===== src/Middleware/Access.antt =====
-- middleware/auth.py: whom `authorization` lets in.
use smart_http_requester.Common.{◌≡◌, ◌↔◌, ap, String, true, some, arith, inl, inr, Option-cases}
use smart_http_requester.Common.Int.{ℤ, leb_ℤ}
use smart_http_requester.Schemas.{Uuid, User}
use smart_http_requester.Session.{ok, Env, World, rolling_back}
use smart_http_requester.Repository.Identity.{get_user_by_token, find_holder}
use smart_http_requester.Middleware.Auth.{authorization, is_str_uuid}

-- The token is a UUID that the user holds at this time, and the user's permissions suffice.
pub record IsAdmitted (env : Env) (w : World) (privileges : ℤ) (token : String) (user : User)
    : Type 0 where
  pub uuid : Uuid
  pub well_formed : is_str_uuid env token ≡ true
  pub bound : env.bind_uuid token ≡ some uuid
  pub held : find_holder uuid (env.now w.transaction) w.working ≡ some user
  pub level : ℤ
  pub granted : user.privileges ≡ some level
  pub enough : leb_ℤ privileges level ≡ true

admits :
    (env : Env) (w : World) (privileges : ℤ) (token : String) (user : User)
    → IsAdmitted env w privileges token user
    → authorization privileges token env w ≡ (ok user, rolling_back w)
unfolding authorization get_user_by_token
admits env w privileges token user a =
    ground (arith, a.well_formed, a.bound, a.held, a.granted, a.enough)

admitted :
    (env : Env) (w : World) (privileges : ℤ) (token : String) (user : User)
    → (authorization privileges token env w).0 ≡ ok user
    → IsAdmitted env w privileges token user
unfolding authorization get_user_by_token
admitted env w privileges token user h = elim (Option-cases (env.bind_uuid token)) [
  | inl e ↦ absurd (ground arith)
  | inr (i, e) ↦ elim (Option-cases (find_holder i (env.now w.transaction) w.working)) [
    | inl f ↦ absurd (ground arith)
    | inr (u, f) ↦ elim (Option-cases u.privileges) [
      | inl g ↦ absurd (ground arith)
      | inr (l, g) ↦ record {
        uuid = i;
        well_formed = ground arith;
        bound = e;
        held = ground arith;
        level = l;
        granted = ground arith;
        enough = ground arith;
      }
    ]
  ]
]

-- Whom `authorization` returns, by what the query for the token gives.
pub authorization_iff :
    (env : Env) (w : World) (privileges : ℤ) (token : String) (user : User)
    → ((authorization privileges token env w).0 ≡ ok user) ↔ IsAdmitted env w privileges token user
authorization_iff env w privileges token user = (
  admitted env w privileges token user,
  λ a. ap (λ p. p.0) (admits env w privileges token user a),
)
