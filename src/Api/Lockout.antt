-- ===== src/Api/Lockout.antt =====
-- api/v1/auth.py: the replies of `auth_login`, and the login of a user whose token has expired.
use smart_http_requester.Common.{
  ℕ, ◌+◌, ◌++◌, ◌≡◌, refl, ◌∙◌, ap, String, Bool, true, false, Option, none, some, List, [], ◌∷◌,
  arith, ◌⊎◌, inl, inr, Option-cases, Bool-cases,
}
use smart_http_requester.Common.Int.{pos}
use smart_http_requester.Sql.{fetch_one, exists}
use smart_http_requester.Schemas.{Uuid, UserCredentials, user_credentials}
use smart_http_requester.Tables.{UserRow, TokenRow, user_id_is}
use smart_http_requester.Session.{
  decode_error, Exc, ok, err, Env, World, Outcome, opening, rolling_back, reply_status,
  Outcome-cases,
}
use smart_http_requester.Passwords.{check_password}
use smart_http_requester.Repository.Auth.{username_is, token_of, token_user_is, new_token}
use smart_http_requester.Repository.Identity.{is_live}
use smart_http_requester.Middleware.Auth.{authorization, unauthorized}
use smart_http_requester.Middleware.Refusal.{refuses_dead}
use smart_http_requester.Domain.Auth.{get_token}
use smart_http_requester.Domain.Login.{
  get_user_id_password_lem, token_reply, get_token_existing, get_token_missing, get_token_wrong,
  get_token_new,
}
use smart_http_requester.Api.Auth.{auth_login, not_found}

-- The status that a login is documented to have: by the user, and by what checking the password
-- says.
abbrev pub login_status : Option (Outcome Bool) → ℕ
login_status none = 404
login_status (some (ok false)) = 401
login_status (some (ok true)) = 200
login_status (some (err e)) = 500

-- How the password fares against the user's hash, where there is one.
abbrev pub checked : String → Env → World → Option UserRow → Option (Outcome Bool)
checked password env w none = none
checked password env w (some u) = some (check_password password u.password_hash env w).0

pub check_password-pure :
    (p : String) (h : List ℕ) (env : Env) (w v : World)
    → check_password p h env w ≡ ((check_password p h env v).0, w)
unfolding check_password
check_password-pure p h env w v = refl

check_password_raises :
    (p : String) (h : List ℕ) (env : Env) (w : World) (e : Exc)
    → (check_password p h env w).0 ≡ err e
    → (check_password p h env w).0 ≡ err decode_error
unfolding check_password
check_password_raises p h env w e q = ground arith

found_exists :
    (name : String) (us : List UserRow) (u : UserRow)
    → fetch_one (username_is name) us ≡ some u
    → exists (user_id_is u.id) us ≡ true
found_exists name [] u e = ground arith
found_exists name (x ∷ us) u e = ground (arith, found_exists name us u)

-- The user has no token row, or one with a token.
abbrev pub HasToken : ℕ → List TokenRow → Type 0
HasToken u ts = (exists (token_user_is u) ts ≡ false) ⊎ ((i : Uuid) × (token_of u ts ≡ some i))

module _ (username password : String) (c : UserCredentials) (env : Env) (w : World)
    (valid : user_credentials username password ≡ some c)
    (bound : env.binds_text c.username ≡ true) where
  login_existing :
      {u : UserRow} (i : Uuid)
      → fetch_one (username_is c.username) w.committed.users ≡ some u
      → (check_password c.password_hash u.password_hash env w).0 ≡ ok true
      → token_of u.id w.committed.tokens ≡ some i
      → ((auth_login username password env w).0 ≡ ok (token_reply env i))
        × ((auth_login username password env w).1.committed ≡ w.committed)
  unfolding auth_login
  login_existing {u} i e p t =
      let q : check_password c.password_hash u.password_hash env (rolling_back (opening w))
          ≡ (ok true, rolling_back (opening w)) =
        check_password-pure c.password_hash u.password_hash env (rolling_back (opening w)) w
        ∙ ap (λ (o : Outcome Bool). (o, rolling_back (opening w))) p in
      ground (arith, get_token_existing c env (opening w) bound i e q t)

  pub login_new :
      {u : UserRow}
      → fetch_one (username_is c.username) w.committed.users ≡ some u
      → (check_password c.password_hash u.password_hash env w).0 ≡ ok true
      → exists (token_user_is u.id) w.committed.tokens ≡ false
      → ((auth_login username password env w).0 ≡ ok (token_reply env (env.random_uuid w.drawn)))
        × ((auth_login username password env w).1.committed ≡ record (w.committed) {
          tokens =
              w.committed.tokens
              ++ new_token u.id (env.random_uuid w.drawn) (env.now (w.transaction + 1)) ∷ [];
        })
  unfolding auth_login
  login_new {u} e p t =
      let q : check_password c.password_hash u.password_hash env (rolling_back (opening w))
          ≡ (ok true, rolling_back (opening w)) =
        check_password-pure c.password_hash u.password_hash env (rolling_back (opening w)) w
        ∙ ap (λ (o : Outcome Bool). (o, rolling_back (opening w))) p in
      let r =
        get_token_new c env (opening w) bound e q t
          (found_exists c.username w.committed.users u e) in
      (ground (arith, r), ground (arith, r))

  login_wrong :
      {u : UserRow}
      → fetch_one (username_is c.username) w.committed.users ≡ some u
      → (check_password c.password_hash u.password_hash env w).0 ≡ ok false
      → (auth_login username password env w).0 ≡ err unauthorized
  unfolding auth_login
  login_wrong {u} e p =
      let q : check_password c.password_hash u.password_hash env (rolling_back (opening w))
          ≡ (ok false, rolling_back (opening w)) =
        check_password-pure c.password_hash u.password_hash env (rolling_back (opening w)) w
        ∙ ap (λ (o : Outcome Bool). (o, rolling_back (opening w))) p in
      ground (arith, get_token_wrong c env (opening w) bound e q)

  login_failing :
      {u : UserRow}
      → fetch_one (username_is c.username) w.committed.users ≡ some u
      → (check_password c.password_hash u.password_hash env w).0 ≡ err decode_error
      → (auth_login username password env w).0 ≡ err decode_error
  unfolding auth_login get_token
  login_failing {u} e p =
      let q : check_password c.password_hash u.password_hash env (rolling_back (opening w))
          ≡ (err decode_error, rolling_back (opening w)) =
        check_password-pure c.password_hash u.password_hash env (rolling_back (opening w)) w
        ∙ ap (λ (o : Outcome Bool). (o, rolling_back (opening w))) p in
      ground (arith, get_user_id_password_lem c.username env (opening w) bound)

  login_missing :
      fetch_one (username_is c.username) w.committed.users ≡ none
      → (auth_login username password env w).0 ≡ err not_found
  unfolding auth_login
  login_missing e = ground (arith, get_token_missing c env (opening w) bound e)

  -- A login with valid credentials and the right password, of a user whose token row has expired,
  -- is answered with 200 and the expired token, and leaves the stored data as it was: with that
  -- token every later request is refused with 401, in each state with the same token rows, so that
  -- the user cannot get in by logging in again.
  pub expired_lockout :
      {u : UserRow} (i : Uuid) (token : String) (v : World)
      → fetch_one (username_is c.username) w.committed.users ≡ some u
      → (check_password c.password_hash u.password_hash env w).0 ≡ ok true
      → token_of u.id w.committed.tokens ≡ some i
      → env.bind_uuid token ≡ some i
      → v.committed.tokens ≡ (auth_login username password env w).1.committed.tokens
      → fetch_one (is_live i (env.now v.transaction)) w.committed.tokens ≡ none
      → ((auth_login username password env w).0 ≡ ok (token_reply env i))
        × ((auth_login username password env w).1.committed ≡ w.committed)
        × ((authorization (pos 0) token env (opening v)).0 ≡ err unauthorized)
  expired_lockout {u} i token v e p t b same dead =
      let (replied, kept) = login_existing i e p t in
      (replied, kept, refuses_dead env (opening v) (pos 0) token i b (rw (same, kept) dead))

  login_found :
      (u : UserRow)
      → fetch_one (username_is c.username) w.committed.users ≡ some u
      → HasToken u.id w.committed.tokens
      → reply_status (auth_login username password env w).0
        ≡ login_status (checked c.password_hash env w (some u))
  login_found u e has =
      elim (Outcome-cases (check_password c.password_hash u.password_hash env w).0) [
        | inl (b, p) ↦ elim (Bool-cases b) [
          | inr f ↦ ground (arith, login_wrong e (p ∙ ap ok f))
          | inl t ↦ elim has [
            | inl n ↦ ap reply_status (login_new e (p ∙ ap ok t) n).0 ∙ ground (arith, p)
            | inr (i, s) ↦ ground (arith, login_existing i e (p ∙ ap ok t) s)
          ]
        ]
        | inr (x, p) ↦ ground (
          arith,
          login_failing e (check_password_raises c.password_hash u.password_hash env w x p),
        )
      ]

  -- The reply to valid credentials, whose name the driver takes: 404 without such a user, 401 with
  -- a wrong password, 200 with the right one, and 500 if the password library reports what is not
  -- caught, provided that the user has no token row or one with a token.
  pub login_replies :
      ((u : UserRow)
        → fetch_one (username_is c.username) w.committed.users ≡ some u
        → HasToken u.id w.committed.tokens)
      → reply_status (auth_login username password env w).0
        ≡ login_status
            (checked c.password_hash env w (fetch_one (username_is c.username) w.committed.users))
  login_replies has = elim (Option-cases (fetch_one (username_is c.username) w.committed.users)) [
    | inl e ↦ rw e (ap reply_status (login_missing e))
    | inr (u, e) ↦ rw e (login_found u e (has u e))
  ]
