-- ===== src/Api/Docs.antt =====
-- api/v1/auth.py: `token`, which the documentation page logs in by, against `auth_login`.
use smart_http_requester.Common.{◌≡◌, String, some, [], arith, inl, inr, Option-cases, ap, ◌∙◌, sym}
use smart_http_requester.Schemas.{UserCredentials, user_credentials}
use smart_http_requester.Session.{
  Exc, password_is_incorrect, user_does_not_exist, err, Env, World, Outcome-cases, opening,
  rolling_back,
}
use smart_http_requester.Repository.Auth.{get_user_id_password}
use smart_http_requester.Middleware.Auth.{unauthorized}
use smart_http_requester.Domain.Auth.{get_token, get_token_for_docs}
use smart_http_requester.Api.Auth.{auth_login, auth_token, on_login_error, on_docs_error, not_found}

-- The state but for the counter of attempts.
abbrev pub uncounted : World → World
uncounted w = record w { auth_attempts_total = [] }

-- The exception that either endpoint raises for one of the functions below it.
abbrev raised_for : Exc → Exc
raised_for password_is_incorrect = unauthorized
raised_for user_does_not_exist = not_found
raised_for e = e

docs_raises : (e : Exc) (env : Env) (w : World) → on_docs_error e env w ≡ (err (raised_for e), w)
docs_raises e env w = ground arith

login_raises :
    (e : Exc) (env : Env) (w : World)
    → ((on_login_error e env w).0 ≡ err (raised_for e))
      × (uncounted (on_login_error e env w).1 ≡ uncounted w)
login_raises e env w = (ground arith, ground arith)

same_token :
    (username password : String) (env : Env) (w : World)
    → get_token_for_docs username password env w
      ≡ get_token (record { username = username; password_hash = env.sha256_hex password }) env w
unfolding get_token get_token_for_docs
same_token username password env w = elim (Outcome-cases (get_user_id_password username env w).0) [
  | inr (x, e) ↦ ground (arith, e)
  | inl (o, e) ↦ elim (Option-cases o) [
    | inl n ↦ ground (arith, e, n)
    | inr (f, n) ↦ ground (arith, e, n)
  ]
]

-- The form of the documentation page, with a password, is answered as the login with that
-- password's digest is, and stores the same, but for the counter of attempts, if the login takes
-- the digest for valid.
pub docs-login :
    (username password : String) (env : Env) (w : World)
    → user_credentials username (env.sha256_hex password)
      ≡ some (record { username = username; password_hash = env.sha256_hex password })
    → ((auth_token username password env w).0
        ≡ (auth_login username (env.sha256_hex password) env w).0)
      × (uncounted (auth_token username password env w).1
          ≡ uncounted (auth_login username (env.sha256_hex password) env w).1)
unfolding auth_token auth_login
docs-login username password env w valid =
    let c : UserCredentials = record {
      username = username;
      password_hash = env.sha256_hex password;
    } in
    let same = same_token username password env (opening w) in
    elim (Outcome-cases (get_token c env (opening w)).0) [
      | inl (a, e) ↦ (ground (arith, valid, same, e), ground (arith, valid, same, e))
      | inr (x, e) ↦
          let d = docs_raises x env (get_token c env (opening w)).1 in
          let (r, s) = login_raises x env (get_token c env (opening w)).1 in
          let v = (get_token c env (opening w)).1 in
          let here : (auth_token username password env w).1 ≡ rolling_back (rolling_back v) =
            ground (arith, same, e, d) in
          let there : (auth_login username (env.sha256_hex password) env w).1
              ≡ rolling_back (rolling_back (on_login_error x env v).1) =
            ground (arith, valid, e, r) in
          (
            ground (arith, valid, same, e, d, r),
            ap uncounted here
                ∙ sym (ap (λ (u : World). rolling_back (rolling_back u)) s)
                ∙ sym (ap uncounted there),
          )
    ]
