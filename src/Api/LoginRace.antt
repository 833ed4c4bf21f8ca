-- ===== src/Api/LoginRace.antt =====
-- domain/auth.py and migrations/0002: two first logins of one user that overlap in
-- `get_or_create_user_token`, whose SELECT and INSERT each see what is committed when they run.
use smart_http_requester.Common.{
  ℕ, ◌+◌, ◌++◌, ◌≡◌, ◌∙◌, ap, String, Bool, true, false, Option, none, some, List, [], ◌∷◌,
  if◌then◌else◌, not, arith, Option-cases, inl, inr,
}
use smart_http_requester.Sql.{fetch_one, exists}
use smart_http_requester.Schemas.{
  Uuid, UserCredentials, AccessTokenResponse, UserIdPassword, user_credentials,
}
use smart_http_requester.Tables.{UserRow, TokenRow}
use smart_http_requester.Session.{
  user_does_not_exist, password_is_incorrect, none_or, raise, unique_violation, Outcome, ok, err,
  Env, World, Action, pure, ◌>>=◌, ◌>>◌, catch, commit, session_block, opening, rolling_back,
  get_db, reply_status,
}
use smart_http_requester.Passwords.{check_password}
use smart_http_requester.Repository.Auth.{
  id_password, username_is, token_of, token_user_is, new_token, insert_token,
  get_or_create_user_token, get_access_token_by_user_id,
}
use smart_http_requester.Domain.Auth.{token_for, get_token, token_response}
use smart_http_requester.Domain.Login.{get_user_id_password_lem, token_reply}
use mathlib.Core.Option
use smart_http_requester.Api.Requests.{or_unprocessable}
use smart_http_requester.Api.Auth.{counted_login, auth_login, on_login_error, count_attempt}
use smart_http_requester.Api.Lockout.{check_password-pure, login_new}

-- The SQL function after its SELECT.
abbrev pub create_if_none : ℕ → Option Uuid → Action Uuid
create_if_none user_id none = insert_token user_id
create_if_none user_id (some token) = pure token

abbrev pub resume_token : ℕ → Option Uuid → Action AccessTokenResponse
resume_token user_id found = do
  token ← session_block (do token ← create_if_none user_id found; commit; pure token)
  token_response token

-- What a login with the right password does after the SELECT of the SQL function gave `found`.
abbrev pub resume_login : ℕ → Option Uuid → Action AccessTokenResponse
resume_login user_id found = get_db (
    catch (do token ← resume_token user_id found; count_attempt "login" "success"; pure token)
      on_login_error)

created :
    (u : ℕ) (env : Env) (w : World)
    → get_or_create_user_token u env w ≡ create_if_none u (token_of u w.working.tokens) env w
unfolding get_or_create_user_token
created u env w = elim (Option-cases (token_of u w.working.tokens)) [
  | inl e ↦ ground (arith, e)
  | inr (i, e) ↦ ground (arith, e)
]

accessed :
    (u : ℕ) (env : Env) (w : World)
    → get_access_token_by_user_id u env w
      ≡ session_block
          (do token ← create_if_none u (token_of u w.working.tokens); commit; pure token)
          env
          w
unfolding get_access_token_by_user_id
accessed u env w =
    ap
      (λ (r : Outcome Uuid × World).
        session_block ((λ _ _. r) >>= λ token. (do commit; pure token)) env w)
      (created u env w)

get_token_resumes :
    (c : UserCredentials) (env : Env) (w : World) (u : UserRow)
    → env.binds_text c.username ≡ true
    → fetch_one (username_is c.username) w.working.users ≡ some u
    → check_password c.password_hash u.password_hash env (rolling_back w)
      ≡ (ok true, rolling_back w)
    → get_token c env w ≡ resume_token u.id (token_of u.id w.committed.tokens) env (rolling_back w)
unfolding get_token
get_token_resumes c env w u b e q =
    let token : Option UserRow → Action AccessTokenResponse = λ row.
      none_or (Option.map id_password row) (raise user_does_not_exist)
        λ found. token_for c.password_hash found in
    ap
      (λ (r : Outcome (Option UserIdPassword) × World).
        ((λ _ _. r) >>= λ o.
        none_or o (raise user_does_not_exist) λ found. token_for c.password_hash found)
          env w)
      (get_user_id_password_lem c.username env w b)
    ∙ ap (λ row. token row env (rolling_back w)) e
    ∙ ap
        (λ (r : Outcome Bool × World).
          ((λ _ _. r) >>= λ password_correct.
          if not password_correct
          then raise password_is_incorrect
          else do i ← get_access_token_by_user_id u.id; token_response i)
            env (rolling_back w))
        q
    ∙ ap (λ (r : Outcome Uuid × World). ((λ _ _. r) >>= token_response) env (rolling_back w))
        (accessed u.id env (rolling_back w))

module _ (username password : String) (c : UserCredentials) (env : Env) (w : World) (u : UserRow)
    (valid : user_credentials username password ≡ some c) (bound : env.binds_text c.username ≡ true)
    (known : fetch_one (username_is c.username) w.committed.users ≡ some u)
    (right : (check_password c.password_hash u.password_hash env w).0 ≡ ok true) where
  -- Without an interruption the parts are the whole.
  auth_login_resumes :
      auth_login username password env w
      ≡ resume_login u.id (token_of u.id w.committed.tokens) env (rolling_back (opening w))
  unfolding auth_login
  auth_login_resumes =
      let q : check_password c.password_hash u.password_hash env (rolling_back (opening w))
          ≡ (ok true, rolling_back (opening w)) =
        check_password-pure c.password_hash u.password_hash env (rolling_back (opening w)) w
        ∙ ap (λ (o : Outcome Bool). (o, rolling_back (opening w))) right in
      ap
        (λ o.
          get_db (do user ← or_unprocessable o; catch (counted_login user) on_login_error) env w)
        valid
      ∙ ap
          (λ (r : Outcome AccessTokenResponse × World).
            get_db
              (catch (do token ← λ _ _. r; count_attempt "login" "success"; pure token)
                on_login_error)
              env w)
          (get_token_resumes c env (opening w) u bound known q)

  exists-last :
      (ts : List TokenRow) (i now : ℕ)
      → exists (token_user_is u.id) (ts ++ new_token u.id i now ∷ []) ≡ true
  exists-last [] i now = ground arith
  exists-last (t ∷ ts) i now = ground (arith, exists-last ts i now)

  interrupted :
      (v : World)
      → exists (token_user_is u.id) v.committed.tokens ≡ true
      → ((resume_login u.id none env v).0 ≡ err unique_violation)
        × ((resume_login u.id none env v).1.committed ≡ v.committed)
        × ((resume_login u.id none env v).1.auth_attempts_total ≡ v.auth_attempts_total)
  interrupted v e = (ground (arith, e), ground (arith, e), ground (arith, e))

  no_token : (ts : List TokenRow) → exists (token_user_is u.id) ts ≡ false → token_of u.id ts ≡ none
  no_token ts e = ground (arith, e)

  pub login_race :
      exists (token_user_is u.id) w.committed.tokens ≡ false
      → let (second, w') = auth_login username password env w in
        let (first, v) = resume_login u.id none env w' in
        (auth_login username password env w ≡ resume_login u.id none env (rolling_back (opening w)))
        × (second ≡ ok (token_reply env (env.random_uuid w.drawn)))
        × (first ≡ err unique_violation)
        × (reply_status first ≡ 500)
        × (v.committed ≡ w'.committed)
        × (v.auth_attempts_total ≡ w'.auth_attempts_total)
  login_race none_yet =
      let (replied, stored) =
        login_new username password c env w valid bound known right none_yet in
      let w' = (auth_login username password env w).1 in
      let there : exists (token_user_is u.id) w'.committed.tokens ≡ true =
        rw stored (
          exists-last w.committed.tokens (env.random_uuid w.drawn) (env.now (w.transaction + 1))) in
      let (raised, kept, uncounted) = interrupted w' there in
      (
        auth_login_resumes
            ∙ ap (λ found. resume_login u.id found env (rolling_back (opening w)))
                (no_token w.committed.tokens none_yet),
        replied,
        raised,
        ap reply_status raised,
        kept,
        uncounted,
      )
