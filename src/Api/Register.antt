-- ===== src/Api/Register.antt =====
-- api/v1/auth.py: the effects of `auth_register`, and the first login after it.
use smart_http_requester.Common.{
  ℕ, ◌+◌, ◌≡◌, refl, ◌∙◌, ap, String, Bool, true, false, none, some, List, [], ◌∷◌, ◌++◌, arith,
  ◌||◌, eq_refl, sym,
}
use smart_http_requester.Sql.{fetch_one, exists}
use smart_http_requester.Sql.Laws.{fetch_one-append}
use smart_http_requester.Schemas.{Bytes, UserCredentials, user_credentials}
use smart_http_requester.Tables.{UserRow, Db, user_id_is}
use smart_http_requester.Session.{
  ok, err, Env, World, Outcome, opening, rolling_back, committing, reply_status, unique_violation,
}
use smart_http_requester.Passwords.{check_password, hash_password}
use smart_http_requester.Repository.Auth.{
  username_is, new_token, role_id_is, varchar, token_user_is, create_new_user, insert_user,
  with_users,
}
use smart_http_requester.Domain.Auth.{create_user}
use smart_http_requester.Domain.Login.{token_reply}
use smart_http_requester.Api.Lockout.{check_password-pure, login_new}
use smart_http_requester.Api.Auth.{auth_register, auth_login}

-- The row that a registration inserts.
abbrev pub registered : String → Bytes → World → UserRow
registered name h w = record {
  id = w.user_sequence;
  username = name;
  password_hash = h;
  role_id = some 1;
}

-- The name, or the number that the sequence gives, is in use.
abbrev pub taken : String → World → Bool
taken name w =
    exists (user_id_is w.user_sequence) w.working.users || exists (username_is name) w.working.users

module _ (username : String) (h : Bytes) (env : Env) (w : World) {name : String}
    (bound : env.binds_text username ≡ true) (fits : varchar 50 username ≡ some name) where
  create_taken :
      taken name w ≡ true
      → create_new_user username h env w
        ≡ (err unique_violation, rolling_back (record w { user_sequence = w.user_sequence + 1 }))
  unfolding create_new_user insert_user
  create_taken t = ground arith

  create_ok :
      taken name w ≡ false
      → exists (role_id_is 1) w.working.roles ≡ true
      → create_new_user username h env w ≡ (
        ok (record { user_id = w.user_sequence; username = name }),
        rolling_back (
            committing (
              with_users
                (record w { user_sequence = w.user_sequence + 1 })
                (w.working.users ++ registered name h w ∷ []))),
      )
  unfolding create_new_user insert_user
  create_ok t r = ground arith

abbrev drew : World → World
drew w = record w { drawn = w.drawn + 1 }

hash_password_lem :
    (p : String) (h : Bytes) (env : Env) (w : World)
    → (hash_password p env w).0 ≡ ok h
    → hash_password p env (opening w) ≡ (ok h, drew (opening w))
unfolding hash_password
hash_password_lem p h env w e = ground arith

-- The name, or the number that the sequence gives, is in use in the stored data.
abbrev pub is_taken : String → World → Bool
is_taken name w =
    exists (user_id_is w.user_sequence) w.committed.users
    || exists (username_is name) w.committed.users

untaken :
    (name : String) (w : World)
    → is_taken name w ≡ false
    → fetch_one (username_is name) w.committed.users ≡ none
untaken name w e = ground arith

found_last :
    (asked name : String) (w : World) (h : Bytes) (us : List UserRow)
    → name ≡ asked
    → fetch_one (username_is name) us ≡ none
    → fetch_one (username_is asked) (us ++ registered name h w ∷ []) ≡ some (registered name h w)
found_last asked name w h us same e =
    rw (sym same, fetch_one-append (username_is name) us (registered name h w ∷ []) e, eq_refl name)
      refl

module _ (username password : String) (c : UserCredentials) (h : Bytes) (env : Env) (w : World)
    {name : String} (valid : user_credentials username password ≡ some c)
    (hashed : (hash_password c.password_hash env w).0 ≡ ok h)
    (bound : env.binds_text c.username ≡ true) (fits : varchar 50 c.username ≡ some name) where
  -- Registering with valid credentials, whose password can be hashed and whose name fits its
  -- column, under a name or a number that is in use is answered with 409, and the stored data is
  -- as it was.
  register_conflict :
      is_taken name w ≡ true
      → (reply_status (auth_register username password env w).0 ≡ 409)
        × ((auth_register username password env w).1.committed ≡ w.committed)
  unfolding auth_register create_user
  register_conflict t =
      let p = hash_password_lem c.password_hash h env w hashed in
      let q = create_taken c.username h env (drew (opening w)) bound fits t in
      (ground (arith, p, q), ground (arith, p, q))

  register_stores :
      is_taken name w ≡ false
      → exists (role_id_is 1) w.committed.roles ≡ true
      → ((auth_register username password env w).0
          ≡ ok (record { user_id = w.user_sequence; username = name }))
        × ((auth_register username password env w).1.committed
            ≡ record (w.committed) { users = w.committed.users ++ registered name h w ∷ [] })
        × ((auth_register username password env w).1.drawn ≡ w.drawn + 1)
  unfolding auth_register create_user
  register_stores t r =
      let p = hash_password_lem c.password_hash h env w hashed in
      let q = create_ok c.username h env (drew (opening w)) bound fits t r in
      (ground (arith, p, q), ground (arith, p, q), ground (arith, p, q))

  -- After a registration of a new name, the first login with the same name and password answers
  -- with a token and stores it with seven days to live, provided that the name fits its column,
  -- that the role 1 is there, that the password library accepts the hash that it made and that no
  -- token row is there for the new number.
  pub register-login :
      name ≡ c.username
      → is_taken name w ≡ false
      → exists (role_id_is 1) w.committed.roles ≡ true
      → exists (token_user_is w.user_sequence) w.committed.tokens ≡ false
      → (check_password c.password_hash h env w).0 ≡ ok true
      → let w' = (auth_register username password env w).1 in
        ((auth_login username password env w').0
          ≡ ok (token_reply env (env.random_uuid (w.drawn + 1))))
        × ((auth_login username password env w').1.committed.tokens
            ≡ w.committed.tokens
              ++ new_token w.user_sequence
                  (env.random_uuid (w.drawn + 1))
                  (env.now (w'.transaction + 1))
                ∷ [])
  register-login same free role absent good =
      let v = (auth_register username password env w).1 in
      let (replied, stored, draws) = register_stores free role in
      let e : fetch_one (username_is c.username) v.committed.users ≡ some (registered name h w) =
        rw stored (found_last c.username name w h w.committed.users same (untaken name w free)) in
      let t : exists (token_user_is w.user_sequence) v.committed.tokens ≡ false =
        rw stored absent in
      let p : (check_password c.password_hash h env v).0 ≡ ok true =
        ap (λ (o : Outcome Bool × World). o.0) (check_password-pure c.password_hash h env v w)
        ∙ good in
      let (answered, tokens) =
        login_new username password c env v valid bound {u = registered name h w} e p t in
      (
        answered ∙ ap (λ (n : ℕ). ok (token_reply env (env.random_uuid n))) draws,
        ap (λ (db : Db). db.tokens) tokens
            ∙ ap
                (λ (db : Db).
                  db.tokens
                  ++ new_token w.user_sequence (env.random_uuid v.drawn)
                      (env.now (v.transaction + 1))
                    ∷ [])
                stored
            ∙ ap
                (λ (n : ℕ).
                  w.committed.tokens
                  ++ new_token w.user_sequence (env.random_uuid n) (env.now (v.transaction + 1))
                    ∷ [])
                draws,
      )
