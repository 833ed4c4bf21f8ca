-- ===== src/Writes/Accounts.antt =====
-- repository/auth.py and domain/auth.py write nothing but the changes of Writes.antt.
use smart_http_requester.Common.{
  ℕ, ◌≡◌, refl, String, Option, none, some, arith, inl, inr, Bool-cases, Option-cases,
}
use smart_http_requester.Sql.{exists}
use smart_http_requester.Schemas.{Uuid, Bytes, UserCredentials, UserIdPassword}
use smart_http_requester.Tables.{UserRow, Db, user_id_is}
use smart_http_requester.Session.{Exc, Env}
use smart_http_requester.Session.Keeps.{
  Keeps, untouched, keeps_rules, bind-Keeps, raise-Keeps, pure-Keeps, none_or-Keeps,
}
use smart_http_requester.Passwords.{hash_password, check_password}
use smart_http_requester.Repository.Auth.{
  varchar, insert_row, insert_user, create_new_user, select_user, get_user_id_password,
  insert_token, get_or_create_user_token, get_access_token_by_user_id, deleting_token,
  delete_token as repo_delete, role_id_is, username_is, token_user_is, token_of,
}
use smart_http_requester.Repository.Identity.{
  updating_token, refresh_user_token, select_me, get_user_info as repo_info,
}
use smart_http_requester.Domain.Auth.{
  on_integrity_error, create_user, token_response, token_for, get_token, get_token_for_docs,
  or_missing, delete_token, refresh_token, get_user_info,
}
use smart_http_requester.Writes.{AccountWrite, add_user, add_token, drop_tokens, renew_token}

-- Of a predicate of the database that these changes keep.
module _ (env : Env) (P : Db → Type 0) (may : ℕ → Type 0)
    (kept : (db db' : Db) → P db → AccountWrite may db db' → P db') where
  insert_row-Keeps :
      (u : UserRow) (name : String)
      → u.role_id ≡ some 1
      → varchar 50 name ≡ some u.username
      → Keeps env P (insert_row u)
  insert_row-Keeps u name r k = record {
    at = λ w h. elim (Bool-cases (exists (user_id_is u.id) w.working.users)) [
      | inl e ↦ rw e h
      | inr e ↦ elim (Bool-cases (exists (username_is u.username) w.working.users)) [
        | inl f ↦ rw (e, f) h
        | inr f ↦ elim (Bool-cases (exists (role_id_is 1) w.working.roles)) [
          | inl g ↦ rw (e, f, g) (h.0, kept _ _ h.1 (add_user u e f g r name k))
          | inr g ↦ rw (e, f, g) h
        ]
      ]
    ];
  }

  insert_user-Keeps : (name : String) (hash : Bytes) → Keeps env P (insert_user name hash)
  unfolding insert_user
  insert_user-Keeps name hash = record {
    at = λ w h. elim (Bool-cases (env.binds_text name)) [
      | inr e ↦ rw e h
      | inl e ↦ elim (Option-cases (varchar 50 name)) [
        | inl f ↦ rw (e, f) h
        | inr (cut, f) ↦ rw (e, f) ((insert_row-Keeps _ name refl f).at w h)
      ]
    ];
  }

  insert_token-Keeps : (u : ℕ) → Keeps env P (insert_token u)
  insert_token-Keeps u = record {
    at = λ w h. elim (Bool-cases (exists (token_user_is u) w.working.tokens)) [
      | inl e ↦ rw e h
      | inr e ↦ elim (Bool-cases (exists (user_id_is u) w.working.users)) [
        | inl f ↦ rw (e, f) (h.0, kept _ _ h.1 (add_token u _ _ e f))
        | inr f ↦ rw (e, f) h
      ]
    ];
  }

  get_or_create-Keeps : (u : ℕ) → Keeps env P (get_or_create_user_token u)
  unfolding get_or_create_user_token
  get_or_create-Keeps u = record {
    at = λ w h. elim (Option-cases (token_of u w.working.tokens)) [
      | inl e ↦ rw (e, get_or_create_user_token) ((insert_token-Keeps u).at w h)
      | inr (t, e) ↦ rw (e, get_or_create_user_token) h
    ];
  }

  deleting_token-Keeps : (u : ℕ) → may u → Keeps env P (deleting_token u)
  deleting_token-Keeps u m = record { at = λ w h. (h.0, kept _ _ h.1 (drop_tokens u m)) }

  updating_token-Keeps : (u : ℕ) → may u → Keeps env P (updating_token u)
  updating_token-Keeps u m = record {
    at = λ w h. elim (Bool-cases (exists (token_user_is u) w.working.tokens)) [
      | inl e ↦ rw e (h.0, kept _ _ h.1 (renew_token u _ _ m))
      | inr e ↦ rw e h
    ];
  }

  hash_password-Keeps : (password : String) → Keeps env P (hash_password password)
  unfolding hash_password
  hash_password-Keeps password = untouched λ w. (ground arith, ground arith)

  check_password-Keeps :
      (password : String) (hash : Bytes) → Keeps env P (check_password password hash)
  unfolding check_password
  check_password-Keeps password hash = untouched λ w. (refl, refl)

  select_user-Keeps : (name : String) → Keeps env P (select_user name)
  select_user-Keeps name = untouched λ w. (ground arith, ground arith)

  token_response-Keeps : (token : Uuid) → Keeps env P (token_response token)
  token_response-Keeps token = untouched λ w. (refl, refl)

  on_integrity_error-Keeps : (e : Exc) → Keeps env P (on_integrity_error e)
  on_integrity_error-Keeps e = untouched λ w. (ground arith, ground arith)

  or_missing-Keeps : {A : Type 0} (o : Option A) → Keeps env P (or_missing o)
  or_missing-Keeps none = raise-Keeps _
  or_missing-Keeps (some a) = pure-Keeps a

  select_me-Keeps : (u : ℕ) → Keeps env P (select_me u)
  select_me-Keeps u = untouched λ w. (refl, refl)

  ruleset account_rules = (
    keeps_rules, insert_user-Keeps, get_or_create-Keeps, deleting_token-Keeps, updating_token-Keeps,
    hash_password-Keeps, check_password-Keeps, select_user-Keeps, token_response-Keeps,
    on_integrity_error-Keeps, or_missing-Keeps, select_me-Keeps,
  )

  pub create_user-Keeps : (user : UserCredentials) → Keeps env P (create_user user)
  unfolding create_user create_new_user
  create_user-Keeps user = search account_rules depth 12

  token_for-Keeps : (hash : String) (found : UserIdPassword) → Keeps env P (token_for hash found)
  unfolding get_access_token_by_user_id
  token_for-Keeps hash found = search account_rules depth 14

  pub get_token-Keeps : (user : UserCredentials) → Keeps env P (get_token user)
  unfolding get_token get_user_id_password
  get_token-Keeps user = search (account_rules, token_for-Keeps) depth 14

  password_of-Keeps : (name : String) → Keeps env P (get_user_id_password name)
  unfolding get_user_id_password
  password_of-Keeps name = search account_rules depth 12

  pub get_token_for_docs-Keeps :
      (login password : String) → Keeps env P (get_token_for_docs login password)
  unfolding get_token_for_docs
  get_token_for_docs-Keeps login password = bind-Keeps (password_of-Keeps login) λ o.
      none_or-Keeps o (raise-Keeps _)
        λ found. record { at = (token_for-Keeps (env.sha256_hex password) found).at }

  pub delete_token-Keeps : (u : ℕ) → may u → Keeps env P (delete_token u)
  unfolding delete_token repo_delete
  delete_token-Keeps u m = search account_rules depth 12

  pub refresh_token-Keeps : (u : ℕ) → may u → Keeps env P (refresh_token u)
  unfolding refresh_token refresh_user_token
  refresh_token-Keeps u m = search account_rules depth 12

  pub get_user_info-Keeps : (u : ℕ) → Keeps env P (get_user_info u)
  unfolding get_user_info repo_info
  get_user_info-Keeps u = search account_rules depth 12
