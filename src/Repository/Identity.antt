-- ===== src/Repository/Identity.antt =====
-- repository/auth.py: `AuthRepository.get_user_by_token`, `refresh_user_token`, `get_user_info`.
use mathlib.Core.Option
use smart_http_requester.Common.{
  ℕ, ◌+◌, String, Bool, false, Option, none, some, List, ◌&&◌, ltb, if◌then◌else◌,
}
use smart_http_requester.Common.Int.{ℤ}
use smart_http_requester.Sql.{fetch_one, exists, update}
use smart_http_requester.Schemas.{Uuid, Timestamp, User, UserMe}
use smart_http_requester.Tables.{RoleRow, UserRow, TokenRow, Db, equals, user_id_is}
use smart_http_requester.Session.{
  db_error, ok, err, Action, pure, ◌>>=◌, ◌>>◌, commit, session_block,
}
use smart_http_requester.Repository.Auth.{role_id_is, token_user_is, seven_days, with_tokens}

-- `t.valid_until > now()`
abbrev pub valid_at : Timestamp → Option Timestamp → Bool
valid_at now none = false
valid_at now (some until) = ltb now until

abbrev pub is_live : Uuid → Timestamp → TokenRow → Bool
is_live token now t = equals t.access_token token && valid_at now t.valid_until

abbrev pub is_live_of : Uuid → Timestamp → ℕ → TokenRow → Bool
is_live_of token now user_id t = token_user_is user_id t && is_live token now t

-- The join of users with tokens under the WHERE clause: the rows show only the user's columns, so
-- the first of them is that of the first user with a live token row.
abbrev pub holds : Uuid → Timestamp → List TokenRow → UserRow → Bool
holds token now tokens u = exists (is_live_of token now u.id) tokens

-- `LEFT JOIN roles`: the permissions are null without a role.
abbrev pub permissions_of : Option ℕ → List RoleRow → Option ℤ
permissions_of none roles = none
permissions_of (some i) roles = elim (fetch_one (role_id_is i) roles) [
  | none ↦ none
  | some r ↦ r.permissions
]

abbrev pub user_of : Db → UserRow → User
user_of db u = record {
  username = u.username;
  id = u.id;
  privileges = permissions_of u.role_id db.roles;
}

abbrev pub find_holder : Uuid → Timestamp → Db → Option User
find_holder token now db = Option.map (user_of db) (fetch_one (holds token now db.tokens) db.users)

abbrev pub select_holder : Option Uuid → Action (Option User)
select_holder none env w = (err db_error, w)
select_holder (some token) env w = (ok (find_holder token (env.now w.transaction) w.working), w)

-- The token is bound as the text that the client sent.
unfoldable pub get_user_by_token : String → Action (Option User)
get_user_by_token token = session_block (λ env w. select_holder (env.bind_uuid token) env w)

abbrev pub refreshed : Uuid → Timestamp → TokenRow → TokenRow
refreshed token now t = record t {
  access_token = some token;
  valid_until = some (now + seven_days);
}

abbrev pub updating_token : ℕ → Action (Option Uuid)
updating_token user_id env w =
    let token = env.random_uuid w.drawn in
    if exists (token_user_is user_id) w.working.tokens
    then (
      ok (some token),
      with_tokens (record w { drawn = w.drawn + 1 })
          (update (token_user_is user_id) (refreshed token (env.now w.transaction))
            w.working.tokens),
    )
    else (ok none, w)

unfoldable pub refresh_user_token : ℕ → Action (Option Uuid)
refresh_user_token user_id = session_block (do token ← updating_token user_id; commit; pure token)

abbrev pub valid_until_of : ℕ → List TokenRow → Option Timestamp
valid_until_of user_id rows = elim (fetch_one (token_user_is user_id) rows) [
  | none ↦ none
  | some t ↦ t.valid_until
]

abbrev pub me_of : Db → UserRow → UserMe
me_of db u = record { username = u.username; valid_until = valid_until_of u.id db.tokens }

abbrev pub select_me : ℕ → Action (Option UserMe)
select_me user_id env w =
    (ok (Option.map (me_of w.working) (fetch_one (user_id_is user_id) w.working.users)), w)

unfoldable pub get_user_info : ℕ → Action (Option UserMe)
get_user_info user_id = session_block (select_me user_id)
