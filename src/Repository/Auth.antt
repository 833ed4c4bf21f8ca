-- ===== src/Repository/Auth.antt =====
-- repository/auth.py: `AuthRepository`, with the function `get_or_create_user_token` of
-- migrations/0002. Every method closes the session at its end.
use Prim.Native.Char.{code}
use mathlib.Core.Option
use smart_http_requester.Common.{
  ℕ, suc, zero, ◌+◌, String, Bool, true, Option, none, some, List, [], ◌∷◌, ◌++◌, if◌then◌else◌,
  ◌==◌, str_eq, not, ◌&&◌,
}
use smart_http_requester.Sql.{fetch_one, exists, delete}
use smart_http_requester.Schemas.{Uuid, Timestamp, Bytes, UserRegisterResponse, UserIdPassword}
use smart_http_requester.Tables.{RoleRow, UserRow, TokenRow, user_id_is}
use smart_http_requester.Session.{
  unique_violation, integrity_error, db_error, ok, err, World, Action, pure, ◌>>=◌, ◌>>◌, commit,
  session_block,
}

abbrev pub blank : String → Bool
blank String.[] = true
blank (String.◌∷◌ c s) = (code c == b' ') && blank s

-- A value that is stored in a `varchar(n)` column: what passes n characters must be spaces, and is
-- cut off.
unfoldable pub varchar : ℕ → String → Option String
varchar n String.[] = some ""
varchar zero (String.◌∷◌ c s) = if blank (String.◌∷◌ c s) then some "" else none
varchar (suc n) (String.◌∷◌ c s) = Option.map (String.◌∷◌ c) (varchar n s)

abbrev pub with_users : World → List UserRow → World
with_users w rows = record w { working = record (w.working) { users = rows } }

abbrev pub with_tokens : World → List TokenRow → World
with_tokens w rows = record w { working = record (w.working) { tokens = rows } }

abbrev pub username_is : String → UserRow → Bool
username_is name u = str_eq u.username name

abbrev pub role_id_is : ℕ → RoleRow → Bool
role_id_is i r = r.id == i

abbrev pub token_user_is : ℕ → TokenRow → Bool
token_user_is i t = t.user_id == i

-- `INSERT INTO users ... RETURNING ...`. The number of a refused row is not used again.
abbrev pub insert_row : UserRow → Action UserRow
insert_row u env w =
    let w' = record w { user_sequence = w.user_sequence + 1 } in
    if exists (user_id_is u.id) w.working.users
    then (err unique_violation, w')
    else if exists (username_is u.username) w.working.users
    then (err unique_violation, w')
    else if not (exists (role_id_is 1) w.working.roles)
    then (err integrity_error, w')
    else (ok u, with_users w' (w.working.users ++ u ∷ []))

unfoldable pub insert_user : String → Bytes → Action UserRow
insert_user username password env w =
    if not (env.binds_text username) then (err db_error, w) else elim (varchar 50 username) [
      | none ↦ (err db_error, w)
      | some name ↦
          insert_row
            (record {
              id = w.user_sequence;
              username = name;
              password_hash = password;
              role_id = some 1;
            })
            env w
    ]

-- With the default `role_id=1`, which its one caller uses.
unfoldable pub create_new_user : String → Bytes → Action UserRegisterResponse
create_new_user username password = session_block (do
  raw_user ← insert_user username password
  commit
  pure (record { user_id = raw_user.id; username = raw_user.username }))

abbrev pub select_user : String → Action (Option UserRow)
select_user username env w =
    if env.binds_text username
    then (ok (fetch_one (username_is username) w.working.users), w)
    else (err db_error, w)

abbrev pub id_password : UserRow → UserIdPassword
id_password u = record { user_id = u.id; password_hash = u.password_hash }

unfoldable pub get_user_id_password : String → Action (Option UserIdPassword)
get_user_id_password username =
    session_block (do raw_data ← select_user username; pure (Option.map id_password raw_data))

-- `interval '7d'`, in seconds.
abbrev pub seven_days : ℕ
seven_days = 604800

abbrev pub new_token : ℕ → Uuid → Timestamp → TokenRow
new_token user_id token now = record {
  user_id = user_id;
  access_token = some token;
  valid_until = some (now + seven_days);
}

-- The INSERT of the SQL function: a row with a null token is in its way.
abbrev pub insert_token : ℕ → Action Uuid
insert_token user_id env w =
    let token = env.random_uuid w.drawn in
    let w' = record w { drawn = w.drawn + 1 } in
    if exists (token_user_is user_id) w.working.tokens
    then (err unique_violation, w')
    else if not (exists (user_id_is user_id) w.working.users)
    then (err integrity_error, w')
    else (
      ok token,
      with_tokens w' (w.working.tokens ++ new_token user_id token (env.now w.transaction) ∷ []),
    )

abbrev pub token_of : ℕ → List TokenRow → Option Uuid
token_of user_id rows = elim (fetch_one (token_user_is user_id) rows) [
  | none ↦ none
  | some t ↦ t.access_token
]

-- A token that is there is returned whether or not it has expired.
unfoldable pub get_or_create_user_token : ℕ → Action Uuid
get_or_create_user_token user_id env w = elim (token_of user_id w.working.tokens) [
  | none ↦ insert_token user_id env w
  | some token ↦ (ok token, w)
]

unfoldable pub get_access_token_by_user_id : ℕ → Action Uuid
get_access_token_by_user_id user_id =
    session_block (do token ← get_or_create_user_token user_id; commit; pure token)

abbrev pub deleting_token : ℕ → Action (Option ℕ)
deleting_token user_id env w = (
  ok (if exists (token_user_is user_id) w.working.tokens then some user_id else none),
  with_tokens w (delete (token_user_is user_id) w.working.tokens),
)

unfoldable pub delete_token : ℕ → Action (Option ℕ)
delete_token user_id = session_block (do deleted ← deleting_token user_id; commit; pure deleted)
