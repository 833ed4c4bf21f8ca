-- ===== src/Tests/Auth.antt =====
-- The endpoints on users and tokens on the sample.
use smart_http_requester.Common.{
  ℕ, arith, ◌==◌, inl, Bool-cases, ◌+◌, ◌≡◌, refl, ◌↔◌, ◌<◌, String, true, Option, inr, subst, none,
  some, [], ◌∷◌, ◌++◌,
}
use smart_http_requester.Common.Int.{pos}
use smart_http_requester.Sql.{fetch_one, exists}
use smart_http_requester.Schemas.{Uuid, Timestamp, UserCredentials, user_credentials}
use smart_http_requester.Tables.{UserRow, TokenRow, Db}
use smart_http_requester.Session.{Env, ok, err, opening, reply_status}
use smart_http_requester.Passwords.{hash_password, check_password}
use smart_http_requester.Middleware.Auth.{authorization, unauthorized, is_str_uuid}
use smart_http_requester.Repository.Auth.{
  username_is, token_user_is, varchar, insert_user, create_new_user, get_user_id_password,
  get_or_create_user_token, get_access_token_by_user_id, delete_token as repo_delete, new_token,
}
use smart_http_requester.Repository.Identity.{is_live, get_user_by_token, refresh_user_token}
use smart_http_requester.Domain.Auth.{create_user, get_token, delete_token, refresh_token}
use smart_http_requester.Domain.Login.{token_reply}
use smart_http_requester.Api.Admission.{HasOneHolder, IsGranted, authorization-IsGranted}
use Prim.Native.String.{◌++◌ as append}
use smart_http_requester.Api.Websocket.{
  get_token_from_websocket, authenticate_websocket, websocket_agrees,
}
use smart_http_requester.Api.Docs.{uncounted, docs-login}
use smart_http_requester.Api.Auth.{
  auth_token, auth_register, auth_login, auth_logout, auth_refresh, auth_verify,
}
use smart_http_requester.Api.Profile.{user_key, token_key, profile, auth_verify_effect}
use smart_http_requester.Sql.Keys.{IsKeyed}
use smart_http_requester.Api.Refresh.{refresh_replaces}
use smart_http_requester.Middleware.Holder.{IsHolder, authorization-IsHolder}
use smart_http_requester.Api.Logout.{logout_revokes}
use smart_http_requester.Api.Lockout.{
  expired_lockout, login_replies, login_status, checked, HasToken,
}
use smart_http_requester.Api.Register.{register-login}
use smart_http_requester.Tests.Sample.{env, ann, db, world, world_of}
use smart_http_requester.Tests.Tasks.{ann-Authorized}

-- Everything that the endpoints call.
code : Unit {0}
unfolding authorization get_user_by_token hash_password check_password varchar insert_user
    create_new_user get_user_id_password get_or_create_user_token get_access_token_by_user_id
    repo_delete refresh_user_token create_user get_token delete_token refresh_token auth_register
    auth_login auth_logout auth_refresh user_credentials
code = tt

abbrev pub hex : String
hex = "0123456789abcdef0123456789abcdef0123456789abcdef0123456789abcdef"

abbrev pub credentials : String → UserCredentials
credentials name = record { username = name; password_hash = hex }

-- Here the passwords that are right are those of 64 characters.
abbrev pub hex_env : Env
hex_env = record env { bcrypt_check = λ p h. some true }

pub credentials-valid : (name : String) → user_credentials name hex ≡ some (credentials name)
unfolding code
credentials-valid name = refl

login_statuses :
    (reply_status (auth_login "ann" hex hex_env world).0 ≡ 200)
    × (reply_status (auth_login "ann" hex env world).0 ≡ 401)
    × (reply_status (auth_login "eve" hex hex_env world).0 ≡ 404)
    × (reply_status (auth_login "ann" "short" hex_env world).0 ≡ 422)
unfolding code
login_statuses = (refl, refl, refl, refl)

abbrev late_db : Db
late_db = record db {
  tokens = record { user_id = 1; access_token = some 7; valid_until = some 10 } ∷ [];
}

checks : (check_password hex (3 ∷ []) hex_env (world_of late_db)).0 ≡ ok true
unfolding code
checks = refl

login_kept :
    (world_of late_db).committed.tokens
    ≡ (auth_login "ann" hex hex_env (world_of late_db)).1.committed.tokens
unfolding code
login_kept = refl

expired_lockout_example :
    ((auth_login "ann" hex hex_env (world_of late_db)).0 ≡ ok (token_reply hex_env 7))
    × ((auth_login "ann" hex hex_env (world_of late_db)).1.committed ≡ late_db)
    × ((authorization (pos 0) "t-ann" hex_env (opening (world_of late_db))).0 ≡ err unauthorized)
expired_lockout_example =
    expired_lockout "ann" hex (credentials "ann") hex_env (world_of late_db)
      (credentials-valid "ann") refl 7 "t-ann" (world_of late_db) refl checks refl refl login_kept
      refl

abbrev HasTokenRow : Option UserRow → Type 0
HasTokenRow none = Unit
HasTokenRow (some u) = HasToken u.id world.committed.tokens

ann-HasToken :
    (u : UserRow)
    → fetch_one (username_is "ann") world.committed.users ≡ some u
    → HasToken u.id world.committed.tokens
ann-HasToken u e = subst HasTokenRow e (inr (7, refl))

login_replies_example :
    reply_status (auth_login "ann" hex hex_env world).0
    ≡ login_status (checked hex hex_env world (fetch_one (username_is "ann") world.committed.users))
login_replies_example =
    login_replies "ann" hex (credentials "ann") hex_env world (credentials-valid "ann") refl
      ann-HasToken

hashes : (hash_password hex hex_env world).0 ≡ ok (0 ∷ [])
unfolding code
hashes = refl

fits : (varchar 50 "ann" ≡ some "ann") × (varchar 50 "eve" ≡ some "eve")
unfolding code
fits = (refl, refl)

new_checks : (check_password hex (0 ∷ []) hex_env world).0 ≡ ok true
unfolding code
new_checks = refl

register-login_example :
    let w' = (auth_register "eve" hex hex_env world).1 in
    ((auth_login "eve" hex hex_env w').0
      ≡ ok (token_reply hex_env (hex_env.random_uuid (world.drawn + 1))))
    × ((auth_login "eve" hex hex_env w').1.committed.tokens
        ≡ world.committed.tokens
          ++ new_token world.user_sequence
              (hex_env.random_uuid (world.drawn + 1))
              (hex_env.now (w'.transaction + 1))
            ∷ [])
register-login_example =
    register-login "eve" hex (credentials "eve") (0 ∷ []) hex_env world (credentials-valid "eve")
      hashes refl fits.1 refl refl refl refl new_checks

logout_revokes_example :
    (authorization (pos 0) "t-ann" env (opening (auth_logout "t-ann" env world).1)).0
    ≡ err unauthorized
logout_revokes_example =
    logout_revokes "t-ann" 7 env world (auth_logout "t-ann" env world).1 ann ann-Authorized refl
      refl refl

refresh_replaces_example :
    ((auth_refresh "t-ann" env world).0 ≡ ok (token_reply env (env.random_uuid world.drawn)))
    × (exists
          (is_live (env.random_uuid world.drawn) 2000)
          (auth_refresh "t-ann" env world).1.committed.tokens
        ≡ true)
    × ((authorization (pos 0) "t-ann" env (opening (auth_refresh "t-ann" env world).1)).0
        ≡ err unauthorized)
refresh_replaces_example =
    refresh_replaces "t-ann" env world ann ann-Authorized refl 7 (auth_refresh "t-ann" env world).1
      2000 refl (omega arith) refl refl (omega arith)

ann_authorized : (authorization (pos 0) "t-ann" env world).0 ≡ ok ann
unfolding code
ann_authorized = refl

authorization-IsHolder_example : IsHolder env world (pos 0) "t-ann" ann
authorization-IsHolder_example = authorization-IsHolder env world (pos 0) "t-ann" ann ann_authorized

websocket_code : Unit {0}
unfolding get_token_from_websocket authenticate_websocket get_user_by_token
websocket_code = tt

header_test :
    (get_token_from_websocket (some "BEARER  a b ") none ≡ some "a b")
    × (get_token_from_websocket (some "Basic a") (some "q") ≡ some "q")
    × (get_token_from_websocket (some "") (some "q") ≡ some "q")
    × ((authenticate_websocket none (some "t-ann") env world).0 ≡ ok (some ann))
unfolding websocket_code
header_test = (refl, refl, refl, refl)

websocket_agrees_example :
    (authenticate_websocket (some (append "Bearer " "t-ann")) none env world).0 ≡ ok (some ann)
    ↔ (authorization (pos 0) "t-ann" env (opening world)).0 ≡ ok ann
websocket_agrees_example =
    websocket_agrees env world "t-ann" none (pos 0) (pos 31) ann refl refl refl

docs-login_example :
    ((auth_token "ann" hex hex_env world).0 ≡ (auth_login "ann" hex hex_env world).0)
    × (uncounted (auth_token "ann" hex hex_env world).1
        ≡ uncounted (auth_login "ann" hex hex_env world).1)
docs-login_example = docs-login "ann" hex hex_env world (credentials-valid "ann")

-- The primary keys of the sample.
pub db-IsKeyed : IsKeyed user_key db.users × IsKeyed token_key db.tokens
db-IsKeyed = ((refl, (refl, tt)), (refl, (refl, tt)))

-- The user and the token of a row of the sample.
held :
    (i k : ℕ) (s : TokenRow)
    → fetch_one (token_user_is k) db.tokens ≡ some s
    → s.access_token ≡ some i
    → k + 6 ≡ i
held i k s e g = elim (Bool-cases (1 == k)) [
  | inl l ↦ ground (arith, e, g, l)
  | inr l ↦ elim (Bool-cases (2 == k)) [
    | inl m ↦ ground (arith, e, g, l, m)
    | inr m ↦ absurd (ground (arith, e, l, m))
  ]
]

db-HasOneHolder : HasOneHolder db.tokens
db-HasOneHolder i k j s t e f g h = let p = held i k s e g in let q = held i j t f h in omega arith

authorization-IsGranted_example : (authorization (pos 0) "t-ann" env world).0 ≡ ok ann ↔ (
    (i : Uuid) × (is_str_uuid env "t-ann" ≡ true)
    × (env.bind_uuid "t-ann" ≡ some i)
    × IsGranted world.working (env.now world.transaction) i (pos 0) ann)
authorization-IsGranted_example =
    authorization-IsGranted env world (pos 0) "t-ann" ann db-IsKeyed.1 db-IsKeyed.0 db-HasOneHolder

auth_verify_effect_example :
    let (reply, v) = auth_verify "t-ann" env world in
    ((until : Timestamp) × (env.now world.transaction < until) × (reply ≡ ok (profile ann until)))
    × (v.committed ≡ world.committed)
    × (v.sent ≡ world.sent)
auth_verify_effect_example =
    auth_verify_effect "t-ann" env world ann ann-Authorized db-IsKeyed.0 db-IsKeyed.1
