-- ===== src/Api/Profile.antt =====
-- api/v1/auth.py: what `auth_verify` answers.
use mathlib.Core.Option
use smart_http_requester.Common.{
  ℕ, ◌≡◌, ◌<◌, ap, String, true, some, List, subst, arith, inl, inr, Option-cases,
}
use smart_http_requester.Common.Int.{pos}
use smart_http_requester.Sql.{fetch_one, exists}
use smart_http_requester.Sql.Keys.{IsKeyed, fetch_one-key}
use smart_http_requester.Sql.Laws.{fetch_one_passes}
use smart_http_requester.Schemas.{Uuid, Timestamp, User, UserMe}
use smart_http_requester.Tables.{UserRow, TokenRow, Db, user_id_is}
use smart_http_requester.Session.{ok, Env, World, opening}
use smart_http_requester.Repository.Identity.{
  find_holder, holds, is_live_of, user_of, me_of, valid_until_of, get_user_info as repo_info,
}
use smart_http_requester.Repository.Auth.{token_user_is}
use smart_http_requester.Domain.Auth.{get_user_info}
use smart_http_requester.Middleware.Access.{authorization_iff}
use smart_http_requester.Middleware.Holder.{live_parts}
use smart_http_requester.Api.Auth.{auth_verify}
use smart_http_requester.Api.Endpoint.{Authorized}

abbrev pub user_key : UserRow → ℕ
user_key u = u.id

abbrev pub token_key : TokenRow → ℕ
token_key t = t.user_id

-- What the profile shows of a user: the name, and until when the token is valid.
abbrev pub profile : User → Timestamp → UserMe
profile user until = record { username = user.username; valid_until = some until }

-- The row that is live is the user's only one, so that the LEFT JOIN shows it.
live_until :
    (i : Uuid) (now : Timestamp) (u : ℕ) (ts : List TokenRow)
    → IsKeyed token_key ts
    → exists (is_live_of i now u) ts ≡ true
    → (until : Timestamp) × (now < until) × (valid_until_of u ts ≡ some until)
live_until i now u ts k e = elim (Option-cases (fetch_one (is_live_of i now u) ts)) [
  | inl n ↦ absurd (ground (arith, e, n))
  | inr (t, g) ↦
      let live : is_live_of i now u t ≡ true = fetch_one_passes (is_live_of i now u) ts g in
      let (owner, same, (until, v, later)) = live_parts i now u t live in
      let row =
        subst (λ j. fetch_one (token_user_is j) ts ≡ some t) owner
          (fetch_one-key token_key (is_live_of i now u) ts k g) in
      (until, later, ground (arith, row, v))
]

shown :
    (i : Uuid) (now : Timestamp) (db : Db) (user : User)
    → IsKeyed user_key db.users
    → IsKeyed token_key db.tokens
    → find_holder i now db ≡ some user
    → (until : Timestamp) × (now < until)
      × (Option.map (me_of db) (fetch_one (user_id_is user.id) db.users)
          ≡ some (profile user until))
shown i now db user ku kt e = elim (Option-cases (fetch_one (holds i now db.tokens) db.users)) [
  | inl n ↦ absurd (ground (arith, e, n))
  | inr (u, f) ↦
      let same : user_of db u ≡ user = ground (arith, e, f) in
      let row = fetch_one-key user_key (holds i now db.tokens) db.users ku f in
      let (until, later, v) =
        live_until i now u.id db.tokens kt (fetch_one_passes (holds i now db.tokens) db.users f) in
      (
        until,
        later,
        subst
            (λ (w : User).
              Option.map (me_of db) (fetch_one (user_id_is w.id) db.users) ≡ some (profile w until))
            same (ground (arith, row, v)),
      )
]

pub auth_verify_effect :
    (token : String) (env : Env) (w : World) (user : User)
    → Authorized env w token user
    → IsKeyed user_key w.committed.users
    → IsKeyed token_key w.committed.tokens
    → let (reply, v) = auth_verify token env w in
      ((until : Timestamp) × (env.now w.transaction < until) × (reply ≡ ok (profile user until)))
      × (v.committed ≡ w.committed)
      × (v.sent ≡ w.sent)
unfolding auth_verify get_user_info repo_info
auth_verify_effect token env w user auth ku kt =
    let a = (authorization_iff env (opening w) (pos 0) token user).0 (ap (λ p. p.0) auth) in
    let (until, later, e) = shown a.uuid (env.now w.transaction) w.committed user ku kt a.held in
    ((until, later, ground (arith, auth, e)), ground (arith, auth, e), ground (arith, auth, e))
