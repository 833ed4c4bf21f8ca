-- ===== src/Api/Admission.antt =====
-- middleware/auth.py and repository/auth.py: the stored rows by which `authorization` decides.
use mathlib.Core.Option
use smart_http_requester.Common.{
  ℕ, ◌≡◌, refl, Option, ◌<◌, ◌∙◌, ◌↔◌, sym, ap, subst, some_inj, ==_refl, String, Bool, true, none,
  some, List, [], ◌∷◌, arith, inl, inr, Bool-cases, Option-cases,
}
use smart_http_requester.Common.Int.{ℤ, leb_ℤ}
use smart_http_requester.Sql.{fetch_one, exists}
use smart_http_requester.Sql.Keys.{IsKeyed, fetch_one-key}
use smart_http_requester.Sql.Laws.{fetch_one_passes}
use smart_http_requester.Schemas.{Uuid, Timestamp, User}
use smart_http_requester.Tables.{RoleRow, UserRow, TokenRow, Db, user_id_is}
use smart_http_requester.Session.{ok, Env, World}
use smart_http_requester.Repository.Auth.{role_id_is, token_user_is}
use smart_http_requester.Repository.Identity.{
  find_holder, holds, is_live_of, permissions_of, user_of,
}
use smart_http_requester.Middleware.Auth.{authorization, is_str_uuid}
use smart_http_requester.Middleware.Access.{authorization_iff}
use smart_http_requester.Middleware.Holder.{live_parts}
use smart_http_requester.Api.Profile.{user_key, token_key}

-- No two users have the same token.
abbrev pub HasOneHolder : List TokenRow → Type 0
HasOneHolder tokens =
    (i k j : ℕ) (s t : TokenRow)
    → fetch_one (token_user_is k) tokens ≡ some s
    → fetch_one (token_user_is j) tokens ≡ some t
    → s.access_token ≡ some i
    → t.access_token ≡ some i
    → k ≡ j

-- A user's row of users, with a row of tokens that has this token until a later time, and a row of
-- roles whose permissions are a number that is not below the privileges.
pub record IsGranted (db : Db) (now : Timestamp) (uuid : Uuid) (privileges : ℤ) (user : User)
    : Type 0 where
  pub user_row : UserRow
  pub user_stored : fetch_one (user_id_is user_row.id) db.users ≡ some user_row
  pub token_row : TokenRow
  pub token_stored : fetch_one (token_user_is user_row.id) db.tokens ≡ some token_row
  pub same_token : token_row.access_token ≡ some uuid
  pub until : Timestamp
  pub valid_until : token_row.valid_until ≡ some until
  pub in_time : now < until
  pub role : ℕ
  pub has_role : user_row.role_id ≡ some role
  pub role_row : RoleRow
  pub role_stored : fetch_one (role_id_is role) db.roles ≡ some role_row
  pub level : ℤ
  pub permissions : role_row.permissions ≡ some level
  pub enough : leb_ℤ privileges level ≡ true
  pub shown :
      user ≡ record { username = user_row.username; id = user_row.id; privileges = some level }

-- A row that one test finds, and another one passes.
finds :
    {A : Type 0} (p q : A → Bool) (rs : List A) {r : A}
    → fetch_one p rs ≡ some r
    → q r ≡ true
    → exists q rs ≡ true
finds p q [] e h = ground arith
finds p q (s ∷ rs) {r} e h = elim (Bool-cases (q s)) [
  | inl k ↦ rw (k, exists) refl
  | inr k ↦ elim (Bool-cases (p s)) [
    | inl l ↦ let same : s ≡ r = ground (arith, l) in absurd (ground (arith, k, h, ap q same))
    | inr l ↦ rw (k, exists) (finds p q rs (ground (arith, l)) h)
  ]
]

module _ (db : Db) (now : Timestamp) (i : Uuid) (kt : IsKeyed token_key db.tokens) where
  -- The user's only token row is live.
  live_token :
      (u : UserRow)
      → holds i now db.tokens u ≡ true
      → (t : TokenRow) × (fetch_one (token_user_is u.id) db.tokens ≡ some t)
        × (t.access_token ≡ some i)
        × ((until : Timestamp) × (t.valid_until ≡ some until) × (now < until))
  live_token u e = elim (Option-cases (fetch_one (is_live_of i now u.id) db.tokens)) [
    | inl n ↦ absurd (ground (arith, e, n))
    | inr (t, g) ↦
        let live = fetch_one_passes (is_live_of i now u.id) db.tokens g in
        let (owner, same, later) = live_parts i now u.id t live in
        (
          t,
          subst (λ j. fetch_one (token_user_is j) db.tokens ≡ some t) owner
              (fetch_one-key token_key (is_live_of i now u.id) db.tokens kt g),
          same,
          later,
        )
  ]

  -- A user who has the token is the one whom the query finds.
  module _ (ku : IsKeyed user_key db.users) (one : HasOneHolder db.tokens) where
    found :
        (u : UserRow)
        → fetch_one (user_id_is u.id) db.users ≡ some u
        → holds i now db.tokens u ≡ true
        → find_holder i now db ≡ some (user_of db u)
    found u e h = elim (Option-cases (fetch_one (holds i now db.tokens) db.users)) [
      | inl n ↦
          let there = finds (user_id_is u.id) (holds i now db.tokens) db.users e h in
          absurd (ground (arith, there, n))
      | inr (v, f) ↦
          let (s, g, a, later) = live_token u h in
          let (t, k, b, later') =
            live_token v (fetch_one_passes (holds i now db.tokens) db.users f) in
          let id : u.id ≡ v.id = one i u.id v.id s t g k a b in
          let row : fetch_one (user_id_is v.id) db.users ≡ some v =
            fetch_one-key user_key (holds i now db.tokens) db.users ku f in
          let same : u ≡ v =
            some_inj (sym e ∙ ap (λ j. fetch_one (user_id_is j) db.users) id ∙ row) in
          ap (Option.map (user_of db)) f ∙ ap (λ x. some (user_of db x)) (sym same)
    ]

permissions-cases :
    (role : Option ℕ) (roles : List RoleRow) {level : ℤ}
    → permissions_of role roles ≡ some level
    → (j : ℕ) × (role ≡ some j)
      × ((r : RoleRow) × (fetch_one (role_id_is j) roles ≡ some r) × (r.permissions ≡ some level))
permissions-cases none roles e = ground arith
permissions-cases (some j) roles e = elim (Option-cases (fetch_one (role_id_is j) roles)) [
  | inl n ↦ absurd (ground (arith, n))
  | inr (r, f) ↦ (j, refl, (r, f, ground (arith, f)))
]

live_at :
    (i : Uuid) (now : Timestamp) (u until : ℕ) (t : TokenRow)
    → token_user_is u t ≡ true
    → t.access_token ≡ some i
    → t.valid_until ≡ some until
    → now < until
    → is_live_of i now u t ≡ true
live_at i now u until t o a v l = ground (arith, o, a, v, l, ==_refl i)

module _ (env : Env) (w : World) (privileges : ℤ) (token : String) (user : User) where
  abbrev now : Timestamp
  now = env.now w.transaction

  granted :
      IsKeyed token_key w.working.tokens
      → IsKeyed user_key w.working.users
      → (authorization privileges token env w).0 ≡ ok user
      → (i : Uuid) × (is_str_uuid env token ≡ true)
        × (env.bind_uuid token ≡ some i)
        × IsGranted w.working now i privileges user
  granted kt ku h =
      let a = (authorization_iff env w privileges token user).0 h in
      let db = w.working in
      elim (Option-cases (fetch_one (holds a.uuid now db.tokens) db.users)) [
        | inl n ↦ absurd (ground (arith, a.held, n))
        | inr (u, f) ↦
            let same : user_of db u ≡ user = ground (arith, a.held, f) in
            let (t, stored, same_token, (until, valid_until, in_time)) =
              live_token db now a.uuid kt u
                (fetch_one_passes (holds a.uuid now db.tokens) db.users f) in
            let allowed = ap (λ (v : User). v.privileges) same ∙ a.granted in
            let (role, has_role, (row, role_stored, permissions)) =
              permissions-cases u.role_id db.roles allowed in
            (
              a.uuid,
              a.well_formed,
              a.bound,
              record {
                user_row = u;
                user_stored = fetch_one-key user_key (holds a.uuid now db.tokens) db.users ku f;
                token_row = t;
                token_stored = stored;
                same_token = same_token;
                until = until;
                valid_until = valid_until;
                in_time = in_time;
                role = role;
                has_role = has_role;
                role_row = row;
                role_stored = role_stored;
                level = a.level;
                permissions = permissions;
                enough = a.enough;
                shown =
                    sym same
                    ∙ ap (λ p. record { username = u.username; id = u.id; privileges = p }) allowed;
              },
            )
      ]

  admitted :
      IsKeyed token_key w.working.tokens
      → IsKeyed user_key w.working.users
      → HasOneHolder w.working.tokens
      → (i : Uuid) × (is_str_uuid env token ≡ true)
        × (env.bind_uuid token ≡ some i)
        × IsGranted w.working now i privileges user
      → (authorization privileges token env w).0 ≡ ok user
  admitted kt ku one (i, well_formed, bound, g) =
      let db = w.working in
      let u = g.user_row in
      let t = g.token_row in
      let owner = fetch_one_passes (token_user_is u.id) db.tokens g.token_stored in
      let holder =
        finds (token_user_is u.id) (is_live_of i now u.id) db.tokens g.token_stored
          (live_at i now u.id g.until t owner g.same_token g.valid_until g.in_time) in
      let allowed : permissions_of u.role_id db.roles ≡ some g.level =
        ap (λ r. permissions_of r db.roles) g.has_role
        ∙ ground (arith, g.role_stored, g.permissions) in
      let held : find_holder i now db ≡ some user =
        found db now i kt ku one u g.user_stored holder
        ∙ ap (λ p. some (record { username = u.username; id = u.id; privileges = p })) allowed
        ∙ ap some (sym g.shown) in
      (authorization_iff env w privileges token user).1 (record {
        uuid = i;
        well_formed = well_formed;
        bound = bound;
        held = held;
        level = g.level;
        granted = ap (λ (v : User). v.privileges) g.shown;
        enough = g.enough;
      })

-- `authorization` returns a user exactly when the token is a UUID and stored rows grant it: the
-- user's row of users, the user's row of tokens, which has this token until a time that is still to
-- come, and a row of roles that the user's row refers to and whose permissions are a number not
-- below the privileges asked for; the user returned has that name, id and number. So no expired
-- token and no user without a role or permissions is let in. The ids of the users and the users of
-- the token rows are unique, as the primary keys make them, and no two users have the same token.
pub authorization-IsGranted :
    (env : Env) (w : World) (privileges : ℤ) (token : String) (user : User)
    → IsKeyed token_key w.working.tokens
    → IsKeyed user_key w.working.users
    → HasOneHolder w.working.tokens
    → ((authorization privileges token env w).0 ≡ ok user) ↔ (
        (i : Uuid) × (is_str_uuid env token ≡ true)
        × (env.bind_uuid token ≡ some i)
        × IsGranted w.working (env.now w.transaction) i privileges user)
authorization-IsGranted env w privileges token user kt ku one =
    (granted env w privileges token user kt ku, admitted env w privileges token user kt ku one)
