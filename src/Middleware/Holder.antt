-- ===== src/Middleware/Holder.antt =====
-- middleware/auth.py: the rows behind a user whom `authorization` lets in.
use mathlib.Core.List.{Mem, mem-cons_self, mem-cons_of_mem}
use smart_http_requester.Common.{
  ℕ, ◌≡◌, ◌<◌, sym, subst, ◌∙◌, ap, String, Bool, true, some, List, [], ◌∷◌, arith, inl, inr,
  Option-cases, Bool-cases,
}
use smart_http_requester.Common.Int.{ℤ, leb_ℤ}
use smart_http_requester.Sql.{fetch_one, exists}
use smart_http_requester.Schemas.{Uuid, Timestamp, User}
use smart_http_requester.Tables.{UserRow, TokenRow, Db}
use smart_http_requester.Session.{ok, Env, World}
use smart_http_requester.Repository.Identity.{
  find_holder, holds, is_live_of, permissions_of, user_of,
}
use smart_http_requester.Middleware.Auth.{authorization}
use smart_http_requester.Middleware.Access.{authorization_iff}

-- A stored user with a stored token row that has this token and has not expired; the role's
-- permissions suffice.
pub record IsHolder (env : Env) (w : World) (privileges : ℤ) (token : String) (user : User)
    : Type 0 where
  pub uuid : Uuid
  pub bound : env.bind_uuid token ≡ some uuid
  pub user_row : UserRow
  pub token_row : TokenRow
  pub user_stored : Mem user_row w.working.users
  pub token_stored : Mem token_row w.working.tokens
  pub owned : token_row.user_id ≡ user_row.id
  pub same_token : token_row.access_token ≡ some uuid
  pub until : Timestamp
  pub valid_until : token_row.valid_until ≡ some until
  pub in_time : env.now w.transaction < until
  pub shown : (user.id ≡ user_row.id) × (user.username ≡ user_row.username)
  pub level : ℤ
  pub granted : permissions_of user_row.role_id w.working.roles ≡ some level
  pub enough : leb_ℤ privileges level ≡ true

fetch_one_Mem :
    {A : Type 0} (p : A → Bool) (rs : List A) {r : A}
    → fetch_one p rs ≡ some r
    → Mem r rs × (p r ≡ true)
fetch_one_Mem p [] e = ground arith
fetch_one_Mem {A} p (s ∷ rs) {r} e = elim (Bool-cases (p s)) [
  | inl h ↦
      let same : s ≡ r = ground arith in
      subst (λ (t : A). Mem t (s ∷ rs) × (p t ≡ true)) same (mem-cons_self, h)
  | inr h ↦ let (m, q) = fetch_one_Mem p rs (ground arith) in (mem-cons_of_mem s m, q)
]

live_row :
    (i : Uuid) (now : Timestamp) (u : ℕ) (ts : List TokenRow)
    → exists (is_live_of i now u) ts ≡ true
    → (t : TokenRow) × Mem t ts × (is_live_of i now u t ≡ true)
live_row i now u ts e = elim (Option-cases (fetch_one (is_live_of i now u) ts)) [
  | inl n ↦ ground arith
  | inr (t, f) ↦ let (m, q) = fetch_one_Mem (is_live_of i now u) ts f in (t, m, q)
]

access :
    (i : Uuid) (now : Timestamp) (u : ℕ) (t : TokenRow)
    → is_live_of i now u t ≡ true
    → t.access_token ≡ some i
access i now u t e = elim (Option-cases t.access_token) [
  | inl n ↦ ground arith
  | inr (j, v) ↦ ground arith
]

pub live_parts :
    (i : Uuid) (now : Timestamp) (u : ℕ) (t : TokenRow)
    → is_live_of i now u t ≡ true
    → (t.user_id ≡ u)
      × (t.access_token ≡ some i)
      × ((until : Timestamp) × (t.valid_until ≡ some until) × (now < until))
live_parts i now u t e = elim (Option-cases t.valid_until) [
  | inl n ↦ ground arith
  | inr (until, v) ↦ (ground arith, access i now u t e, (until, v, ground arith))
]

-- The user that the query shows, and the rows that it comes from.
found_rows :
    (i : Uuid) (now : Timestamp) (db : Db) (user : User)
    → find_holder i now db ≡ some user
    → (u : UserRow) × (t : TokenRow) × Mem u db.users
      × Mem t db.tokens
      × (is_live_of i now u.id t ≡ true)
      × (user_of db u ≡ user)
found_rows i now db user e = elim (Option-cases (fetch_one (holds i now db.tokens) db.users)) [
  | inl n ↦ ground arith
  | inr (u, f) ↦
      let (m, q) = fetch_one_Mem (holds i now db.tokens) db.users f in
      let (t, n, l) = live_row i now u.id db.tokens q in (u, t, m, n, l, ground arith)
]

-- Whoever `authorization` returns is a stored user with a stored token row that carries the token
-- of the request and has not expired, and the user's role grants the privileges asked for.
pub authorization-IsHolder :
    (env : Env) (w : World) (privileges : ℤ) (token : String) (user : User)
    → (authorization privileges token env w).0 ≡ ok user
    → IsHolder env w privileges token user
authorization-IsHolder env w privileges token user h =
    let a = (authorization_iff env w privileges token user).0 h in
    let (u, t, m, n, l, shows) = found_rows a.uuid (env.now w.transaction) w.working user a.held in
    let (owned, same_token, (until, valid_until, in_time)) =
      live_parts a.uuid (env.now w.transaction) u.id t l in
    record {
      uuid = a.uuid;
      bound = a.bound;
      user_row = u;
      token_row = t;
      user_stored = m;
      token_stored = n;
      owned = owned;
      same_token = same_token;
      until = until;
      valid_until = valid_until;
      in_time = in_time;
      shown = (ap (λ (v : User). v.id) (sym shows), ap (λ (v : User). v.username) (sym shows));
      level = a.level;
      granted = ap (λ (v : User). v.privileges) shows ∙ a.granted;
      enough = a.enough;
    }
