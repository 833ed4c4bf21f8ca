-- ===== src/Writes/Lasting.antt =====
-- What the calls of others do to a session: the token row of a user whose token nobody uses to log
-- out or to refresh.
use mathlib.Core.Option
use smart_http_requester.Common.{
  ℕ, ◌==◌, ◌≡◌, sym, subst, ap, ◌∙◌, String, true, false, some, List, [], ◌∷◌, arith, inl, inr,
  Bool-cases, Option-cases, All, ==_iff, some_inj,
}
use smart_http_requester.Common.Int.{pos}
use smart_http_requester.Sql.{fetch_one, exists}
use smart_http_requester.Sql.Laws.{
  fetch_one-append_some, fetch_one-update_ne, fetch_one-delete_ne, fetch_one_passes, exists_by,
  All_by,
}
use smart_http_requester.Sql.Keys.{IsKeyed, fetch_one-key}
use smart_http_requester.Schemas.{Uuid, Timestamp, User}
use smart_http_requester.Tables.{TokenRow, Db, equals, user_id_is}
use smart_http_requester.Session.{ok, Env, World, opening}
use smart_http_requester.Repository.Auth.{token_user_is}
use smart_http_requester.Repository.Identity.{
  valid_at, is_live_of, holds, user_of, find_holder, refreshed,
}
use smart_http_requester.Middleware.Auth.{authorization}
use smart_http_requester.Middleware.Access.{authorization_iff}
use smart_http_requester.Middleware.Holder.{live_parts}
use smart_http_requester.Api.Profile.{token_key}
use smart_http_requester.Api.Service.{
  Call, tasks, register, login, docs_token, logout, refresh, me, metrics, fake_status, run_call,
  run_calls,
}
use smart_http_requester.Writes.{
  Write, account, task, add_user, add_token, drop_tokens, renew_token, add_task, change_tasks,
  Writes, unwritten, and_then,
}
use smart_http_requester.Writes.Calls.{May, run_call-Writes}
use smart_http_requester.Writes.WellFormed.{IsWellFormed, Writes-IsWellFormed}

-- The tokens of all but one user.
abbrev Other : ℕ → ℕ → Type 0
Other u v = (v == u) ≡ false

module _ {env : Env} (u : ℕ) (t : TokenRow) where
  Write-lasts :
      {a b : Db}
      → Write env (Other u) a b
      → fetch_one (token_user_is u) a.tokens ≡ some t
      → fetch_one (token_user_is u) b.tokens ≡ some t
  Write-lasts (account (add_user v i n role r name k)) h = h
  Write-lasts {a} (account (add_token v token now n e)) h =
      fetch_one-append_some (token_user_is u) a.tokens _ h
  Write-lasts {a} (account (drop_tokens v m)) h =
      rw
        (fetch_one-delete_ne (token_user_is u) (token_user_is v) a.tokens
          (λ r e. ground (arith, e, m)))
        h
  Write-lasts {a} (account (renew_token v token now m)) h =
      rw
        (fetch_one-update_ne (token_user_is u) (token_user_is v) (refreshed token now) a.tokens
          (λ r e. (ground (arith, e, m), ground (arith, e, m))))
        h
  Write-lasts (task (add_task i now v fields n status s k x l a e)) h = h
  Write-lasts (task (change_tasks p f c)) h = h

  Writes-lasts :
      {a b : Db}
      → Writes env (Other u) a b
      → fetch_one (token_user_is u) a.tokens ≡ some t
      → fetch_one (token_user_is u) b.tokens ≡ some t
  Writes-lasts unwritten h = h
  Writes-lasts (and_then k c) h = Write-lasts c (Writes-lasts k h)

-- Whoever is let in as this user comes with the user's token.
own_token :
    (j : Uuid) (now : Timestamp) (db : Db) (user : User) (u : ℕ) (t : TokenRow)
    → IsKeyed token_key db.tokens
    → find_holder j now db ≡ some user
    → fetch_one (token_user_is u) db.tokens ≡ some t
    → user.id ≡ u
    → t.access_token ≡ some j
own_token j now db user u t keyed held row same =
    elim (Option-cases (fetch_one (holds j now db.tokens) db.users)) [
      | inl n ↦ absurd (ground (arith, n, held))
      | inr (v, f) ↦
          let live : exists (is_live_of j now v.id) db.tokens ≡ true =
            fetch_one_passes (holds j now db.tokens) db.users f in
          elim (Option-cases (fetch_one (is_live_of j now v.id) db.tokens)) [
            | inl n ↦ absurd (ground (arith, n, live))
            | inr (s, g) ↦
                let found = fetch_one-key token_key (is_live_of j now v.id) db.tokens keyed g in
                let (owned, token, rest) =
                  live_parts j now v.id s (fetch_one_passes (is_live_of j now v.id) db.tokens g) in
                let mine : s.user_id ≡ u = ground (arith, f, held, same, owned) in
                let again : fetch_one (token_user_is u) db.tokens ≡ some s =
                  subst (λ k. fetch_one (token_user_is k) db.tokens ≡ some s) mine found in
                let one : s ≡ t = some_inj (sym again ∙ row) in
                sym (ap (λ (r : TokenRow). r.access_token) one) ∙ token
          ]
    ]

-- The calls that do not log out or refresh with a token.
abbrev pub Leaves : Env → Uuid → Call → Type 0
Leaves env i (tasks token q) = Unit
Leaves env i (register username password_hash) = Unit
Leaves env i (login username password_hash) = Unit
Leaves env i (docs_token username password) = Unit
Leaves env i (logout token) = equals (env.bind_uuid token) i ≡ false
Leaves env i (refresh token) = equals (env.bind_uuid token) i ≡ false
Leaves env i (me token) = Unit
Leaves env i metrics = Unit
Leaves env i (fake_status n) = Unit

module _ (env : Env) (i : Uuid) (u : ℕ) (t : TokenRow) (held : t.access_token ≡ some i) where
  authorized-Other :
      (w : World) (token : String)
      → IsWellFormed w.committed
      → fetch_one (token_user_is u) w.committed.tokens ≡ some t
      → equals (env.bind_uuid token) i ≡ false
      → (user : User) → (authorization (pos 0) token env (opening w)).0 ≡ ok user
      → Other u user.id
  authorized-Other w token h row another user e = elim (Bool-cases (user.id == u)) [
    | inr k ↦ k
    | inl k ↦
        let a = (authorization_iff env (opening w) (pos 0) token user).0 e in
        let own =
          own_token a.uuid (env.now w.transaction) w.committed user u t h.token_users a.held row
            ((==_iff user.id u).0 k) in
        let same : a.uuid ≡ i = some_inj (sym own ∙ held) in
        let bound = a.bound in absurd (ground (arith, another, same, bound))
  ]

  May-Other :
      (c : Call) (w : World)
      → Leaves env i c
      → IsWellFormed w.committed
      → fetch_one (token_user_is u) w.committed.tokens ≡ some t
      → May env w (Other u) c
  May-Other (tasks token q) w l h row = tt
  May-Other (register username password_hash) w l h row = tt
  May-Other (login username password_hash) w l h row = tt
  May-Other (docs_token username password) w l h row = tt
  May-Other (logout token) w l h row = authorized-Other w token h row l
  May-Other (refresh token) w l h row = authorized-Other w token h row l
  May-Other (me token) w l h row = tt
  May-Other metrics w l h row = tt
  May-Other (fake_status n) w l h row = tt

  run_calls-lasts :
      (cs : List Call) (w : World)
      → All (Leaves env i) cs
      → IsWellFormed w.committed
      → fetch_one (token_user_is u) w.committed.tokens ≡ some t
      → (fetch_one (token_user_is u) (run_calls env cs w).committed.tokens ≡ some t)
        × IsWellFormed (run_calls env cs w).committed
  unfolding run_calls
  run_calls-lasts [] w l h row = (row, h)
  run_calls-lasts (c ∷ cs) w (l, ls) h row =
      let written = run_call-Writes env (Other u) c w (May-Other c w l h row) in
      run_calls-lasts cs (run_call env c w) ls (Writes-IsWellFormed written h)
        (Writes-lasts u t written row)

  -- A session lasts. Whatever calls of the service follow each other, of whatever users and also
  -- logins and registrations, as long as none of them is a logout or a refresh with the token of
  -- this session: the user's token row stays as it is, with its token and its expiry, and until
  -- then the token still leads to a user. The tables satisfy their constraints at the start.
  pub session_lasts :
      (cs : List Call) (w : World) (now : Timestamp)
      → All (Leaves env i) cs
      → IsWellFormed w.committed
      → fetch_one (token_user_is u) w.committed.tokens ≡ some t
      → valid_at now t.valid_until ≡ true
      → (fetch_one (token_user_is u) (run_calls env cs w).committed.tokens ≡ some t)
        × ((user : User) × (find_holder i now (run_calls env cs w).committed ≡ some user))
  session_lasts cs w now l h row valid =
      let db = (run_calls env cs w).committed in
      let (stays, formed) = run_calls-lasts cs w l h row in
      let owner : exists (user_id_is t.user_id) db.users ≡ true =
        All_by _ (token_user_is u) db.tokens formed.token_owners stays in
      let mine : t.user_id ≡ u =
        (==_iff t.user_id u).0 (fetch_one_passes (token_user_is u) db.tokens stays) in
      elim (Option-cases (fetch_one (user_id_is t.user_id) db.users)) [
        | inl n ↦ absurd (ground (arith, n, owner))
        | inr (v, f) ↦
            let id : v.id ≡ t.user_id =
              (==_iff v.id t.user_id).0 (fetch_one_passes (user_id_is t.user_id) db.users f) in
            let live : is_live_of i now v.id t ≡ true = ground (arith, id, held, valid) in
            let shown : holds i now db.tokens v ≡ true =
              exists_by (token_user_is u) (is_live_of i now v.id) db.tokens stays live in
            let found : exists (holds i now db.tokens) db.users ≡ true =
              exists_by (user_id_is t.user_id) (holds i now db.tokens) db.users f shown in
            elim (Option-cases (fetch_one (holds i now db.tokens) db.users)) [
              | inl n ↦ absurd (ground (arith, n, found))
              | inr (x, g) ↦ (stays, (user_of db x, ap (Option.map (user_of db)) g))
            ]
      ]
