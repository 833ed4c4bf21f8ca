-- ===== src/Middleware/Refusal.antt =====
-- middleware/auth.py: a token that no row holds alive is refused.
use smart_http_requester.Common.{
  ℕ, ◌≡◌, refl, String, Bool, false, none, some, List, [], ◌∷◌, arith, ◌&&◌, not,
}
use smart_http_requester.Common.Int.{ℤ}
use smart_http_requester.Sql.{fetch_one, exists, delete}
use smart_http_requester.Schemas.{Uuid, Timestamp}
use smart_http_requester.Tables.{UserRow, TokenRow, Db, equals}
use smart_http_requester.Session.{err, Env, World}
use smart_http_requester.Repository.Auth.{token_user_is}
use smart_http_requester.Repository.Identity.{
  get_user_by_token, find_holder, holds, is_live_of, is_live,
}
use smart_http_requester.Middleware.Auth.{authorization, unauthorized}

exists_none :
    (i : Uuid) (now : Timestamp) (u : ℕ) (ts : List TokenRow)
    → fetch_one (is_live i now) ts ≡ none
    → exists (is_live_of i now u) ts ≡ false
exists_none i now u [] e = refl
exists_none i now u (t ∷ ts) e = ground (arith, exists_none i now u ts)

holds-none :
    (i : Uuid) (now : Timestamp) (ts : List TokenRow) (us : List UserRow)
    → fetch_one (is_live i now) ts ≡ none
    → fetch_one (holds i now ts) us ≡ none
holds-none i now ts [] e = refl
holds-none i now ts (u ∷ us) e =
    ground (arith, exists_none i now u.id ts e, holds-none i now ts us e)

pub find_holder-none :
    (i : Uuid) (now : Timestamp) (db : Db)
    → fetch_one (is_live i now) db.tokens ≡ none
    → find_holder i now db ≡ none
find_holder-none i now db e = rw (holds-none i now db.tokens db.users e)

-- A UUID that no token row holds alive is refused with 401.
pub refuses_dead :
    (env : Env) (w : World) (privileges : ℤ) (token : String) (i : Uuid)
    → env.bind_uuid token ≡ some i
    → fetch_one (is_live i (env.now w.transaction)) w.working.tokens ≡ none
    → (authorization privileges token env w).0 ≡ err unauthorized
unfolding authorization get_user_by_token
refuses_dead env w privileges token i b e =
    ground (arith, find_holder-none i (env.now w.transaction) w.working e)

-- A row that another user than `u` holds with this token.
abbrev pub strange : Uuid → ℕ → TokenRow → Bool
strange i u t = equals t.access_token i && not (token_user_is u t)

-- Without the user's rows, a token that no other user has is dead.
pub delete_dead :
    (i : Uuid) (u : ℕ) (now : Timestamp) (ts : List TokenRow)
    → fetch_one (strange i u) ts ≡ none
    → fetch_one (is_live i now) (delete (token_user_is u) ts) ≡ none
delete_dead i u now [] e = refl
delete_dead i u now (t ∷ ts) e = ground (arith, delete_dead i u now ts)
