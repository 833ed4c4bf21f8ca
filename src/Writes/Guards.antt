-- ===== src/Writes/Guards.antt =====
-- What stands before and round the handlers of api/v1/ keeps every predicate of the database:
-- `authorization`, the validation of the bodies, and the handlers of exceptions.
use smart_http_requester.Common.{
  ◌≡◌, refl, String, Option, none, some, List, [], ◌∷◌, arith, inl, inr, Option-cases, Bool-cases,
  All, subst, some_inj, true, ◌∙◌,
}
use smart_http_requester.Common.Int.{ℤ, pos, leb_ℤ}
use smart_http_requester.Schemas.{
  max_attempts_field, default_method, TaskBody, TaskCreate, TaskUpdate, User, task_create,
  task_update,
}
use smart_http_requester.Tables.{Db}
use smart_http_requester.Session.{Exc, Outcome-cases, ok, Env, World, Action, ◌>>=◌}
use smart_http_requester.Session.Keeps.{
  Keeps, untouched, bind-Keeps, raise-Keeps, pure-Keeps, session_block-Keeps,
}
use smart_http_requester.Repository.Identity.{get_user_by_token, select_holder}
use smart_http_requester.Middleware.Auth.{authorization, check_user, is_str_uuid}
use smart_http_requester.Api.Requests.{
  valid_create, valid_update, valid_page, valid_creates, or_unprocessable, server_error,
  on_task_error, on_batch_error,
}
use smart_http_requester.Writes.OfTasks.{IsNormal, IsValidated}

max_attempts_field-bounded :
    (o : Option ℤ) {n : ℤ} → max_attempts_field o ≡ some n → leb_ℤ n (pos 20) ≡ true
max_attempts_field-bounded none {n} e = subst (λ k. leb_ℤ k (pos 20) ≡ true) (some_inj e) refl
max_attempts_field-bounded (some m) {n} e = elim (Bool-cases (leb_ℤ m (pos 20))) [
  | inl k ↦
      let same : some m ≡ some n = ground (arith, e, k) in
      subst (λ k. leb_ℤ k (pos 20) ≡ true) (some_inj same) k
  | inr k ↦ absurd (ground (arith, e, k))
]

task_create-max_attempts :
    (env : Env) (b : TaskBody) {d : TaskCreate}
    → task_create env.http_url b ≡ some d
    → max_attempts_field b.max_attempts ≡ some d.max_attempts
unfolding task_create
task_create-max_attempts env b {d} e = elim (Option-cases (env.http_url b.url)) [
  | inl n ↦ absurd (ground (arith, e, n))
  | inr (u, p) ↦ elim (Option-cases (default_method b.method)) [
    | inl n ↦ absurd (ground (arith, e, p, n))
    | inr (m, q) ↦ elim (Option-cases (max_attempts_field b.max_attempts)) [
      | inl n ↦ absurd (ground (arith, e, p, q, n))
      | inr (k, r) ↦ r ∙ ground (arith, e, p, q, r)
    ]
  ]
]

-- A body that validates has a url in the normal form, and a max_attempts of at most 20.
pub task_create-IsValidated :
    (env : Env) (b : TaskBody) {d : TaskCreate}
    → task_create env.http_url b ≡ some d
    → IsValidated env d
unfolding task_create
task_create-IsValidated env b e = (
  (b.url, ground (arith, e)),
  max_attempts_field-bounded b.max_attempts (task_create-max_attempts env b e),
)

pub task_update-IsNormal :
    (env : Env) (b : TaskBody) {d : TaskUpdate}
    → task_update env.http_url b ≡ some d
    → IsNormal env d.url
unfolding task_update
task_update-IsNormal env b e = (b.url, ground (arith, e))

outcome_inj : {A : Type 0} {a b : A} → ok a ≡ ok b → a ≡ b
outcome_inj e = ground (arith, e)

pub returned :
    {A : Type 0} (o : Option A) (env : Env) (w : World) {a : A}
    → (or_unprocessable o env w).0 ≡ ok a
    → o ≡ some a
returned none env w e = absurd (ground (arith, e))
returned (some b) env w e = ground (arith, e)

pub valid_creates-IsValidated :
    (env : Env) (bs : List TaskBody) (w : World) {es : List TaskCreate}
    → (valid_creates bs env w).0 ≡ ok es
    → All (IsValidated env) es
valid_creates-IsValidated env [] w e = subst (λ l. All (IsValidated env) l) (outcome_inj e) tt
valid_creates-IsValidated env (b ∷ bs) w {es} e = elim (Option-cases (task_create env.http_url b)) [
  | inl n ↦ absurd (ground (arith, n, e))
  | inr (d, n) ↦ elim (Outcome-cases (valid_creates bs env w).0) [
    | inr (x, p) ↦ absurd (ground (arith, n, e, p))
    | inl (ds, p) ↦
        let same : d ∷ ds ≡ es = ground (arith, n, e, p) in
        subst (λ l. All (IsValidated env) l) same
          (task_create-IsValidated env b n, valid_creates-IsValidated env bs w p)
  ]
]

module _ (env : Env) (P : Db → Type 0) where
  check_user-Keeps : (p : ℤ) (o : Option User) → Keeps env P (check_user p o)
  check_user-Keeps p none = raise-Keeps _
  check_user-Keeps p (some u) = untouched λ w. (ground arith, ground arith)

  select_holder-Keeps :
      (token : String) → Keeps env P (λ env w. select_holder (env.bind_uuid token) env w)
  select_holder-Keeps token = untouched λ w. (ground arith, ground arith)

  holder-Keeps : (token : String) → Keeps env P (get_user_by_token token)
  unfolding get_user_by_token
  holder-Keeps token = session_block-Keeps (select_holder-Keeps token)

  pub authorization-Keeps : (p : ℤ) (token : String) → Keeps env P (authorization p token)
  unfolding authorization
  authorization-Keeps p token = record {
    at = λ w h. elim (Bool-cases (is_str_uuid env token)) [
      | inl e ↦ rw e ((bind-Keeps (holder-Keeps token) (check_user-Keeps p)).at w h)
      | inr e ↦ rw e h
    ];
  }

  pub endpoint-Keeps :
      {A : Type 0} (token : String) {h : User → Action A}
      → ((user : User) → Keeps env P (h user))
      → Keeps env P (do user ← authorization (pos 0) token; h user)
  endpoint-Keeps token k = bind-Keeps (authorization-Keeps (pos 0) token) k

  pub or_unprocessable-Keeps : {A : Type 0} (o : Option A) → Keeps env P (or_unprocessable o)
  or_unprocessable-Keeps none = raise-Keeps _
  or_unprocessable-Keeps (some a) = pure-Keeps a

  pub server_error-Keeps : {A : Type 0} (e : Exc) → Keeps env P (server_error {A = A} e)
  server_error-Keeps e = untouched λ w. (refl, refl)

  pub on_batch_error-Keeps : {A : Type 0} (e : Exc) → Keeps env P (on_batch_error {A = A} e)
  on_batch_error-Keeps e = untouched λ w. (ground arith, ground arith)

  pub on_task_error-Keeps : {A : Type 0} (e : Exc) → Keeps env P (on_task_error {A = A} e)
  on_task_error-Keeps e = raise-Keeps _

  pub valid_create-Keeps : (b : TaskBody) → Keeps env P (valid_create b)
  valid_create-Keeps b = record { at = (or_unprocessable-Keeps (task_create env.http_url b)).at }

  pub valid_update-Keeps : (b : TaskBody) → Keeps env P (valid_update b)
  valid_update-Keeps b = record { at = (or_unprocessable-Keeps (task_update env.http_url b)).at }

  pub valid_creates-Keeps : (bs : List TaskBody) → Keeps env P (valid_creates bs)
  valid_creates-Keeps [] = pure-Keeps _
  valid_creates-Keeps (b ∷ bs) =
      bind-Keeps (valid_create-Keeps b)
        λ d. bind-Keeps (valid_creates-Keeps bs) (λ ds. pure-Keeps _)

  pub valid_page-Keeps : (skip limit : ℤ) → Keeps env P (valid_page skip limit)
  valid_page-Keeps skip limit = untouched λ w. (refl, refl)
