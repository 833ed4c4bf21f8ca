-- ===== src/Writes/WellFormed.antt =====
-- The constraints of migrations/0001 and 0002 on the tables users, tokens and tasks.
use smart_http_requester.Common.{
  ℕ, ◌≡◌, refl, sym, subst, String, Bool, true, false, Option, none, some, List, [], ◌∷◌, ◌++◌,
  arith, inl, inr, Bool-cases, Option-cases, eq_iff, All, All-append, str_eq, ◌∙◌,
}
use smart_http_requester.Sql.{fetch_one, exists, delete}
use smart_http_requester.Sql.Laws.{fetch_one-append_some, All-update}
use smart_http_requester.Sql.Keys.{
  AreDistinct, IsKeyed, append-AreDistinct, update-AreDistinct, delete-AreDistinct,
}
use smart_http_requester.Tables.{UserRow, TokenRow, TaskRow, Db, user_id_is}
use smart_http_requester.Session.{Env, World}
use smart_http_requester.Repository.Auth.{token_user_is, new_token}
use smart_http_requester.Repository.Identity.{refreshed}
use smart_http_requester.Tasks.Unique.{HasUniqueIds, update-HasUniqueIds, append-HasUniqueIds}
use smart_http_requester.Api.Profile.{user_key, token_key}
use smart_http_requester.Api.Service.{Call, run_calls}
use smart_http_requester.Writes.{
  TaskChange, cancel, confirm, edit, Write, account, task, add_user, add_token, drop_tokens,
  renew_token, add_task, change_tasks, Writes, unwritten, and_then,
}
use smart_http_requester.Writes.Calls.{run_calls-Writes}

abbrev pub same_name : UserRow → UserRow → Bool
same_name u v = str_eq u.username v.username

-- A reference to a user that is there, or none.
abbrev pub RefersTo : List UserRow → Option ℕ → Type 0
RefersTo users none = Unit
RefersTo users (some i) = exists (user_id_is i) users ≡ true

-- The primary keys, the unique user names, and the references of tokens and tasks to users.
pub record IsWellFormed (db : Db) : Type 0 where
  pub user_ids : IsKeyed user_key db.users
  pub user_names : AreDistinct same_name db.users
  pub token_users : IsKeyed token_key db.tokens
  pub task_ids : HasUniqueIds db.tasks
  pub token_owners : All (λ (t : TokenRow). RefersTo db.users (some t.user_id)) db.tokens
  pub task_owners : All (λ (r : TaskRow). RefersTo db.users r.user_id) db.tasks

absent : {A : Type 0} (p : A → Bool) (rs : List A) → exists p rs ≡ false → fetch_one p rs ≡ none
absent p rs e = elim (Option-cases (fetch_one p rs)) [
  | inl n ↦ n
  | inr (r, f) ↦ absurd (ground (arith, e, f))
]

str_eq_comm : (a b : String) → str_eq a b ≡ str_eq b a
str_eq_comm a b = elim (Bool-cases (str_eq a b)) [
  | inl e ↦ rw ((eq_iff a b).0 e) refl
  | inr e ↦ elim (Bool-cases (str_eq b a)) [
    | inl f ↦ subst (λ c. str_eq c b ≡ str_eq b c) ((eq_iff b a).0 f) refl
    | inr f ↦ e ∙ sym f
  ]
]

module _ (users : List UserRow) (u : UserRow) where
  RefersTo-append : (o : Option ℕ) → RefersTo users o → RefersTo (users ++ u ∷ []) o
  RefersTo-append none h = tt
  RefersTo-append (some i) h = elim (Option-cases (fetch_one (user_id_is i) users)) [
    | inl n ↦ absurd (ground (arith, h, n))
    | inr (v, f) ↦
        let found = fetch_one-append_some (user_id_is i) users (u ∷ []) f in ground (arith, found)
  ]

  All-RefersTo :
      {A : Type 0} (owner : A → Option ℕ) (rs : List A)
      → All (λ r. RefersTo users (owner r)) rs
      → All (λ r. RefersTo (users ++ u ∷ []) (owner r)) rs
  All-RefersTo owner [] h = tt
  All-RefersTo owner (r ∷ rs) (h, hs) = (RefersTo-append (owner r) h, All-RefersTo owner rs hs)

All-delete :
    {A : Type 0} (P : A → Type 0) (p : A → Bool) (rs : List A) → All P rs → All P (delete p rs)
All-delete P p [] h = tt
All-delete P p (r ∷ rs) (h, hs) = elim (Bool-cases (p r)) [
  | inl e ↦ rw e (All-delete P p rs hs)
  | inr e ↦ rw e (h, All-delete P p rs hs)
]

-- No change of a task changes its id or its owner.
TaskChange-kept :
    {env : Env} {f : TaskRow → TaskRow}
    → TaskChange env f
    → (r : TaskRow) → ((f r).id ≡ r.id) × ((f r).user_id ≡ r.user_id)
TaskChange-kept (cancel now) r = (refl, refl)
TaskChange-kept confirm r = (refl, refl)
TaskChange-kept (edit fields now s) r = (refl, refl)

pub Write-IsWellFormed :
    {env : Env} {may : ℕ → Type 0} {db db' : Db}
    → Write env may db db'
    → IsWellFormed db
    → IsWellFormed db'
Write-IsWellFormed {db} (account (add_user u i n role r name k)) h = record {
  user_ids = append-AreDistinct _ db.users u (λ v. ground arith) (absent _ db.users i) h.user_ids;
  user_names =
      append-AreDistinct same_name db.users u (λ v. str_eq_comm u.username v.username)
        (absent _ db.users n) h.user_names;
  token_owners =
      All-RefersTo db.users u (λ (t : TokenRow). some t.user_id) db.tokens h.token_owners;
  task_owners = All-RefersTo db.users u (λ (r : TaskRow). r.user_id) db.tasks h.task_owners;
  token_users = h.token_users;
  task_ids = h.task_ids;
}
Write-IsWellFormed {db} (account (add_token u token now n e)) h = record {
  token_users =
      append-AreDistinct _ db.tokens (new_token u token now) (λ v. ground arith)
        (absent _ db.tokens n) h.token_users;
  token_owners = All-append _ db.tokens _ h.token_owners (e, tt);
  user_ids = h.user_ids;
  user_names = h.user_names;
  task_ids = h.task_ids;
  task_owners = h.task_owners;
}
Write-IsWellFormed {db} (account (drop_tokens u m)) h = record {
  token_users = delete-AreDistinct _ (token_user_is u) db.tokens h.token_users;
  token_owners = All-delete _ (token_user_is u) db.tokens h.token_owners;
  user_ids = h.user_ids;
  user_names = h.user_names;
  task_ids = h.task_ids;
  task_owners = h.task_owners;
}
Write-IsWellFormed {db} (account (renew_token u token now m)) h = record {
  token_users =
      update-AreDistinct _ (refreshed token now) (λ s r. refl) (λ s r. refl) (token_user_is u)
        db.tokens h.token_users;
  token_owners = All-update _ _ db.tokens (λ t k e. k) h.token_owners;
  user_ids = h.user_ids;
  user_names = h.user_names;
  task_ids = h.task_ids;
  task_owners = h.task_owners;
}
Write-IsWellFormed {db} (task (add_task i now u fields n status s k v l a e)) h = record {
  task_ids = append-HasUniqueIds db.tasks _ (absent _ db.tasks a) h.task_ids;
  task_owners = All-append _ db.tasks _ h.task_owners (e, tt);
  user_ids = h.user_ids;
  user_names = h.user_names;
  token_users = h.token_users;
  token_owners = h.token_owners;
}
Write-IsWellFormed {db} (task (change_tasks p f c)) h = record {
  task_ids = update-HasUniqueIds p f db.tasks (λ r. (TaskChange-kept c r).0) h.task_ids;
  task_owners =
      All-update p f db.tasks (λ r k e. subst (RefersTo db.users) (sym (TaskChange-kept c r).1) k)
        h.task_owners;
  user_ids = h.user_ids;
  user_names = h.user_names;
  token_users = h.token_users;
  token_owners = h.token_owners;
}

pub Writes-IsWellFormed :
    {env : Env} {may : ℕ → Type 0} {db db' : Db}
    → Writes env may db db'
    → IsWellFormed db
    → IsWellFormed db'
Writes-IsWellFormed unwritten h = h
Writes-IsWellFormed (and_then k c) h = Write-IsWellFormed c (Writes-IsWellFormed k h)

-- Whatever calls of the service follow each other, with whatever tokens and whether they return or
-- raise: the stored rows keep the constraints of the tables. No user id, user name or task id
-- stands twice, no user has two tokens, and every token and every task is of a user that is there.
pub run_calls-IsWellFormed :
    (env : Env) (cs : List Call) (w : World)
    → IsWellFormed w.committed
    → IsWellFormed (run_calls env cs w).committed
run_calls-IsWellFormed env cs w h = Writes-IsWellFormed (run_calls-Writes env cs w) h
