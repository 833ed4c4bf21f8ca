-- ===== src/Writes/Bounds.antt =====
-- The lengths and ranges of the columns in migrations/0001: varchar(50) for a user's name,
-- varchar(10) for a method, varchar(20) for a status, and integer. An INSERT checks the name and
-- the integers; the lengths of a method and a status are not tested, since no call can exceed them.
use smart_http_requester.Common.{
  ℕ, zero, suc, ◌≡◌, refl, subst, sym, String, true, some, arith, inl, inr, Bool-cases,
  Option-cases, some_inj, All, All-append, leb, List,
}
use smart_http_requester.Common.Int.{pos, leb_ℤ}
use smart_http_requester.Sql.Laws.{All-update}
use smart_http_requester.Schemas.{Method, method_text}
use smart_http_requester.Tables.{UserRow, TaskRow, Db, fits_int4}
use smart_http_requester.Session.{Env, World}
use smart_http_requester.Middleware.Endpoint.{size}
use smart_http_requester.Repository.Auth.{varchar, blank}
use smart_http_requester.Api.Service.{Call, run_calls}
use smart_http_requester.Writes.{
  TaskChange, cancel, confirm, edit, Write, account, task, add_user, add_token, drop_tokens,
  renew_token, add_task, change_tasks, Writes, unwritten, and_then,
}
use smart_http_requester.Writes.Calls.{run_calls-Writes}

abbrev pub FitsColumns : TaskRow → Type 0
FitsColumns r =
    (leb (size r.method) 10 ≡ true)
    × (leb (size r.status) 20 ≡ true)
    × (fits_int4 r.attempt_count ≡ true)
    × (fits_int4 r.max_attempts ≡ true)
    × (leb_ℤ r.max_attempts (pos 20) ≡ true)

pub record IsBounded (db : Db) : Type 0 where
  pub names : All (λ (u : UserRow). leb (size u.username) 50 ≡ true) db.users
  pub columns : All FitsColumns db.tasks

some_cons : (n : ℕ) (s t : String) → leb (size s) n ≡ true → leb (suc (size s)) (suc n) ≡ true
some_cons n s t h = ground (arith, h)

varchar-size : (n : ℕ) (s : String) {t : String} → varchar n s ≡ some t → leb (size t) n ≡ true
unfolding varchar
varchar-size n String.[] {t} e =
    let nothing : leb 0 n ≡ true = ground arith in
    subst (λ x. leb (size x) n ≡ true) (some_inj e) nothing
varchar-size zero (String.◌∷◌ c s) {t} e = elim (Bool-cases (blank (String.◌∷◌ c s))) [
  | inl b ↦
      let same : some "" ≡ some t = ground (arith, e, b) in
      subst (λ x. leb (size x) 0 ≡ true) (some_inj same) refl
  | inr b ↦ absurd (ground (arith, e, b))
]
varchar-size (suc n) (String.◌∷◌ c s) {t} e = elim (Option-cases (varchar n s)) [
  | inl b ↦ absurd (ground (arith, e, b))
  | inr (r, b) ↦
      let same : some (String.◌∷◌ c r) ≡ some t = ground (arith, e, b) in
      subst (λ x. leb (size x) (suc n) ≡ true) (some_inj same)
        (some_cons n r t (varchar-size n s b))
]

method-size : (m : Method) → leb (size (method_text m)) 10 ≡ true
method-size Method.get = refl
method-size Method.post = refl
method-size Method.put = refl
method-size Method.delete = refl
method-size Method.patch = refl

TaskChange-fits :
    {env : Env} {f : TaskRow → TaskRow}
    → TaskChange env f
    → (r : TaskRow) → FitsColumns r
    → FitsColumns (f r)
TaskChange-fits (cancel now) r (m, s, a, n, v) = (m, refl, a, n, v)
TaskChange-fits confirm r (m, s, a, n, v) = (m, refl, a, n, v)
TaskChange-fits (edit fields now k) r (m, s, a, n, v) =
    (subst (λ x. leb (size x) 10 ≡ true) (sym k.listed) (method-size k.method), s, a, n, v)

Write-IsBounded :
    {env : Env} {may : ℕ → Type 0} {db db' : Db}
    → Write env may db db'
    → IsBounded db
    → IsBounded db'
Write-IsBounded {db} (account (add_user u i n role r name k)) h = record {
  names = All-append _ db.users _ h.names (varchar-size 50 name k, tt);
  columns = h.columns;
}
Write-IsBounded (account (add_token u token now n e)) h = record {
  names = h.names;
  columns = h.columns;
}
Write-IsBounded (account (drop_tokens u m)) h = record { names = h.names; columns = h.columns }
Write-IsBounded (account (renew_token u token now m)) h = record {
  names = h.names;
  columns = h.columns;
}
Write-IsBounded {db} (task (add_task i now u fields n status s k v l a e)) h = record {
  names = h.names;
  columns = All-append _ db.tasks _ h.columns (
    (subst (λ x. leb (size x) 10 ≡ true) (sym s.listed) (method-size s.method), l, refl, k, v),
    tt,
  );
}
Write-IsBounded {db} (task (change_tasks p f c)) h = record {
  names = h.names;
  columns = All-update p f db.tasks (λ r k e. TaskChange-fits c r k) h.columns;
}

Writes-IsBounded :
    {env : Env} {may : ℕ → Type 0} {db db' : Db}
    → Writes env may db db'
    → IsBounded db
    → IsBounded db'
Writes-IsBounded unwritten h = h
Writes-IsBounded (and_then k c) h = Write-IsBounded c (Writes-IsBounded k h)

-- Whatever calls of the service follow each other: every stored user name has at most 50
-- characters, and every stored task has a method of at most 10 and a status of at most 20
-- characters, numbers of attempts that fit an integer column, and a max_attempts of at most 20, as
-- long as those at the start do.
pub run_calls-IsBounded :
    (env : Env) (cs : List Call) (w : World)
    → IsBounded w.committed
    → IsBounded (run_calls env cs w).committed
run_calls-IsBounded env cs w h = Writes-IsBounded (run_calls-Writes env cs w) h
