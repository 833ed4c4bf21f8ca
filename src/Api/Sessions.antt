-- ===== src/Api/Sessions.antt =====
-- domain/tasks.py and repository/task.py: DELETE and PUT requests for one task whose transactions
-- overlap, statement by statement, with the end of the POST that creates it and with the workers
-- outside this repository.
--
-- Each statement of PostgreSQL at READ COMMITTED sees what is committed when it runs; an UPDATE
-- waits for the row's lock, sets its columns in the row that is committed then, and keeps the lock
-- to the end of its transaction. The task is stored, and no statement of the program deletes it.
pub mod History
pub mod Stale
pub mod Replies
pub mod Alone
use smart_http_requester.Common.{
  ℕ, ◌+◌, ◌≡◌, String, Bool, true, false, not, Option, none, some, if◌then◌else◌, ◌==◌, str_eq,
}
use smart_http_requester.Common.Int.{ℤ}
use smart_http_requester.Schemas.{Timestamp, TaskResponse}
use smart_http_requester.Tables.{TaskRow, equals}
use smart_http_requester.Session.{
  Exc, Outcome, ok, err, access_denied, invalid_task_status, TaskFields, Env,
}
use smart_http_requester.Repository.Rows.{task_response}
use smart_http_requester.Repository.Task.{canceled, confirmed, with_fields}
use smart_http_requester.Domain.Tasks.{not_cancelable, not_updatable}

pub data Work : Type 0 where
  cancel : Work
  edit : TaskFields → Work

-- A request's user, as `authorization` gives it, and what it asks for.
pub record Client : Type 0 where
  pub user : ℕ
  pub work : Work

-- Whether the repository sends its UPDATE, by the row of the first SELECT.
abbrev pub writes : Work → TaskRow → Bool
writes cancel r = str_eq r.status "pending"
writes (edit fields) r = true

-- What its UPDATE makes of a row.
abbrev pub version : Work → Timestamp → TaskRow → TaskRow
version cancel = canceled
version (edit fields) = with_fields fields

abbrev pub refusal : Work → String → Exc
refusal cancel status = invalid_task_status (not_cancelable status)
refusal (edit fields) status = invalid_task_status (not_updatable status)

-- Whether the driver takes the values of its UPDATE.
abbrev pub bound : Env → Work → Bool
bound env cancel = true
bound env (edit fields) = env.binds fields

-- The checks of the domain, on the owner and the status that the first SELECT gave.
abbrev pub check : Client → TaskRow → Outcome (Unit {0})
check c r =
    if not (equals r.user_id c.user)
    then err access_denied
    else if not (str_eq r.status "pending")
    then err (refusal c.work r.status)
    else ok tt

-- Where a request stands: before its first SELECT, after it with the row, after the UPDATE with its
-- own version of the row, after the checks, and at its end, with the row that the response shows.
pub data Place : Type 0 where
  start : Place
  seen : TaskRow → Place
  wrote passed : TaskRow → TaskRow → Place
  done : Outcome TaskRow → Place

-- The row as it is committed, the request that holds its lock, where each request stands, and the
-- counter of canceled tasks.
pub record System : Type 0 where
  pub stored : TaskRow
  pub lock : Option ℕ
  pub place : ℕ → Place
  pub canceled_total : ℕ

abbrev pub move : ℕ → Place → System → System
move k p s = record s { place = λ j. if j == k then p else s.place j }

abbrev pub release : System → System
release s = record s { lock = none }

abbrev pub more_canceled : Work → ℕ → ℕ
more_canceled cancel n = n + 1
more_canceled (edit fields) n = n

-- What a worker may set.
abbrev pub worked : String → ℤ → Option String → Option Timestamp → TaskRow → TaskRow
worked status attempts result updated r = record r {
  status = status;
  attempt_count = attempts;
  result = result;
  updated_at = updated;
}

-- `confirm_rmq_task`, whose UPDATE passes over a row in another status.
abbrev pub confirm_if_before_rmq : TaskRow → TaskRow
confirm_if_before_rmq r = if str_eq r.status "BEFORE RMQ" then confirmed r else r

-- One statement, check or end of a transaction of one request, the transaction in which the POST
-- of the task confirms it, which is a single UPDATE, or a worker's transaction. A check comes after
-- the SELECT that reads the row back and its validation. An exception may come at any place before
-- the end, and rolls back: that of a driver that does not take the values, that of a row that does
-- not read back, or another.
pub data Step (env : Env) (clients : ℕ → Client) (s : System) : System → Type 0 where
  read : (k : ℕ) → s.place k ≡ start → Step env clients s (move k (seen s.stored) s)
  write :
      (k : ℕ) (r : TaskRow) (now : Timestamp)
      → s.place k ≡ seen r
      → writes (clients k).work r ≡ true
      → bound env (clients k).work ≡ true
      → s.lock ≡ none
      → Step env clients s
          (record (move k (wrote r (version (clients k).work now s.stored)) s) { lock = some k })
  skip :
      (k : ℕ) (r : TaskRow) (t : TaskResponse) (e : Exc)
      → s.place k ≡ seen r
      → writes (clients k).work r ≡ false
      → task_response env s.stored ≡ some t
      → check (clients k) r ≡ err e
      → Step env clients s (move k (done (err e)) s)
  pass :
      (k : ℕ) (r new : TaskRow) (t : TaskResponse)
      → s.place k ≡ wrote r new
      → task_response env new ≡ some t
      → check (clients k) r ≡ ok tt
      → Step env clients s (record (move k (passed r new) s) {
        canceled_total = more_canceled (clients k).work s.canceled_total;
      })
  refuse :
      (k : ℕ) (r new : TaskRow) (t : TaskResponse) (e : Exc)
      → s.place k ≡ wrote r new
      → task_response env new ≡ some t
      → check (clients k) r ≡ err e
      → Step env clients s (release (move k (done (err e)) s))
  commit :
      (k : ℕ) (r new : TaskRow)
      → s.place k ≡ passed r new
      → Step env clients s (record (release (move k (done (ok new)) s)) { stored = new })
  fail_before :
      (k : ℕ) (r : TaskRow) (e : Exc)
      → s.place k ≡ seen r
      → Step env clients s (move k (done (err e)) s)
  fail_after :
      (k : ℕ) (r new : TaskRow) (e : Exc)
      → s.place k ≡ wrote r new
      → Step env clients s (release (move k (done (err e)) s))
  fail_commit :
      (k : ℕ) (r new : TaskRow) (e : Exc)
      → s.place k ≡ passed r new
      → Step env clients s (release (move k (done (err e)) s))
  confirm_created :
      s.lock ≡ none → Step env clients s (record s { stored = confirm_if_before_rmq s.stored })
  work :
      (status : String) (attempts : ℤ) (result : Option String) (updated : Option Timestamp)
      → s.lock ≡ none
      → Step env clients s (record s { stored = worked status attempts result updated s.stored })

abbrev pub begins : TaskRow → ℕ → System
begins r n = record { stored = r; lock = none; place = λ k. start; canceled_total = n }

pub data Reachable (env : Env) (clients : ℕ → Client) (s : System) : System → Type 0 where
  here : Reachable env clients s s
  onward :
      {t u : System} → Reachable env clients s t → Step env clients t u → Reachable env clients s u
