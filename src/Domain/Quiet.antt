-- ===== src/Domain/Quiet.antt =====
-- The operations of domain/tasks.py that wait for `get_db` to commit: reading, cancelling,
-- updating.
use smart_http_requester.Common.{ℕ, refl, List, [], ◌∷◌, arith, String, Bool, Option, none, some}
use smart_http_requester.Common.Int.{ℤ}
use smart_http_requester.Schemas.{Uuid, TaskUpdate, User}
use smart_http_requester.Tables.{TaskRow}
use smart_http_requester.Session.{TaskFields}
use smart_http_requester.Session.Quiet.{
  IsQuiet, quiet_rules, bind-IsQuiet, pure-IsQuiet, raise-IsQuiet,
}
use smart_http_requester.Repository.Rows.{model_validate, model_validate_all, task_rows}
use smart_http_requester.Repository.Listing.{page, scanned_rows, get_user_tasks}
use smart_http_requester.Repository.Task.{
  get_task_by_id, cancel_task, update_task, update_tasks, read_back, binding, publish_status,
}
use smart_http_requester.Repository.Identity.{get_user_by_token}
use smart_http_requester.Middleware.Auth.{authorization, check_user}
use smart_http_requester.Domain.Tasks.{
  get_request_task, cancel_request_task, update_request_task, get_user_request_tasks,
  count_canceled,
}

task_rows-IsQuiet : {A : Type 0} (f : List TaskRow → A) → IsQuiet (task_rows f)
task_rows-IsQuiet f = record {
  at = λ env w. record { committed = refl; notified = refl; sent = refl };
}

scanned_rows-IsQuiet : {A : Type 0} (f : List TaskRow → A) → IsQuiet (scanned_rows f)
scanned_rows-IsQuiet f = record {
  at = λ env w. record { committed = refl; notified = refl; sent = refl };
}

model_validate-IsQuiet : (r : TaskRow) → IsQuiet (model_validate r)
unfolding model_validate
model_validate-IsQuiet r = record { at = λ env w. ground arith }

model_validate_all-IsQuiet : (rs : List TaskRow) → IsQuiet (model_validate_all rs)
unfolding model_validate_all
model_validate_all-IsQuiet [] = search quiet_rules
model_validate_all-IsQuiet (r ∷ rs) =
    bind-IsQuiet (model_validate-IsQuiet r)
      λ t. bind-IsQuiet (model_validate_all-IsQuiet rs) (λ ts. pure-IsQuiet (t ∷ ts))

ruleset row_rules = (quiet_rules, task_rows-IsQuiet, model_validate-IsQuiet)

get_task_by_id-IsQuiet : (i : Uuid) → IsQuiet (get_task_by_id i)
unfolding get_task_by_id
get_task_by_id-IsQuiet i = search row_rules

update_tasks-IsQuiet : (p : TaskRow → Bool) (f : ℕ → TaskRow → TaskRow) → IsQuiet (update_tasks p f)
unfolding update_tasks
update_tasks-IsQuiet p f = record { at = λ env w. ground arith }

read_back-IsQuiet : (i : Uuid) → IsQuiet (read_back i)
unfolding read_back
read_back-IsQuiet i = search row_rules

cancel_task-IsQuiet : (i : Uuid) → IsQuiet (cancel_task i)
unfolding cancel_task
cancel_task-IsQuiet i = search (row_rules, update_tasks-IsQuiet, read_back-IsQuiet) depth 9

binding-IsQuiet : (fields : TaskFields) → IsQuiet (binding fields)
binding-IsQuiet fields = record { at = λ env w. ground arith }

publish_status-IsQuiet : (i : Uuid) (s : String) → IsQuiet (publish_status i s)
publish_status-IsQuiet i s = record { at = λ env w. ground arith }

update_task-IsQuiet : (i : Uuid) (fields : TaskFields) → IsQuiet (update_task i fields)
unfolding update_task
update_task-IsQuiet i fields =
    search
      (row_rules, binding-IsQuiet, publish_status-IsQuiet, update_tasks-IsQuiet, read_back-IsQuiet)
      depth 12

pub get_request_task-IsQuiet : (i : Uuid) (u : ℕ) → IsQuiet (get_request_task i u)
unfolding get_request_task
get_request_task-IsQuiet i u = search (quiet_rules, get_task_by_id-IsQuiet)

pub get_user_request_tasks-IsQuiet :
    (u skip limit : ℕ) → IsQuiet (get_user_request_tasks u skip limit)
unfolding get_user_request_tasks get_user_tasks
get_user_request_tasks-IsQuiet u skip limit =
    bind-IsQuiet (scanned_rows-IsQuiet (page u skip limit)) (λ rs. model_validate_all-IsQuiet rs)

count_canceled-IsQuiet : IsQuiet count_canceled
count_canceled-IsQuiet = record { at = λ env w. ground arith }

pub cancel_request_task-IsQuiet : (i : Uuid) (u : ℕ) → IsQuiet (cancel_request_task i u)
unfolding cancel_request_task
cancel_request_task-IsQuiet i u =
    search (quiet_rules, cancel_task-IsQuiet, count_canceled-IsQuiet) depth 9

pub update_request_task-IsQuiet :
    (i : Uuid) (u : ℕ) (t : TaskUpdate) → IsQuiet (update_request_task i u t)
unfolding update_request_task
update_request_task-IsQuiet i u t = search (quiet_rules, update_task-IsQuiet) depth 9

get_user_by_token-IsQuiet : (token : String) → IsQuiet (get_user_by_token token)
unfolding get_user_by_token
get_user_by_token-IsQuiet token = record { at = λ env w. ground arith }

check_user-IsQuiet : (p : ℤ) (u : Option User) → IsQuiet (check_user p u)
check_user-IsQuiet p none = raise-IsQuiet _
check_user-IsQuiet p (some u) = record { at = λ env w. ground arith }

pub authorization-IsQuiet : (p : ℤ) (token : String) → IsQuiet (authorization p token)
unfolding authorization
authorization-IsQuiet p token = record {
  at = λ env w.
      ground
        (arith, (bind-IsQuiet (get_user_by_token-IsQuiet token) (check_user-IsQuiet p)).at env w);
}
