-- ===== src/Writes/Reads.antt =====
-- What repository/task.py and domain/tasks.py do without a change of the database: reading,
-- validating, counting and publishing.
use smart_http_requester.Common.{ℕ, refl, String, List, [], ◌∷◌, arith}
use smart_http_requester.Schemas.{Uuid, TaskCreate, TaskResponse}
use smart_http_requester.Tables.{TaskRow, Db}
use smart_http_requester.Session.{Env}
use smart_http_requester.Session.Keeps.{Keeps, untouched, keeps_rules, bind-Keeps, pure-Keeps}
use smart_http_requester.Broker.Publish.{publish_task}
use smart_http_requester.Repository.Rows.{model_validate, model_validate_all, task_rows}
use smart_http_requester.Repository.Listing.{page, scanned_rows, get_user_tasks}
use smart_http_requester.Repository.Creation.{bind_check}
use smart_http_requester.Repository.Task.{get_task_by_id, read_back, publish_status}
use smart_http_requester.Domain.Tasks.{
  publish_response, count_created, publish_responses, get_request_task, get_user_request_tasks,
  count_canceled,
}

module _ (env : Env) (P : Db → Type 0) where
  pub model_validate-Keeps : (r : TaskRow) → Keeps env P (model_validate r)
  unfolding model_validate
  model_validate-Keeps r = untouched λ w. (ground arith, ground arith)

  pub model_validate_all-Keeps : (rs : List TaskRow) → Keeps env P (model_validate_all rs)
  unfolding model_validate_all
  model_validate_all-Keeps [] = pure-Keeps _
  model_validate_all-Keeps (r ∷ rs) =
      bind-Keeps (model_validate-Keeps r)
        λ t. bind-Keeps (model_validate_all-Keeps rs) (λ ts. pure-Keeps _)

  pub bind_check-Keeps : (ds : List TaskCreate) → Keeps env P (bind_check ds)
  bind_check-Keeps ds = untouched λ w. (refl, refl)

  pub task_rows-Keeps : {A : Type 0} (f : List TaskRow → A) → Keeps env P (task_rows f)
  task_rows-Keeps f = untouched λ w. (refl, refl)

  scanned_rows-Keeps : {A : Type 0} (f : List TaskRow → A) → Keeps env P (scanned_rows f)
  scanned_rows-Keeps f = untouched λ w. (refl, refl)

  pub publish_status-Keeps : (i : Uuid) (s : String) → Keeps env P (publish_status i s)
  publish_status-Keeps i s = untouched λ w. (ground arith, ground arith)

  pub count_created-Keeps : (n : ℕ) → Keeps env P (count_created n)
  count_created-Keeps n = untouched λ w. (refl, refl)

  pub count_canceled-Keeps : Keeps env P count_canceled
  count_canceled-Keeps = untouched λ w. (refl, refl)

  pub publish_response-Keeps : (t : TaskResponse) → Keeps env P (publish_response t)
  unfolding publish_response publish_task
  publish_response-Keeps t = untouched λ w. (ground arith, ground arith)

  pub read_back-Keeps : (i : Uuid) → Keeps env P (read_back i)
  unfolding read_back
  read_back-Keeps i = search (keeps_rules, model_validate-Keeps, task_rows-Keeps)

  pub get_task_by_id-Keeps : (i : Uuid) → Keeps env P (get_task_by_id i)
  unfolding get_task_by_id
  get_task_by_id-Keeps i = search (keeps_rules, model_validate-Keeps, task_rows-Keeps)

  pub publish_responses-Keeps : (ts : List TaskResponse) → Keeps env P (publish_responses ts)
  unfolding publish_responses
  publish_responses-Keeps [] = pure-Keeps tt
  publish_responses-Keeps (t ∷ ts) =
      bind-Keeps (publish_response-Keeps t) (λ _. publish_responses-Keeps ts)

  pub get_request_task-Keeps : (i : Uuid) (u : ℕ) → Keeps env P (get_request_task i u)
  unfolding get_request_task
  get_request_task-Keeps i u = search (keeps_rules, get_task_by_id-Keeps)

  pub get_user_request_tasks-Keeps :
      (u skip limit : ℕ) → Keeps env P (get_user_request_tasks u skip limit)
  unfolding get_user_request_tasks get_user_tasks
  get_user_request_tasks-Keeps u skip limit =
      bind-Keeps (scanned_rows-Keeps (page u skip limit)) (λ rs. model_validate_all-Keeps rs)
