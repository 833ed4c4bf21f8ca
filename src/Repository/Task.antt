-- ===== src/Repository/Task.antt =====
-- repository/task.py: `get_task_by_id`, `cancel_task`, `update_task` and `confirm_rmq_task`.
-- Each query acts on the session's view of the table `tasks`.
use smart_http_requester.Common.{
  ℕ, String, Bool, Option, none, some, List, [], ◌∷◌, ◌++◌, if◌then◌else◌, str_eq, not, ◌&&◌,
}
use smart_http_requester.Sql.{fetch_one, update}
use smart_http_requester.Schemas.{Uuid, Timestamp, TaskResponse}
use smart_http_requester.Tables.{TaskRow, Operation, Notification, task_id_is}
use smart_http_requester.Session.{
  db_error, validation_error, ok, err, TaskFields, World, Action, pure, raise, none_or, ◌>>=◌, ◌>>◌,
  commit,
}
use smart_http_requester.Repository.Rows.{model_validate, with_tasks, task_rows}

-- `None` where there is no such task; else the task and its owner.
unfoldable pub get_task_by_id : Uuid → Action (Option (TaskResponse × Option ℕ))
get_task_by_id task_id = do
  found ← task_rows (fetch_one (task_id_is task_id))
  none_or found (pure none)
      λ raw_task. do task ← model_validate raw_task; pure (some (task, raw_task.user_id))

-- What the trigger sends for the rows of an UPDATE: those whose status changes.
abbrev pub status_changes :
    (TaskRow → Bool) → (TaskRow → TaskRow) → List TaskRow → List Notification
status_changes p f [] = []
status_changes p f (r ∷ rs) =
    if p r && not (str_eq (f r).status r.status)
    then record { task_id = (f r).id; status = (f r).status; operation = Operation.update }
      ∷ status_changes p f rs
    else status_changes p f rs

abbrev pub updating : (TaskRow → Bool) → (TaskRow → TaskRow) → World → World
updating p f w = record (with_tasks w (update p f w.working.tasks)) {
  pending = w.pending ++ status_changes p f w.working.tasks;
}

-- `UPDATE tasks SET ... WHERE ...`, where what is set may depend on NOW().
unfoldable pub update_tasks : (TaskRow → Bool) → (Timestamp → TaskRow → TaskRow) → Action (Unit {0})
update_tasks p f env w = (ok tt, updating p (f (env.now w.transaction)) w)

-- The SELECT at the end of `cancel_task` and `update_task`; `model_validate(None)` raises.
unfoldable pub read_back : Uuid → Action TaskResponse
read_back task_id = do
  found ← task_rows (fetch_one (task_id_is task_id))
  none_or found (raise validation_error) model_validate

-- `SET status = 'canceled', updated_at = NOW()`
abbrev pub canceled : Timestamp → TaskRow → TaskRow
canceled now r = record r { status = "canceled"; updated_at = some now }

abbrev pub cancel_if_pending : Uuid → String → Action (Unit {0})
cancel_if_pending task_id current_status =
    if str_eq current_status "pending" then update_tasks (task_id_is task_id) canceled else pure tt

-- The task, its owner, and the status before; `None` where there is no such task.
unfoldable pub cancel_task : Uuid → Action (Option (TaskResponse × Option ℕ × String))
cancel_task task_id = do
  result ← task_rows (fetch_one (task_id_is task_id))
  none_or result (pure none) λ r. do
    cancel_if_pending task_id r.status
    task ← read_back task_id
    pure (some (task, r.user_id, r.status))

-- `SET url = :url, method = :method, headers = :headers, body = :body, updated_at = NOW()`
abbrev pub with_fields : TaskFields → Timestamp → TaskRow → TaskRow
with_fields fields now r = record r {
  url = fields.url;
  method = fields.method;
  headers = fields.headers;
  body = fields.body;
  updated_at = some now;
}

abbrev pub binding : TaskFields → Action (Unit {0})
binding fields env w = (if env.binds fields then ok tt else err db_error, w)

-- The publication to Redis, whose errors are caught.
abbrev pub publish_status : Uuid → String → Action (Unit {0})
publish_status task_id status env w = (
  ok tt,
  if env.redis_publishes w.transaction
      then record w { status_events = w.status_events ++ (task_id, status) ∷ [] }
      else w,
)

-- The statements of `update_task` after the first SELECT, which gave `r`. The task is updated
-- whatever its status and its owner.
abbrev pub write_update :
    Uuid → TaskFields → TaskRow → Action (Option (TaskResponse × Option ℕ × String))
write_update task_id fields r = do
  binding fields
  update_tasks (task_id_is task_id) (with_fields fields)
  task ← read_back task_id
  if str_eq r.status task.status then pure tt else publish_status task_id task.status
  pure (some (task, r.user_id, r.status))

unfoldable pub update_task : Uuid → TaskFields → Action (Option (TaskResponse × Option ℕ × String))
update_task task_id fields = do
  result ← task_rows (fetch_one (task_id_is task_id))
  none_or result (pure none) λ r. write_update task_id fields r

abbrev pub unconfirmed_id_is : Uuid → TaskRow → Bool
unconfirmed_id_is task_id r = task_id_is task_id r && str_eq r.status "BEFORE RMQ"

abbrev pub confirmed : TaskRow → TaskRow
confirmed r = record r { status = "pending" }

unfoldable pub confirm_rmq_task : Uuid → Action (Unit {0})
confirm_rmq_task id = do update_tasks (unconfirmed_id_is id) (λ now. confirmed); commit
