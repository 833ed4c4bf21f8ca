-- ===== src/Domain/Tasks.antt =====
-- domain/tasks.py: the operations on tasks, with their exceptions. Logging is left out.
use Prim.Native.String
use smart_http_requester.Common.{
  Option, ℕ, ◌+◌, String, List, [], ◌∷◌, if◌then◌else◌, str_eq, not, length,
}
use smart_http_requester.Schemas.{Uuid, TaskCreate, TaskUpdate, TaskResponse, method_text}
use smart_http_requester.Tables.{equals}
use smart_http_requester.Session.{
  task_not_found, access_denied, invalid_task_status, value_error, TaskFields, Env, Action, pure,
  raise, none_or, ◌>>=◌, ◌>>◌, modify, commit,
}
use smart_http_requester.Broker.Publish.{publish_task}
use smart_http_requester.Repository.Creation.{fields_of, create_task, create_tasks_batch}
use smart_http_requester.Repository.Listing.{get_user_tasks}
use smart_http_requester.Repository.Task.{
  get_task_by_id, cancel_task, update_task, confirm_rmq_task,
}

-- `json.dumps({"task_id": str(task.id)})`
abbrev pub task_payload : Env → Uuid → String
task_payload env id = String.◌++◌ "{\"task_id\": \"" (String.◌++◌ (env.uuid_text id) "\"}")

unfoldable pub publish_response : TaskResponse → Action (Unit {0})
publish_response task env w = publish_task (task_payload env task.id) task.max_attempts env w

abbrev pub count_created : ℕ → Action (Unit {0})
count_created n = modify (λ w. record w { tasks_created_total = w.tasks_created_total + n })

-- What `create_request_task` does after its first commit.
unfoldable pub publish_and_confirm : TaskResponse → Action TaskResponse
publish_and_confirm task = do
  publish_response task
  confirm_rmq_task task.id
  commit
  count_created 1
  pure task

unfoldable pub create_request_task : ℕ → TaskCreate → Action TaskResponse
create_request_task user_id task_data = do
  task ← create_task user_id (fields_of task_data) task_data.max_attempts "BEFORE RMQ"
  commit
  publish_and_confirm task

unfoldable pub publish_responses : List TaskResponse → Action (Unit {0})
publish_responses [] = pure tt
publish_responses (task ∷ tasks) = publish_response task >> publish_responses tasks

-- The list is refused if it is empty.
unfoldable pub create_request_tasks_batch : ℕ → List TaskCreate → Action (List TaskResponse)
create_request_tasks_batch user_id [] = raise (value_error "At least one task must be provided.")
create_request_tasks_batch user_id (t ∷ ts) = do
  tasks ← create_tasks_batch user_id (t ∷ ts)
  publish_responses tasks
  count_created (length tasks)
  pure tasks

unfoldable pub get_request_task : Uuid → ℕ → Action TaskResponse
get_request_task task_id user_id = do
  result ← get_task_by_id task_id
  none_or result (raise task_not_found) λ (task, task_user_id).
      if not (equals task_user_id user_id) then raise access_denied else pure task

unfoldable pub get_user_request_tasks : ℕ → ℕ → ℕ → Action (List TaskResponse)
get_user_request_tasks user_id skip limit = get_user_tasks user_id skip limit

abbrev pub not_cancelable : String → String
not_cancelable s =
    String.◌++◌ "Task cannot be canceled. Current status: "
      (String.◌++◌ s ". Only pending tasks can be canceled.")

abbrev pub not_updatable : String → String
not_updatable s =
    String.◌++◌ "Task cannot be updated. Current status: "
      (String.◌++◌ s ". Only pending tasks can be updated.")

abbrev pub count_canceled : Action (Unit {0})
count_canceled = modify (λ w. record w { tasks_canceled_total = w.tasks_canceled_total + 1 })

-- The checks come after the repository's change.
unfoldable pub cancel_request_task : Uuid → ℕ → Action TaskResponse
cancel_request_task task_id user_id = do
  result ← cancel_task task_id
  none_or result (raise task_not_found) λ (task, task_user_id, current_status).
      if not (equals task_user_id user_id)
      then raise access_denied
      else if not (str_eq current_status "pending")
      then raise (invalid_task_status (not_cancelable current_status))
      else (count_canceled >> pure task)

abbrev pub update_fields_of : TaskUpdate → TaskFields
update_fields_of t = record {
  url = t.url;
  method = method_text t.method;
  headers = t.headers;
  body = t.body;
}

-- The checks on what the repository returns.
abbrev pub checked_update : ℕ → Option (TaskResponse × Option ℕ × String) → Action TaskResponse
checked_update user_id result =
    none_or result (raise task_not_found) λ (task, task_user_id, current_status).
      if not (equals task_user_id user_id)
      then raise access_denied
      else if not (str_eq current_status "pending")
      then raise (invalid_task_status (not_updatable current_status))
      else pure task

unfoldable pub update_request_task : Uuid → ℕ → TaskUpdate → Action TaskResponse
update_request_task task_id user_id task_data = do
  result ← update_task task_id (update_fields_of task_data)
  checked_update user_id result
