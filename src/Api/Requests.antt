-- ===== src/Api/Requests.antt =====
-- api/v1/requests.py: the endpoints on tasks. Each runs in a session of `get_db`, which
-- `authorization` shares; a body or a query that does not validate is answered by 422 after it.
use smart_http_requester.Common.{String, Option, none, some, List, [], ◌∷◌, if◌then◌else◌, ◌&&◌}
use smart_http_requester.Common.Int.{ℤ, pos, pos_part, leb_ℤ}
use smart_http_requester.Schemas.{
  Uuid, TaskBody, TaskCreate, TaskUpdate, TaskResponse, User, task_create, task_update,
}
use smart_http_requester.Tables.{fits_int4}
use smart_http_requester.Session.{
  Exc, http, task_not_found, access_denied, invalid_task_status, value_error, validation_error,
  decode_error, db_error, ok, err, Action, pure, raise, ◌>>=◌, ◌>>◌, catch, get_db,
}
use smart_http_requester.Middleware.Auth.{authorization}
use smart_http_requester.Domain.Tasks.{
  create_request_task, create_request_tasks_batch, get_request_task, get_user_request_tasks,
  cancel_request_task, update_request_task,
}

abbrev pub unprocessable : Exc
unprocessable = http 422 "Unprocessable"

abbrev pub or_unprocessable : {A : Type 0} → Option A → Action A
or_unprocessable none = raise unprocessable
or_unprocessable (some a) = pure a

-- `except Exception as exc`
abbrev pub server_error : {A : Type 0} → Exc → Action A
server_error e env w = (err (http 500 (env.exc_text e)), w)

-- The handlers of `TaskNotFoundError`, `AccessDeniedError` and `InvalidTaskStatusError`.
abbrev pub task_error : Exc → Exc
task_error task_not_found = http 404 "Task not found"
task_error access_denied = http 403 "Access denied"
task_error (invalid_task_status detail) = http 400 detail
task_error e = e

abbrev pub on_task_error : {A : Type 0} → Exc → Action A
on_task_error e = raise (task_error e)

abbrev pub bad_request : {A : Type 0} → Exc → Action A
bad_request e env w = (err (http 400 (env.exc_text e)), w)

-- ValueError is caught first, pydantic's ValidationError and UnicodeDecodeError being ones.
abbrev pub on_batch_error : {A : Type 0} → Exc → Action A
on_batch_error (value_error detail) = raise (http 400 detail)
on_batch_error validation_error = bad_request validation_error
on_batch_error decode_error = bad_request decode_error
on_batch_error e = server_error e

abbrev pub endpoint : {A : Type 0} → String → (User → Action A) → Action A
endpoint token handler = get_db (do user ← authorization (pos 0) token; handler user)

abbrev pub valid_create : TaskBody → Action TaskCreate
valid_create body env w = or_unprocessable (task_create env.http_url body) env w

abbrev pub valid_update : TaskBody → Action TaskUpdate
valid_update body env w = or_unprocessable (task_update env.http_url body) env w

abbrev pub valid_creates : List TaskBody → Action (List TaskCreate)
valid_creates [] = pure []
valid_creates (b ∷ bs) = do t ← valid_create b; ts ← valid_creates bs; pure (t ∷ ts)

abbrev pub create_handler : TaskBody → User → Action TaskResponse
create_handler body user = do
  task_data ← valid_create body
  catch (create_request_task user.id task_data) server_error

unfoldable pub request_create : String → TaskBody → Action TaskResponse
request_create token body = endpoint token (create_handler body)

abbrev pub info_handler : Uuid → User → Action TaskResponse
info_handler task_id user = catch (get_request_task task_id user.id) on_task_error

unfoldable pub request_info : String → Uuid → Action TaskResponse
request_info token task_id = endpoint token (info_handler task_id)

-- `Query(ge=0)` and `Query(ge=1, le=100)`; a number too large for the driver's int4 is refused by
-- it.
abbrev pub valid_page : ℤ → ℤ → Action (Unit {0})
valid_page skip limit env w = (
  if leb_ℤ (pos 0) skip && leb_ℤ (pos 1) limit && leb_ℤ limit (pos 100)
      then if fits_int4 skip then ok tt else err db_error
      else err unprocessable,
  w,
)

abbrev pub list_handler : ℤ → ℤ → User → Action (List TaskResponse)
list_handler skip limit user = do
  valid_page skip limit
  get_user_request_tasks user.id (pos_part skip) (pos_part limit)

unfoldable pub request_user_tasks : String → ℤ → ℤ → Action (List TaskResponse)
request_user_tasks token skip limit = endpoint token (list_handler skip limit)

abbrev pub delete_handler : Uuid → User → Action TaskResponse
delete_handler task_id user = catch (cancel_request_task task_id user.id) on_task_error

unfoldable pub request_delete : String → Uuid → Action TaskResponse
request_delete token task_id = endpoint token (delete_handler task_id)

abbrev pub update_handler : Uuid → TaskBody → User → Action TaskResponse
update_handler task_id body user = do
  task_data ← valid_update body
  catch (update_request_task task_id user.id task_data) on_task_error

unfoldable pub request_update : String → Uuid → TaskBody → Action TaskResponse
request_update token task_id body = endpoint token (update_handler task_id body)

abbrev pub batch_handler : List TaskBody → User → Action (List TaskResponse)
batch_handler bodies user = do
  tasks_data ← valid_creates bodies
  catch (create_request_tasks_batch user.id tasks_data) on_batch_error

unfoldable pub request_create_batch : String → List TaskBody → Action (List TaskResponse)
request_create_batch token bodies = endpoint token (batch_handler bodies)
