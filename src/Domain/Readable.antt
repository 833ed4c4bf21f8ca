-- ===== src/Domain/Readable.antt =====
-- Rows that `TaskResponse.model_validate` accepts.
use smart_http_requester.Common.{◌≡◌, some, arith}
use smart_http_requester.Schemas.{Timestamp, TaskResponse}
use smart_http_requester.Tables.{TaskRow}
use smart_http_requester.Session.{Env}
use smart_http_requester.Repository.Rows.{task_response}
use smart_http_requester.Repository.Task.{canceled}

abbrev pub IsReadable : Env → TaskRow → Type 0
IsReadable env r = (t : TaskResponse) × (task_response env r ≡ some t)

-- Cancelling changes none of the fields that are validated.
pub task_response-canceled :
    (env : Env) (r : TaskRow) (now : Timestamp) {t : TaskResponse}
    → task_response env r ≡ some t
    → task_response env (canceled now r)
      ≡ some (record t { status = "canceled"; updated_at = some now })
unfolding task_response
task_response-canceled env r now e = ground arith

-- The response shows the id of its row, and its limit of attempts.
pub task_response_fields :
    (env : Env) (r : TaskRow) {t : TaskResponse}
    → task_response env r ≡ some t
    → (t.id ≡ r.id) × (t.status ≡ r.status) × (t.max_attempts ≡ r.max_attempts)
unfolding task_response
task_response_fields env r e = ground arith
