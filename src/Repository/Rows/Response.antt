-- ===== src/Repository/Rows/Response.antt =====
-- How a row of `tasks` becomes a `TaskResponse` (schemas/task.py).
use smart_http_requester.Common.{Option, some}
use smart_http_requester.Schemas.{literal_method, TaskResponse, ◌>>=◌}
use smart_http_requester.Tables.{TaskRow}
use smart_http_requester.Session.{Env}

-- pydantic takes a row for a `TaskResponse` if its url, method, headers, result and creation time
-- fit the types of the fields.
unfoldable pub task_response : Env → TaskRow → Option TaskResponse
task_response env r = do
  url ← env.http_url r.url
  method ← literal_method r.method
  headers ← env.read_headers r.headers
  result ← env.read_result r.result
  created_at ← r.created_at
  some (record {
    id = r.id;
    url = url;
    method = method;
    headers = headers;
    body = r.body;
    status = r.status;
    attempt_count = r.attempt_count;
    max_attempts = r.max_attempts;
    result = result;
    created_at = created_at;
    updated_at = r.updated_at;
  })
