-- ===== src/Tests/Tasks.antt =====
-- The task endpoints on the sample.
use smart_http_requester.Common.{◌≡◌, refl, String, none, some, List, [], ◌∷◌, map, ◌++◌}
use smart_http_requester.Common.Int.{pos}
use smart_http_requester.Sql.{fetch_one, select, update}
use smart_http_requester.Schemas.{
  Uuid, TaskCreate, TaskResponse, Method, literal_method, task_create, task_update,
}
use smart_http_requester.Tables.{TaskRow, task_id_is}
use smart_http_requester.Session.{ok, err, http, broker_error, reply_status}
use smart_http_requester.Middleware.Auth.{authorization}
use smart_http_requester.Repository.Identity.{get_user_by_token}
use smart_http_requester.Repository.Rows.{model_validate, model_validate_all, task_response}
use smart_http_requester.Repository.Creation.{
  insert_task, create_task, insert_rows, create_tasks_batch,
}
use smart_http_requester.Repository.Listing.{page, get_user_tasks}
use smart_http_requester.Repository.Task.{
  canceled, confirmed, status_changes, get_task_by_id, update_tasks, read_back, cancel_task,
  update_task, confirm_rmq_task,
}
use smart_http_requester.Broker.Publish.{publish_task}
use smart_http_requester.Domain.Tasks.{
  publish_response, publish_and_confirm, create_request_task, publish_responses,
  create_request_tasks_batch, get_request_task, get_user_request_tasks, cancel_request_task,
  update_request_task,
}
use smart_http_requester.Api.Requests.{
  request_create, request_create_batch, request_info, request_user_tasks, request_delete,
  request_update,
}
use smart_http_requester.Api.Endpoint.{Authorized, started}
use smart_http_requester.Api.Router
use smart_http_requester.Api.Router.{Request, run, run_all}
use smart_http_requester.Api.Isolation.{request_isolation, run_all-final}
use smart_http_requester.Api.Delete.{request_delete_effect, now_of}
use smart_http_requester.Api.Create.{request_create_effect, request_create_strands}
use smart_http_requester.Tasks.Unique.{HasUniqueIds}
use smart_http_requester.Tasks.Invariant.{foreign, IsFinal}
use smart_http_requester.Tasks.Storing.{IsAccepted, stored_row}
use smart_http_requester.Domain.Create.{message_of}
use smart_http_requester.Tests.Sample.{env, failing_env, task, ann, db, world, body}

-- Everything that the endpoints call.
code : Unit {0}
unfolding authorization get_user_by_token model_validate model_validate_all task_response
    literal_method task_create task_update insert_task create_task insert_rows create_tasks_batch
    page get_user_tasks get_task_by_id update_tasks read_back cancel_task update_task
    confirm_rmq_task publish_task publish_response publish_and_confirm create_request_task
    publish_responses create_request_tasks_batch get_request_task get_user_request_tasks
    cancel_request_task update_request_task request_create request_create_batch request_info
    request_user_tasks request_delete request_update
code = tt

pub ann-Authorized : Authorized env world "t-ann" ann
unfolding code
ann-Authorized = refl

delete_statuses :
    (reply_status (request_delete "t-ann" 50 env world).0 ≡ 200)
    × (reply_status (request_delete "t-ann" 51 env world).0 ≡ 403)
    × (reply_status (request_delete "t-ann" 52 env world).0 ≡ 400)
    × (reply_status (request_delete "t-ann" 53 env world).0 ≡ 404)
    × (reply_status (request_delete "zz" 50 env world).0 ≡ 401)
unfolding code
delete_statuses = (refl, refl, refl, refl, refl)

abbrev status_of : TaskRow → String
status_of r = r.status

-- Without a working broker the task stays in the table, waiting.
create_tests :
    (reply_status (request_create "t-ann" body env world).0 ≡ 200)
    × (map status_of (request_create "t-ann" body env world).1.committed.tasks
        ≡ "pending" ∷ "pending" ∷ "canceled" ∷ "pending" ∷ [])
    × (reply_status (request_create "t-ann" body failing_env world).0 ≡ 500)
    × (map status_of (request_create "t-ann" body failing_env world).1.committed.tasks
        ≡ "pending" ∷ "pending" ∷ "canceled" ∷ "BEFORE RMQ" ∷ [])
unfolding code
create_tests = (refl, refl, refl, refl)

abbrev pub response : Uuid → String → TaskResponse
response i status = record {
  id = i;
  url = "https://example.com/";
  method = Method.get;
  headers = none;
  body = none;
  status = status;
  attempt_count = pos 0;
  max_attempts = pos 5;
  result = none;
  created_at = 900;
  updated_at = none;
}

reads_50 : task_response env (task 50 1 "pending") ≡ some (response 50 "pending")
unfolding code
reads_50 = refl

pub db-HasUniqueIds : HasUniqueIds db.tasks
db-HasUniqueIds = (refl, (refl, (refl, tt)))

-- Ann's request to delete bob's task.
request_isolation_example :
    HasUniqueIds (run env "t-ann" (Router.delete 51) world).committed.tasks
    × (select (foreign 1) (run env "t-ann" (Router.delete 51) world).committed.tasks
        ≡ select (foreign 1) world.committed.tasks)
request_isolation_example =
    request_isolation env "t-ann" (Router.delete 51) world ann ann-Authorized db-HasUniqueIds

abbrev visits : List (String × Request)
visits = ("t-ann", Router.delete 50) ∷ ("t-bob", Router.create body) ∷ ("zz", Router.delete 51) ∷ []

canceled-IsFinal : IsFinal (task 52 1 "canceled")
canceled-IsFinal = (refl, refl)

run_all-final_example :
    fetch_one (task_id_is 52) (run_all env visits world).committed.tasks
    ≡ some (task 52 1 "canceled")
run_all-final_example =
    run_all-final env visits world 52 (task 52 1 "canceled") canceled-IsFinal refl

request_delete_effect_example :
    let (reply, w') = request_delete "t-ann" 50 env world in
    (reply
      ≡ ok (record (response 50 "pending") {
        status = "canceled";
        updated_at = some (now_of env world);
      }))
    × (w'.committed.tasks
        ≡ update (task_id_is 50) (canceled (now_of env world)) world.committed.tasks)
    × (w'.notified
        ≡ world.notified
          ++ status_changes (task_id_is 50) (canceled (now_of env world)) world.committed.tasks)
    × (w'.committed.users ≡ world.committed.users)
    × (w'.committed.tokens ≡ world.committed.tokens)
request_delete_effect_example =
    request_delete_effect "t-ann" 50 env world ann ann-Authorized {r = task 50 1 "pending"}
      {t = response 50 "pending"} refl refl refl reads_50

deleted_foreign : (request_delete "t-ann" 51 env world).0 ≡ err (http 403 "Access denied")
unfolding code
deleted_foreign = refl

updated_foreign : (request_update "t-ann" 51 body env world).0 ≡ err (http 403 "Access denied")
unfolding code
updated_foreign = refl

abbrev pub created : TaskCreate
created = record {
  url = "https://example.com/new";
  method = Method.get;
  headers = none;
  body = some "payload";
  max_attempts = pos 5;
}

abbrev new_response : TaskResponse
new_response = record (response 100 "BEFORE RMQ") {
  url = "https://example.com/new";
  body = some "payload";
  created_at = 1001;
}

created-valid : task_create env.http_url body ≡ some created
unfolding code
created-valid = refl

created-IsAccepted : IsAccepted 1 created env (started world)
created-IsAccepted = record { bound = refl; in_range = refl; user = refl; fresh = refl }

reads_created : task_response env (stored_row 1 created env (started world)) ≡ some new_response
unfolding code
reads_created = refl

request_create_effect_example :
    let (r, w') = request_create "t-ann" body env world in
    (r ≡ ok new_response)
    × (new_response.status ≡ "BEFORE RMQ")
    × (w'.committed.tasks
        ≡ world.committed.tasks ++ confirmed (stored_row 1 created env (started world)) ∷ [])
    × (w'.sent ≡ world.sent ++ message_of env new_response ∷ [])
request_create_effect_example =
    request_create_effect "t-ann" body env world ann created {t = new_response} ann-Authorized
      created-valid created-IsAccepted reads_created refl

failing-Authorized : Authorized failing_env world "t-ann" ann
unfolding code
failing-Authorized = refl

failing_reads :
    task_response failing_env (stored_row 1 created failing_env (started world)) ≡ some new_response
unfolding code
failing_reads = refl

failing-valid : task_create failing_env.http_url body ≡ some created
unfolding code
failing-valid = refl

failing-IsAccepted : IsAccepted 1 created failing_env (started world)
failing-IsAccepted = record { bound = refl; in_range = refl; user = refl; fresh = refl }

request_create_strands_example :
    let (r, w') = request_create "t-ann" body failing_env world in
    (r ≡ err (http 500 (failing_env.exc_text broker_error)))
    × (w'.committed.tasks
        ≡ world.committed.tasks ++ stored_row 1 created failing_env (started world) ∷ [])
    × (w'.sent ≡ world.sent)
request_create_strands_example =
    request_create_strands "t-ann" body failing_env world ann created {t = new_response}
      failing-Authorized failing-valid failing-IsAccepted failing_reads refl
