-- ===== src/Tests/Writes.antt =====
-- The update, the listing and the batch on the sample.
use mathlib.Core.List.{reverse}
use smart_http_requester.Api.Sessions.{edit, version}
use smart_http_requester.Api.Sessions.Alone.{requests_refine}
use smart_http_requester.Api.Sessions.Replies.{
  get_reply, cancel_row, cancel_reply, update_reply, cancel_row-keeps,
}
use smart_http_requester.Tasks.Map.{of_table, find, alter}
use smart_http_requester.Common.{
  ◌≡◌, refl, Option, none, some, [], ◌∷◌, ◌++◌, map, subst, if◌then◌else◌, ◌==◌, ltb,
}
use smart_http_requester.Common.Int.{pos}
use smart_http_requester.Sql.{fetch_one, update}
use smart_http_requester.Schemas.{
  Uuid, TaskUpdate, TaskResponse, Method, literal_method, task_create, task_update,
}
use smart_http_requester.Tables.{TaskRow, task_id_is}
use smart_http_requester.Broker.{delivered, publish_fails}
use smart_http_requester.Session.{ok, err, http, broker_error, Env, reply_status}
use smart_http_requester.Middleware.Auth.{authorization}
use smart_http_requester.Repository.Identity.{get_user_by_token}
use smart_http_requester.Repository.Rows.{model_validate, model_validate_all, task_response}
use smart_http_requester.Repository.Creation.{insert_task, insert_rows, create_tasks_batch}
use smart_http_requester.Repository.Listing.{page, get_user_tasks}
use smart_http_requester.Repository.Listing.Order.{IsPage}
use smart_http_requester.Repository.Task.{with_fields}
use smart_http_requester.Domain.Create.{message_of}
use smart_http_requester.Domain.Readable.{IsReadable}
use smart_http_requester.Domain.Tasks.{
  get_user_request_tasks, get_request_task, cancel_request_task, update_request_task,
  update_fields_of,
}
use smart_http_requester.Api.Requests.{
  request_update, request_user_tasks, request_create_batch, valid_creates,
}
use smart_http_requester.Api.Endpoint.{Authorized, started}
use smart_http_requester.Api.Delete.{change_status, now_of}
use smart_http_requester.Api.Update.{edited, request_update_effect, request_update_status}
use smart_http_requester.Api.Listing.{Shows, request_user_tasks-page}
use smart_http_requester.Api.Batch.{request_create_batch_orphans}
use smart_http_requester.Tests.Sample.{env, env_with, task, ann, db, world, body}
use smart_http_requester.Tests.Tasks.{ann-Authorized, response, created}

-- What the bodies and the rows go through.
code : Unit {0}
unfolding authorization get_user_by_token literal_method task_create task_update task_response
    model_validate model_validate_all insert_task insert_rows create_tasks_batch page
code = tt

abbrev changed : TaskUpdate
changed = record {
  url = "https://example.com/new";
  method = Method.get;
  headers = none;
  body = some "payload";
}

changed-valid : task_update env.http_url body ≡ some changed
unfolding code
changed-valid = refl

abbrev changed_response : TaskResponse
changed_response = record (response 50 "pending") {
  url = "https://example.com/new";
  body = some "payload";
  updated_at = some (now_of env world);
}

reads_changed :
    task_response env
      (with_fields (update_fields_of changed) (now_of env world) (task 50 1 "pending"))
    ≡ some changed_response
unfolding code
reads_changed = refl

request_update_effect_example :
    let (reply, w') = request_update "t-ann" 50 body env world in
    (reply ≡ ok changed_response)
    × (w'.committed.tasks
        ≡ update
            (task_id_is 50)
            (with_fields (update_fields_of changed) (now_of env world))
            world.committed.tasks)
    × (fetch_one (task_id_is 50) w'.committed.tasks
        ≡ some (edited changed (now_of env world) (task 50 1 "pending")))
    × (w'.notified ≡ world.notified)
    × (w'.sent ≡ world.sent)
    × (w'.committed.users ≡ world.committed.users)
    × (w'.committed.tokens ≡ world.committed.tokens)
request_update_effect_example =
    request_update_effect "t-ann" 50 body env world ann changed ann-Authorized changed-valid refl
      {r = task 50 1 "pending"} {t = changed_response} refl refl refl reads_changed

abbrev Readable : Option TaskRow → Type 0
Readable none = Unit
Readable (some r) = IsReadable env (with_fields (update_fields_of changed) (now_of env world) r)

changed-IsReadable :
    (r : TaskRow)
    → fetch_one (task_id_is 50) db.tasks ≡ some r
    → IsReadable env (with_fields (update_fields_of changed) (now_of env world) r)
changed-IsReadable r e = subst Readable e (changed_response, reads_changed)

request_update_status_example :
    reply_status (request_update "t-ann" 50 body env world).0
    ≡ change_status (fetch_one (task_id_is 50) world.committed.tasks) 1
request_update_status_example =
    request_update_status "t-ann" 50 body env world ann changed ann-Authorized changed-valid refl
      changed-IsReadable

ann-Shows :
    Shows env
      (page 1 0 2 (env.scanned 1 world.committed.tasks))
      (response 50 "pending" ∷ response 52 "canceled" ∷ [])
unfolding code
ann-Shows = (refl, (refl, tt))

request_user_tasks-page_example :
    ((request_user_tasks "t-ann" (pos 0) (pos 2) env world).0
      ≡ ok (response 50 "pending" ∷ response 52 "canceled" ∷ []))
    × ((request_user_tasks "t-ann" (pos 0) (pos 2) env world).1.committed ≡ world.committed)
    × IsPage 1 0 2 world.committed.tasks (page 1 0 2 (env.scanned 1 world.committed.tasks))
request_user_tasks-page_example =
    request_user_tasks-page "t-ann" 0 2 env world ann
      (response 50 "pending" ∷ response 52 "canceled" ∷ []) ann-Authorized refl refl refl ann-Shows
      λ q. refl

-- Later queries give the rows the other way round.
abbrev turning_env : Env
turning_env = record env { scanned = λ n rows. if ltb n 2 then rows else reverse rows }

-- Ann's tasks were last modified at the same time: her second page shows that of the first again.
page_repeats :
    let first = request_user_tasks "t-ann" (pos 0) (pos 1) turning_env world in
    let second = request_user_tasks "t-ann" (pos 1) (pos 1) turning_env first.1 in
    (first.0 ≡ ok (response 50 "pending" ∷ [])) × (second.0 ≡ ok (response 50 "pending" ∷ []))
unfolding code request_user_tasks get_user_request_tasks get_user_tasks
page_repeats = (refl, refl)

-- The second publication fails.
abbrev half_env : Env
half_env = env_with (λ n. if n == 0 then delivered else publish_fails)

half-Authorized : Authorized half_env world "t-ann" ann
unfolding code
half-Authorized = refl

half-valid :
    valid_creates (body ∷ body ∷ []) half_env (started world)
    ≡ (ok (created ∷ created ∷ []), started world)
unfolding code
half-valid = refl

abbrev new_row : Uuid → TaskResponse
new_row i = record (response i "pending") {
  url = "https://example.com/new";
  body = some "payload";
  created_at = 1001;
}

half_inserted :
    (create_tasks_batch 1 (created ∷ created ∷ []) half_env (started world)).0
    ≡ ok (new_row 100 ∷ new_row 101 ∷ [])
unfolding code
half_inserted = refl

request_create_batch_orphans_example :
    let (r, w') = request_create_batch "t-ann" (body ∷ body ∷ []) half_env world in
    (r ≡ err (http 500 (half_env.exc_text broker_error)))
    × (w'.committed ≡ world.committed)
    × (w'.sent ≡ world.sent ++ map (message_of half_env) (new_row 100 ∷ []))
request_create_batch_orphans_example =
    request_create_batch_orphans "t-ann" (body ∷ body ∷ []) half_env world ann created
      (created ∷ []) (new_row 100 ∷ []) (new_row 101) [] half-Authorized half-valid half_inserted
      (refl, tt) refl

requests_refine_example :
    let m = of_table world.working.tasks in
    ((get_request_task 50 1 env world).0 ≡ get_reply env 1 (find 50 m))
    × (of_table (get_request_task 50 1 env world).1.working.tasks ≡ m)
    × ((cancel_request_task 50 1 env world).0 ≡ cancel_reply env 1000 1 (find 50 m))
    × (of_table (cancel_request_task 50 1 env world).1.working.tasks
        ≡ alter 50 (cancel_row 1000) (cancel_row-keeps 1000) m)
    × ((update_request_task 50 1 changed env world).0 ≡ update_reply env 1000 1 changed (find 50 m))
    × (of_table (update_request_task 50 1 changed env world).1.working.tasks
        ≡ alter 50 (version (edit (update_fields_of changed)) 1000) (λ r. refl) m)
requests_refine_example = requests_refine 50 1 env world changed
