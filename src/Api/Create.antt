-- ===== src/Api/Create.antt =====
-- api/v1/requests.py: the effects of `request_create`.
use smart_http_requester.Common.{◌≡◌, refl, ap, ◌∙◌, String, true, some, [], ◌∷◌, ◌++◌, arith}
use smart_http_requester.Schemas.{TaskBody, TaskCreate, TaskResponse, User, task_create}
use smart_http_requester.Tables.{Db}
use smart_http_requester.Broker.{delivered}
use smart_http_requester.Session.{
  broker_error, http, Outcome, ok, err, Env, World, catch, rolling_back, committing,
}
use smart_http_requester.Repository.Rows.{task_response}
use smart_http_requester.Repository.Task.{confirmed}
use smart_http_requester.Domain.Tasks.{create_request_task}
use smart_http_requester.Domain.Create.{message_of}
use smart_http_requester.Domain.Readable.{task_response_fields}
use smart_http_requester.Tasks.Storing.{
  IsAccepted, stored_row, refuses, create_stores, create_strands,
}
use smart_http_requester.Tasks.Creation.{create_request_task-same}
use smart_http_requester.Api.Requests.{request_create, create_handler, server_error}
use smart_http_requester.Api.Endpoint.{
  Authorized, started, endpoint-committed, endpoint_ok, catch_ok, endpoint_err, endpoint-sent,
  server_error-catch,
}

module _ (token : String) (body : TaskBody) (env : Env) (w : World) (user : User) (d : TaskCreate)
    {t : TaskResponse} (auth : Authorized env w token user)
    (valid : task_create env.http_url body ≡ some d)
    (accepted : IsAccepted user.id d env (started w))
    (reads : task_response env (stored_row user.id d env (started w)) ≡ some t) where
  handled :
      create_handler body user env (started w)
      ≡ catch (create_request_task user.id d) server_error env (started w)
  handled = ground arith

  after : World
  after = (create_request_task user.id d env (started w)).1

  returns :
      (create_request_task user.id d env (started w)).0 ≡ ok t
      → request_create token body env w ≡ (ok t, rolling_back (committing after))
  unfolding request_create after
  returns p = endpoint_ok token (create_handler body) env w after user t auth (
      handled
      ∙ catch_ok (create_request_task user.id d) server_error env (started w) after t
          (ground (arith, p)))

  -- A POST with a valid token and a valid body, whose row the database accepts and which reads
  -- back, with a broker that delivers, answers with the new task and stores it as pending at the
  -- end of the table, with one message that names it; but the answer shows the status BEFORE RMQ,
  -- which the stored row no longer has.
  pub request_create_effect :
      env.broker w.broker_uses ≡ delivered
      → let (r, w') = request_create token body env w in
        (r ≡ ok t)
        × (t.status ≡ "BEFORE RMQ")
        × (w'.committed.tasks
            ≡ w.committed.tasks ++ confirmed (stored_row user.id d env (started w)) ∷ [])
        × (w'.sent ≡ w.sent ++ message_of env t ∷ [])
  unfolding after
  request_create_effect b =
      let (replied, stored, told) = create_stores user.id d env (started w) accepted reads b in
      let same = create_request_task-same user.id d env (started w) replied in
      let status : t.status ≡ "BEFORE RMQ" =
        (task_response_fields env (stored_row user.id d env (started w)) reads).1 in
      rw (returns replied) (refl, status, ap (λ (db : Db). db.tasks) same ∙ stored, told)

  -- If in such a POST the broker refuses the channel, the declaration or the publication, the
  -- answer is 500 and nothing is sent, but the new task stays stored in the status BEFORE RMQ: the
  -- rollback comes after its commit.
  pub request_create_strands :
      refuses (env.broker w.broker_uses) ≡ true
      → let (r, w') = request_create token body env w in
        (r ≡ err (http 500 (env.exc_text broker_error)))
        × (w'.committed.tasks ≡ w.committed.tasks ++ stored_row user.id d env (started w) ∷ [])
        × (w'.sent ≡ w.sent)
  unfolding request_create
  request_create_strands b =
      let (failed, stored, told) = create_strands user.id d env (started w) accepted reads b in
      let raised : (create_handler body user env (started w)).0
          ≡ err (http 500 (env.exc_text broker_error)) =
        ap (λ (p : Outcome TaskResponse × World). p.0) handled ∙ ground (arith, failed) in
      let kept : (create_handler body user env (started w)).1
          ≡ (create_request_task user.id d env (started w)).1 =
        ap (λ (p : Outcome TaskResponse × World). p.1) handled
        ∙ (server_error-catch (create_request_task user.id d) env (started w)).0 in
      (
        endpoint_err token (create_handler body) env w user _ auth raised,
        ap (λ (db : Db). db.tasks)
              (endpoint-committed token (create_handler body) env w user _ auth raised)
            ∙ ap (λ (v : World). v.committed.tasks) kept
            ∙ stored,
        endpoint-sent token (create_handler body) env w user auth
            ∙ ap (λ (v : World). v.sent) kept
            ∙ told,
      )
