-- ===== src/Api/Changes.antt =====
-- The endpoints of api/v1/requests.py refine the changes of Tasks/Change.antt.
use smart_http_requester.Common.{
  ℕ, ◌≡◌, refl, ap, ◌∙◌, String, none, some, Option, List, [], ◌∷◌, arith,
}
use smart_http_requester.Common.Int.{ℤ, pos_part}
use smart_http_requester.Schemas.{
  Uuid, TaskBody, TaskCreate, TaskUpdate, TaskResponse, User, task_create, task_update,
}
use smart_http_requester.Tables.{Db}
use smart_http_requester.Session.{Exc, Outcome, ok, err, Env, World, Action, catch}
use smart_http_requester.Domain.Tasks.{
  create_request_task, create_request_tasks_batch, get_request_task, get_user_request_tasks,
  cancel_request_task, update_request_task,
}
use smart_http_requester.Domain.Quiet.{cancel_request_task-IsQuiet, update_request_task-IsQuiet}
use smart_http_requester.Domain.Cancel.{cancel_returns}
use smart_http_requester.Domain.Create.{model_validate_all_world}
use smart_http_requester.Repository.Rows.{model_validate}
use smart_http_requester.Repository.Task.{get_task_by_id}
use smart_http_requester.Repository.Listing.{get_user_tasks, page}
use smart_http_requester.Domain.Update.{update_returns}
use smart_http_requester.Tasks.Change.{cancel, edit, Changes, unchanged, next}
use smart_http_requester.Tasks.Creation.{create_request_task-Changes, create_request_task-same}
use smart_http_requester.Tasks.Batch.{
  create_request_tasks_batch-Changes, create_request_tasks_batch-committed,
}
use smart_http_requester.Api.Requests.{
  info_handler, list_handler, request_info, request_user_tasks, request_create, request_delete,
  request_update, request_create_batch, endpoint, create_handler, delete_handler, update_handler,
  batch_handler, valid_creates, unprocessable, on_task_error, server_error, on_batch_error,
}
use smart_http_requester.Api.Endpoint.{
  Authorized, started, endpoint-committed, endpoint-working, on_task_error-catch,
  server_error-catch, on_batch_error-catch,
}

get_request_task_world :
    (i : Uuid) (u : ℕ) (env : Env) (w : World) → (get_request_task i u env w).1 ≡ w
unfolding get_request_task get_task_by_id model_validate
get_request_task_world i u env w = ground arith

get_user_request_tasks_world :
    (u skip limit : ℕ) (env : Env) (w : World) → (get_user_request_tasks u skip limit env w).1 ≡ w
unfolding get_user_request_tasks get_user_tasks
get_user_request_tasks_world u skip limit env w =
    model_validate_all_world (page u skip limit (env.scanned w.transaction w.working.tasks)) env w

module _ (token : String) (env : Env) (w : World) (user : User)
    (auth : Authorized env w token user) where
  -- An endpoint makes the changes of its handler: those of the session's view if it returns, those
  -- that it has committed if it raises.
  endpoint-Changes :
      {A : Type 0} (h : User → Action A) (r : Outcome A × World)
      → h user env (started w) ≡ r
      → ((a : A) → r.0 ≡ ok a → Changes user.id w.committed.tasks r.1.working.tasks)
      → ((e : Exc) → r.0 ≡ err e → Changes user.id w.committed.tasks r.1.committed.tasks)
      → Changes user.id w.committed.tasks (endpoint token h env w).1.committed.tasks
  endpoint-Changes h (ok a, v) q good bad =
      rw
        (endpoint-working token h env w user a auth (ap (λ (p : Outcome _ × World). p.0) q)
          ∙ ap (λ (p : Outcome _ × World). p.1.working) q)
        (good a refl)
  endpoint-Changes h (err e, v) q good bad =
      rw
        (endpoint-committed token h env w user e auth (ap (λ (p : Outcome _ × World). p.0) q)
          ∙ ap (λ (p : Outcome _ × World). p.1.committed) q)
        (bad e refl)

  delete-good :
      (i : Uuid) (a : TaskResponse)
      → (cancel_request_task i user.id env (started w)).0 ≡ ok a
      → Changes user.id w.committed.tasks
          (cancel_request_task i user.id env (started w)).1.working.tasks
  delete-good i a p =
      let (r, f, o, s, e) = cancel_returns i user.id env (started w) p in
      rw (ap (λ (db : Db). db.tasks) e) (
        next unchanged (
          cancel i (env.now (started w).transaction) r
            (record { found = f; owned = o; in_status = s }) refl))

  -- A DELETE cancels a pending task of the user's, or changes nothing.
  pub request_delete-Changes :
      (i : Uuid)
      → Changes user.id w.committed.tasks (request_delete token i env w).1.committed.tasks
  unfolding request_delete
  request_delete-Changes i =
      let (same, back) = on_task_error-catch (cancel_request_task i user.id) env (started w) in
      endpoint-Changes (delete_handler i)
        (catch (cancel_request_task i user.id) on_task_error env (started w)) refl
        (λ a p. rw same (delete-good i a (back a p)))
        (λ e p.
          rw (same, ((cancel_request_task-IsQuiet i user.id).at env (started w)).committed)
            unchanged)

  update-good :
      (i : Uuid) (d : TaskUpdate) (a : TaskResponse)
      → (update_request_task i user.id d env (started w)).0 ≡ ok a
      → Changes user.id w.committed.tasks
          (update_request_task i user.id d env (started w)).1.working.tasks
  update-good i d a p =
      let (r, f, o, s, e) = update_returns i user.id d env (started w) p in
      rw (ap (λ (db : Db). db.tasks) e) (
        next unchanged (
          edit i _ (env.now (started w).transaction) r
            (record { found = f; owned = o; in_status = s }) refl))

  update-Changes :
      (i : Uuid) (b : TaskBody) (o : Option TaskUpdate)
      → task_update env.http_url b ≡ o
      → Changes user.id w.committed.tasks (request_update token i b env w).1.committed.tasks
  unfolding request_update
  update-Changes i b none q =
      endpoint-Changes (update_handler i b) (err unprocessable, started w) (ground arith)
        (λ a p. absurd (cc)) (λ e p. unchanged)
  update-Changes i b (some d) q =
      let (same, back) = on_task_error-catch (update_request_task i user.id d) env (started w) in
      endpoint-Changes (update_handler i b)
        (catch (update_request_task i user.id d) on_task_error env (started w)) (ground arith)
        (λ a p. rw same (update-good i d a (back a p)))
        (λ e p.
          rw (same, ((update_request_task-IsQuiet i user.id d).at env (started w)).committed)
            unchanged)

  -- A PUT edits a pending task of the user's, or changes nothing.
  pub request_update-Changes :
      (i : Uuid) (b : TaskBody)
      → Changes user.id w.committed.tasks (request_update token i b env w).1.committed.tasks
  request_update-Changes i b = update-Changes i b (task_update env.http_url b) refl

  create-Changes :
      (b : TaskBody) (o : Option TaskCreate)
      → task_create env.http_url b ≡ o
      → Changes user.id w.committed.tasks (request_create token b env w).1.committed.tasks
  unfolding request_create
  create-Changes b none q =
      endpoint-Changes (create_handler b) (err unprocessable, started w) (ground arith)
        (λ a p. absurd (cc)) (λ e p. unchanged)
  create-Changes b (some d) q =
      let (same, back) = server_error-catch (create_request_task user.id d) env (started w) in
      endpoint-Changes (create_handler b)
        (catch (create_request_task user.id d) server_error env (started w)) (ground arith)
        (λ a p.
          rw (same, create_request_task-same user.id d env (started w) (back a p))
            (create_request_task-Changes user.id d env (started w) refl))
        (λ e p. rw same (create_request_task-Changes user.id d env (started w) refl))

  -- A POST adds a task of the user's and may confirm it, or changes nothing.
  pub request_create-Changes :
      (b : TaskBody)
      → Changes user.id w.committed.tasks (request_create token b env w).1.committed.tasks
  request_create-Changes b = create-Changes b (task_create env.http_url b) refl

  valid_creates-quiet : (bs : List TaskBody) (v : World) → (valid_creates bs env v).1 ≡ v
  valid_creates-quiet [] v = refl
  valid_creates-quiet (b ∷ bs) v = ground (arith, valid_creates-quiet bs v)

  batch-Changes :
      (bs : List TaskBody) (o : Outcome (List TaskCreate))
      → (valid_creates bs env (started w)).0 ≡ o
      → Changes user.id w.committed.tasks (request_create_batch token bs env w).1.committed.tasks
  unfolding request_create_batch
  batch-Changes bs (err x) q =
      endpoint-Changes (batch_handler bs) (err x, started w)
        (ground (arith, valid_creates-quiet bs (started w))) (λ a p. absurd (cc)) (λ e p. unchanged)
  batch-Changes bs (ok ds) q =
      let (same, back) =
        on_batch_error-catch (create_request_tasks_batch user.id ds) env (started w) in
      endpoint-Changes (batch_handler bs)
        (catch (create_request_tasks_batch user.id ds) on_batch_error env (started w))
        (ground (arith, valid_creates-quiet bs (started w)))
        (λ a p. rw same (create_request_tasks_batch-Changes user.id ds env (started w) (back a p)))
        (λ e p.
          rw (same, create_request_tasks_batch-committed user.id ds env (started w)) unchanged)

  -- A batch adds tasks of the user's, all or none.
  pub request_create_batch-Changes :
      (bs : List TaskBody)
      → Changes user.id w.committed.tasks (request_create_batch token bs env w).1.committed.tasks
  request_create_batch-Changes bs = batch-Changes bs (valid_creates bs env (started w)).0 refl

  info_handler_world : (i : Uuid) → (info_handler i user env (started w)).1 ≡ started w
  info_handler_world i = ground (arith, get_request_task_world i user.id env (started w))

  list_handler_world :
      (skip limit : ℤ) → (list_handler skip limit user env (started w)).1 ≡ started w
  list_handler_world skip limit =
      ground (
        arith,
        get_user_request_tasks_world user.id (pos_part skip) (pos_part limit) env (started w),
      )

  -- Reading changes nothing.
  pub request_info-Changes :
      (i : Uuid) → Changes user.id w.committed.tasks (request_info token i env w).1.committed.tasks
  unfolding request_info
  request_info-Changes i =
      endpoint-Changes (info_handler i) (info_handler i user env (started w)) refl
        (λ a p. rw (info_handler_world i) unchanged) (λ e p. rw (info_handler_world i) unchanged)

  pub request_user_tasks-Changes :
      (skip limit : ℤ)
      → Changes user.id w.committed.tasks
          (request_user_tasks token skip limit env w).1.committed.tasks
  unfolding request_user_tasks
  request_user_tasks-Changes skip limit =
      endpoint-Changes (list_handler skip limit) (list_handler skip limit user env (started w)) refl
        (λ a p. rw (list_handler_world skip limit) unchanged)
        (λ e p. rw (list_handler_world skip limit) unchanged)
