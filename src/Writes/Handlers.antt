-- ===== src/Writes/Handlers.antt =====
-- The handlers of api/v1/requests.py write nothing but the changes of Writes.antt.
use smart_http_requester.Common.{ℕ, List}
use smart_http_requester.Common.Int.{ℤ, pos_part}
use smart_http_requester.Schemas.{Uuid, TaskBody, User, task_create, task_update}
use smart_http_requester.Tables.{Db}
use smart_http_requester.Session.{Env}
use smart_http_requester.Session.Keeps.{Keeps, bind-Keeps, catch-Keeps, bind_known}
use smart_http_requester.Api.Requests.{
  create_handler, batch_handler, info_handler, list_handler, delete_handler, update_handler,
}
use smart_http_requester.Writes.{Writes}
use smart_http_requester.Writes.OfTasks.{
  create_request_task-Keeps, create_request_tasks_batch-Keeps, cancel_request_task-Keeps,
}
use smart_http_requester.Writes.OfTasks.Update.{update_request_task-Keeps}
use smart_http_requester.Writes.Reads.{get_request_task-Keeps, get_user_request_tasks-Keeps}
use smart_http_requester.Writes.Guards.{
  returned, task_create-IsValidated, task_update-IsNormal, valid_creates-IsValidated,
  valid_create-Keeps, valid_update-Keeps, valid_creates-Keeps, valid_page-Keeps, server_error-Keeps,
  on_task_error-Keeps, on_batch_error-Keeps,
}

module _ (env : Env) (may : ℕ → Type 0) (start : Db) where
  pub create_handler-Keeps :
      (b : TaskBody) (user : User) → Keeps env (Writes env may start) (create_handler b user)
  create_handler-Keeps b user =
      bind_known (valid_create-Keeps env (Writes env may start) b) λ w d e.
        catch-Keeps
          (create_request_task-Keeps env may start user.id d
            (task_create-IsValidated env b (returned (task_create env.http_url b) env w e)))
          (server_error-Keeps env (Writes env may start))

  pub update_handler-Keeps :
      (i : Uuid) (b : TaskBody) (user : User)
      → Keeps env (Writes env may start) (update_handler i b user)
  update_handler-Keeps i b user =
      bind_known (valid_update-Keeps env (Writes env may start) b) λ w d e.
        catch-Keeps
          (update_request_task-Keeps env may start i user.id d
            (task_update-IsNormal env b (returned (task_update env.http_url b) env w e)))
          (on_task_error-Keeps env (Writes env may start))

  pub batch_handler-Keeps :
      (bs : List TaskBody) (user : User) → Keeps env (Writes env may start) (batch_handler bs user)
  batch_handler-Keeps bs user =
      bind_known (valid_creates-Keeps env (Writes env may start) bs) λ w ds e.
        catch-Keeps
          (create_request_tasks_batch-Keeps env may start user.id ds
            (valid_creates-IsValidated env bs w e))
          (on_batch_error-Keeps env (Writes env may start))

  pub list_handler-Keeps :
      (skip limit : ℤ) (user : User)
      → Keeps env (Writes env may start) (list_handler skip limit user)
  list_handler-Keeps skip limit user =
      bind-Keeps (valid_page-Keeps env (Writes env may start) skip limit) λ _.
        get_user_request_tasks-Keeps env (Writes env may start) user.id (pos_part skip)
          (pos_part limit)

  pub info_handler-Keeps :
      (i : Uuid) (user : User) → Keeps env (Writes env may start) (info_handler i user)
  info_handler-Keeps i user =
      catch-Keeps (get_request_task-Keeps env (Writes env may start) i user.id)
        (on_task_error-Keeps env (Writes env may start))

  pub delete_handler-Keeps :
      (i : Uuid) (user : User) → Keeps env (Writes env may start) (delete_handler i user)
  delete_handler-Keeps i user =
      catch-Keeps (cancel_request_task-Keeps env may start i user.id)
        (on_task_error-Keeps env (Writes env may start))
